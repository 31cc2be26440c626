-- ===== src/Common/Recency.antt =====
-- Entries by recency: sorted with the newest in front, and a table without some of its keys.
use Prim.Native.Nat.{ℕ, zero, suc, ◌-◌, ◌≤◌}
use mathlib.Core.Path.{◌≡◌, refl, ap, ◌∙◌}
use mathlib.Core.Logic.{ite}
use mathlib.Core.List.{List, [], ◌∷◌}
use mathlib.Core.Option.{none, some}
use native.Mathlib.Omega.{arith}
use pao_pao_gate_way.Common.Tests.{leb, ltb, if◌then◌else◌}
use pao_pao_gate_way.Common.Lists.{length, take, drop, All, length-drop}
use pao_pao_gate_way.Common.Maps.{get, Distinct}

module _ {K : Type 0} where
  -- In front of the first that is older.
  unfoldable pub put_by : K × ℕ → List (K × ℕ) → List (K × ℕ)
  put_by (k, t) [] = (k, t) ∷ []
  put_by (k, t) ((j, u) ∷ xs) = if leb u t then (k, t) ∷ (j, u) ∷ xs else (j, u) ∷ put_by (k, t) xs

  -- `sort_unstable_by_key(|x| Reverse(x.1))`, in one of its orders.
  unfoldable pub newest_first : List (K × ℕ) → List (K × ℕ)
  newest_first [] = []
  newest_first (x ∷ xs) = put_by x (newest_first xs)

  pub length-put_by : (x : K × ℕ) (xs : List (K × ℕ)) → length (put_by x xs) ≡ suc (length xs)
  unfolding put_by
  length-put_by (k, t) [] = refl
  length-put_by (k, t) ((j, u) ∷ xs) = ground (arith, length-put_by (k, t) xs)

  pub length-newest_first : (xs : List (K × ℕ)) → length (newest_first xs) ≡ length xs
  unfolding newest_first
  length-newest_first [] = refl
  length-newest_first (x ∷ xs) = length-put_by x (newest_first xs) ∙ ap suc (length-newest_first xs)

  -- Nothing in the list is newer than `t`.
  abbrev pub NoNewer : ℕ → List (K × ℕ) → Type 0
  NoNewer t xs = All (λ e. e.1 ≤ t) xs

  abbrev pub IsSorted : List (K × ℕ) → Type 0
  IsSorted [] = Unit
  IsSorted (x ∷ xs) = NoNewer x.1 xs × IsSorted xs

  NoNewer-le : (t u : ℕ) (xs : List (K × ℕ)) → t ≤ u → NoNewer t xs → NoNewer u xs
  NoNewer-le t u [] h n = tt
  NoNewer-le t u (x ∷ xs) h n = (omega (arith, n.0), NoNewer-le t u xs h n.1)

  NoNewer-put_by :
      (t : ℕ) (x : K × ℕ) (xs : List (K × ℕ)) → x.1 ≤ t → NoNewer t xs → NoNewer t (put_by x xs)
  unfolding put_by
  NoNewer-put_by t (k, u) [] h n = (h, tt)
  NoNewer-put_by t (k, u) ((j, v) ∷ xs) h n = ground (arith, NoNewer-put_by t (k, u) xs h n.1)

  put_by-IsSorted : (x : K × ℕ) (xs : List (K × ℕ)) → IsSorted xs → IsSorted (put_by x xs)
  unfolding put_by
  put_by-IsSorted (k, t) [] s = (tt, tt)
  put_by-IsSorted (k, t) ((j, u) ∷ xs) s =
      ground (arith, NoNewer-le u t xs, NoNewer-put_by u (k, t) xs, put_by-IsSorted (k, t) xs s.1)

  pub newest_first-IsSorted : (xs : List (K × ℕ)) → IsSorted (newest_first xs)
  unfolding newest_first
  newest_first-IsSorted [] = tt
  newest_first-IsSorted (x ∷ xs) = put_by-IsSorted x (newest_first xs) (newest_first-IsSorted xs)

  -- The entries behind the first `limit` of those with a time, the newest in front.
  unfoldable pub excess : ℕ → List (K × ℕ) → List (K × ℕ)
  excess limit xs = if ltb limit (length xs) then drop limit (newest_first xs) else []

  pub length-excess : (limit : ℕ) (xs : List (K × ℕ)) → length (excess limit xs) ≡ length xs - limit
  unfolding excess
  length-excess limit xs =
      ground (arith, length-drop limit (newest_first xs), length-newest_first xs)

module _ {K : Type 0} (dec : Discrete K) where
  get-put_by :
      (k j : K) (t : ℕ) (xs : List (K × ℕ))
      → get dec j xs ≡ none
      → get dec k (put_by (j, t) xs) ≡ ite (dec j k) (some t) (get dec k xs)
  unfolding get put_by
  get-put_by k j t [] h = refl
  get-put_by k j t ((i, u) ∷ xs) h = ground (arith, get-put_by k j t xs)

  Distinct-put_by :
      (j : K) (t : ℕ) (xs : List (K × ℕ))
      → get dec j xs ≡ none
      → Distinct dec xs
      → Distinct dec (put_by (j, t) xs)
  unfolding get put_by
  Distinct-put_by j t [] h d = (refl, tt)
  Distinct-put_by j t ((i, u) ∷ xs) h d =
      ground (arith, Distinct-put_by j t xs, get-put_by i j t xs)

  pub newest_first_lem :
      (xs : List (K × ℕ))
      → Distinct dec xs
      → ((k : K) → get dec k (newest_first xs) ≡ get dec k xs) × Distinct dec (newest_first xs)
  unfolding get newest_first
  newest_first_lem [] d = ((λ k. refl), tt)
  newest_first_lem ((j, t) ∷ xs) d =
      let (a, b) = newest_first_lem xs d.1 in
      (
        (λ k. get-put_by k j t (newest_first xs) (a j ∙ d.0) ∙ ap (ite (dec j k) (some t)) (a k)),
        Distinct-put_by j t (newest_first xs) (a j ∙ d.0) b,
      )

  NoNewer-drop : (n t : ℕ) (xs : List (K × ℕ)) → NoNewer t xs → NoNewer t (drop n xs)
  NoNewer-drop zero t xs h = h
  NoNewer-drop (suc n) t [] h = tt
  NoNewer-drop (suc n) t (x ∷ xs) h = NoNewer-drop n t xs h.1

  NoNewer-get : (t u : ℕ) (j : K) (xs : List (K × ℕ)) → NoNewer t xs → get dec j xs ≡ some u → u ≤ t
  unfolding get
  NoNewer-get t u j [] h e = cc
  NoNewer-get t u j ((i, v) ∷ xs) h e = ground (arith, NoNewer-get t u j xs h.1, h.0)

  -- What stands among the first is no older than what stands behind.
  pub take-drop_order :
      (n t u : ℕ) (k j : K) (xs : List (K × ℕ))
      → IsSorted xs
      → get dec k (take n xs) ≡ some t
      → get dec j (drop n xs) ≡ some u
      → u ≤ t
  unfolding get
  take-drop_order zero t u k j xs s a b = cc
  take-drop_order (suc n) t u k j [] s a b = cc
  take-drop_order (suc n) t u k j ((i, v) ∷ xs) s a b = ground (
    arith,
    take-drop_order n t u k j xs s.1,
    NoNewer-get v u j (drop n xs) (NoNewer-drop n v xs s.0) b,
  )

  pub get-take :
      (n t : ℕ) (k : K) (xs : List (K × ℕ))
      → get dec k (drop n xs) ≡ none
      → get dec k xs ≡ some t
      → get dec k (take n xs) ≡ some t
  unfolding get
  get-take zero t k xs a b = cc
  get-take (suc n) t k [] a b = b
  get-take (suc n) t k ((i, v) ∷ xs) a b = ground (arith, get-take n t k xs)

  pub get-drop-none :
      (n : ℕ) (k : K) (xs : List (K × ℕ)) → get dec k xs ≡ none → get dec k (drop n xs) ≡ none
  unfolding get
  get-drop-none zero k xs h = h
  get-drop-none (suc n) k [] h = h
  get-drop-none (suc n) k ((i, v) ∷ xs) h = ground (arith, get-drop-none n k xs)

  pub get-drop :
      (n u : ℕ) (j : K) (xs : List (K × ℕ))
      → Distinct dec xs
      → get dec j (drop n xs) ≡ some u
      → get dec j xs ≡ some u
  unfolding get
  get-drop zero u j xs d h = h
  get-drop (suc n) u j [] d h = h
  get-drop (suc n) u j ((i, v) ∷ xs) d h =
      ground (arith, get-drop n u j xs d.1, get-drop-none n i xs d.0)

  pub Distinct-drop : (n : ℕ) (xs : List (K × ℕ)) → Distinct dec xs → Distinct dec (drop n xs)
  Distinct-drop zero xs d = d
  Distinct-drop (suc n) [] d = tt
  Distinct-drop (suc n) ((i, v) ∷ xs) d = Distinct-drop n xs d.1
