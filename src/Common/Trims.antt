-- ===== src/Common/Trims.antt =====
-- A table that gives up all but the newest of its entries with a time.
use Prim.Native.Nat.{ℕ, ◌+◌, ◌-◌, ◌≤◌}
use mathlib.Core.Path.{◌≡◌, refl, ap, sym, ◌∙◌}
use mathlib.Core.Logic.{inl, inr}
use mathlib.Core.Bool.{true}
use mathlib.Core.List.{List, [], ◌∷◌}
use mathlib.Core.Option.{Option, none, some}
use native.Mathlib.Omega.{arith}
use pao_pao_gate_way.Common.Tests.{ltb, if◌then◌else◌, is_some, Bool-cases, Option-cases}
use pao_pao_gate_way.Common.Lists.{length, All}
use pao_pao_gate_way.Common.Maps.{
  get, remove, Distinct, Distinct-remove, get-remove, get-remove_ne, length-remove,
}
use pao_pao_gate_way.Common.Recency.{
  newest_first, newest_first-IsSorted, newest_first_lem, excess, length-excess, take-drop_order,
  get-take, get-drop, Distinct-drop,
}

module _ {K V : Type 0} where
  -- The entries that have a time, with it.
  unfoldable pub stamps : (V → Option ℕ) → List (K × V) → List (K × ℕ)
  stamps f [] = []
  stamps f ((k, v) ∷ m) = elim (f v) [ none ↦ stamps f m | some t ↦ (k, t) ∷ stamps f m ]

module _ {K V : Type 0} (dec : Discrete K) where
  unfoldable pub remove_all : List (K × ℕ) → List (K × V) → List (K × V)
  remove_all [] m = m
  remove_all ((k, t) ∷ xs) m = remove_all xs (remove dec k m)

  pub get-remove_all :
      (k : K) (xs : List (K × ℕ)) (m : List (K × V))
      → get dec k (remove_all xs m) ≡ (if is_some (get dec k xs) then none else get dec k m)
  unfolding remove_all get
  get-remove_all k [] m = refl
  get-remove_all k ((j, t) ∷ xs) m =
      ground (arith, get-remove_all k xs (remove dec j m), get-remove dec j k m)

  pub Distinct-remove_all :
      (xs : List (K × ℕ)) (m : List (K × V)) → Distinct dec m → Distinct dec (remove_all xs m)
  unfolding remove_all
  Distinct-remove_all [] m d = d
  Distinct-remove_all ((j, t) ∷ xs) m d =
      Distinct-remove_all xs (remove dec j m) (Distinct-remove dec j m d)

  -- A time that an entry has, if the key has an entry.
  abbrev pub stamp : (V → Option ℕ) → Option V → Option ℕ
  stamp f none = none
  stamp f (some v) = f v

  get-stamps-none :
      (f : V → Option ℕ) (k : K) (m : List (K × V))
      → get dec k m ≡ none
      → get dec k (stamps f m) ≡ none
  unfolding get stamps
  get-stamps-none f k [] h = refl
  get-stamps-none f k ((j, v) ∷ m) h = ground (arith, get-stamps-none f k m)

  pub get-stamps :
      (f : V → Option ℕ) (k : K) (m : List (K × V))
      → Distinct dec m
      → get dec k (stamps f m) ≡ stamp f (get dec k m)
  unfolding get stamps
  get-stamps f k [] d = refl
  get-stamps f k ((j, v) ∷ m) d = ground (arith, get-stamps f k m d.1, get-stamps-none f j m d.0)

  pub Distinct-stamps :
      (f : V → Option ℕ) (m : List (K × V)) → Distinct dec m → Distinct dec (stamps f m)
  unfolding stamps
  Distinct-stamps f [] d = tt
  Distinct-stamps f ((j, v) ∷ m) d =
      ground (arith, Distinct-stamps f m d.1, get-stamps-none f j m d.0)

  -- Each entry of a list has its time in the table.
  abbrev pub Stamped : (V → Option ℕ) → List (K × ℕ) → List (K × V) → Type 0
  Stamped f xs m = All (λ e. stamp f (get dec e.0 m) ≡ some e.1) xs

  Stamped-remove :
      (f : V → Option ℕ) (k : K) (xs : List (K × ℕ)) (m : List (K × V))
      → get dec k xs ≡ none
      → Stamped f xs m
      → Stamped f xs (remove dec k m)
  unfolding get
  Stamped-remove f k [] m h p = tt
  Stamped-remove f k ((j, t) ∷ xs) m h p =
      ground (arith, get-remove_ne dec k j m, p.0, Stamped-remove f k xs m)

  stamped-get :
      (f : V → Option ℕ) (k : K) (t : ℕ) (m : List (K × V))
      → stamp f (get dec k m) ≡ some t
      → (v : V) × (get dec k m ≡ some v) × (f v ≡ some t)
  stamped-get f k t m h = elim (Option-cases (get dec k m)) [
    | inl e ↦ absurd (ground (arith, h, e))
    | inr (v, e) ↦ (v, e, sym (ap (stamp f) e) ∙ h)
  ]

  pub length-remove_all :
      (f : V → Option ℕ) (xs : List (K × ℕ)) (m : List (K × V))
      → Distinct dec xs
      → Distinct dec m
      → Stamped f xs m
      → length (remove_all xs m) + length xs ≡ length m
  unfolding remove_all
  length-remove_all f [] m d e p = omega arith
  length-remove_all f ((k, t) ∷ xs) m d e p =
      let (v, there, _) = stamped-get f k t m p.0 in
      omega (
        arith,
        length-remove_all f xs (remove dec k m) d.1 (Distinct-remove dec k m e)
            (Stamped-remove f k xs m d.0 p.1),
        length-remove dec k v m e there,
      )

  stamps-remove_absent :
      (f : V → Option ℕ) (k : K) (m : List (K × V))
      → get dec k m ≡ none
      → stamps f (remove dec k m) ≡ stamps f m
  unfolding get remove stamps
  stamps-remove_absent f k [] h = refl
  stamps-remove_absent f k ((j, v) ∷ m) h = ground (arith, stamps-remove_absent f k m)

  length-stamps-remove :
      (f : V → Option ℕ) (k : K) (v : V) (t : ℕ) (m : List (K × V))
      → Distinct dec m
      → get dec k m ≡ some v
      → f v ≡ some t
      → length (stamps f (remove dec k m)) + 1 ≡ length (stamps f m)
  unfolding get remove stamps
  length-stamps-remove f k v t [] d h q = cc
  length-stamps-remove f k v t ((j, w) ∷ m) d h q =
      ground (arith, length-stamps-remove f k v t m d.1, ap length (stamps-remove_absent f j m d.0))

  stamps-remove-le :
      (f : V → Option ℕ) (k : K) (m : List (K × V))
      → length (stamps f (remove dec k m)) ≤ length (stamps f m)
  unfolding remove stamps
  stamps-remove-le f k [] = omega arith
  stamps-remove-le f k ((j, v) ∷ m) = ground (arith, stamps-remove-le f k m)

  pub stamps-remove_all-le :
      (f : V → Option ℕ) (xs : List (K × ℕ)) (m : List (K × V))
      → length (stamps f (remove_all xs m)) ≤ length (stamps f m)
  unfolding remove_all
  stamps-remove_all-le f [] m = omega arith
  stamps-remove_all-le f ((k, t) ∷ xs) m =
      omega (arith, stamps-remove_all-le f xs (remove dec k m), stamps-remove-le f k m)

  length-stamps-remove_all :
      (f : V → Option ℕ) (xs : List (K × ℕ)) (m : List (K × V))
      → Distinct dec xs
      → Distinct dec m
      → Stamped f xs m
      → length (stamps f (remove_all xs m)) + length xs ≡ length (stamps f m)
  unfolding remove_all
  length-stamps-remove_all f [] m d e p = omega arith
  length-stamps-remove_all f ((k, t) ∷ xs) m d e p =
      let (v, there, ft) = stamped-get f k t m p.0 in
      omega (
        arith,
        length-stamps-remove_all f xs (remove dec k m) d.1 (Distinct-remove dec k m e)
            (Stamped-remove f k xs m d.0 p.1),
        length-stamps-remove f k v t m e there ft,
      )

  pub all-Stamped :
      (f : V → Option ℕ) (m : List (K × V)) (xs : List (K × ℕ))
      → Distinct dec xs
      → ((k : K) (t : ℕ) → get dec k xs ≡ some t → stamp f (get dec k m) ≡ some t)
      → Stamped f xs m
  unfolding get
  all-Stamped f m [] d h = tt
  all-Stamped f m ((k, t) ∷ xs) d h =
      (h k t (ground arith), all-Stamped f m xs d.1 (λ j u e. h j u (ground (arith, e, d.0))))

  -- The table without its excess.
  unfoldable pub trim : (V → Option ℕ) → ℕ → List (K × V) → List (K × V)
  trim f limit m = remove_all (excess limit (stamps f m)) m

  module _ (f : V → Option ℕ) (limit : ℕ) (m : List (K × V)) (d : Distinct dec m) where
    sorted-Distinct : Distinct dec (excess limit (stamps f m))
    unfolding excess
    sorted-Distinct = elim (Bool-cases (ltb limit (length (stamps f m)))) [
      | inl b ↦
          rw (excess, b)
            (Distinct-drop dec limit (newest_first (stamps f m))
              (newest_first_lem dec (stamps f m) (Distinct-stamps f m d)).1)
      | inr b ↦ rw (excess, b) tt
    ]

    excess-get :
        (k : K) {t : ℕ}
        → get dec k (excess limit (stamps f m)) ≡ some t
        → get dec k (stamps f m) ≡ some t
    unfolding excess get
    excess-get k {t} h = elim (Bool-cases (ltb limit (length (stamps f m)))) [
      | inl b ↦
          let (same, distinct) = newest_first_lem dec (stamps f m) (Distinct-stamps f m d) in
          sym (same k)
          ∙ get-drop dec limit t k (newest_first (stamps f m)) distinct (rw (excess, b) at h)
      | inr b ↦ ground (arith, h, b)
    ]

    -- What has no time stays.
    pub get-trim_untimed :
        (k : K) (v : V) → get dec k m ≡ some v → f v ≡ none → get dec k (trim f limit m) ≡ some v
    unfolding trim
    get-trim_untimed k v h n = elim (Option-cases (get dec k (excess limit (stamps f m)))) [
      | inl e ↦ ground (arith, get-remove_all k (excess limit (stamps f m)) m, e, h)
      | inr (t, e) ↦ ground (arith, excess-get k e, get-stamps f k m d, h, n)
    ]

    kept_parts :
        (k : K) (v : V)
        → get dec k (trim f limit m) ≡ some v
        → (get dec k (excess limit (stamps f m)) ≡ none) × (get dec k m ≡ some v)
    unfolding trim
    kept_parts k v h = elim (Option-cases (get dec k (excess limit (stamps f m)))) [
      | inl e ↦ (e, ground (arith, get-remove_all k (excess limit (stamps f m)) m, e, h))
      | inr (t, e) ↦ absurd (ground (arith, get-remove_all k (excess limit (stamps f m)) m, e, h))
    ]

    gone_parts :
        (j : K) (w : V)
        → get dec j m ≡ some w
        → get dec j (trim f limit m) ≡ none
        → is_some (get dec j (excess limit (stamps f m))) ≡ true
    unfolding trim
    gone_parts j w h g = elim (Option-cases (get dec j (excess limit (stamps f m)))) [
      | inl e ↦ absurd (ground (arith, get-remove_all j (excess limit (stamps f m)) m, e, h, g))
      | inr (t, e) ↦ rw e
    ]

    in_order :
        (k j : K) (t u : ℕ)
        → get dec k (excess limit (stamps f m)) ≡ none
        → get dec k (stamps f m) ≡ some t
        → get dec j (excess limit (stamps f m)) ≡ some u
        → u ≤ t
    unfolding excess get
    in_order k j t u out at gone = elim (Bool-cases (ltb limit (length (stamps f m)))) [
      | inl b ↦
          let xs = newest_first (stamps f m) in
          let (same, distinct) = newest_first_lem dec (stamps f m) (Distinct-stamps f m d) in
          take-drop_order dec limit t u k j xs (newest_first-IsSorted (stamps f m))
            (get-take dec limit t k xs (rw (excess, b) at out) (same k ∙ at))
            (rw (excess, b) at gone)
      | inr b ↦ absurd (ground (arith, gone, b))
    ]

    -- What is given up is no newer than what stays.
    pub trim_order :
        (k j : K) (v w : V) (t u : ℕ)
        → get dec k (trim f limit m) ≡ some v
        → f v ≡ some t
        → get dec j m ≡ some w
        → f w ≡ some u
        → get dec j (trim f limit m) ≡ none
        → u ≤ t
    trim_order k j v w t u kept ft had fu gone =
        let (out, there) = kept_parts k v kept in
        elim (Option-cases (get dec j (excess limit (stamps f m)))) [
          | inl e ↦ ground (arith, gone_parts j w had gone, e)
          | inr (u', e) ↦
              let same = sym (excess-get j e) ∙ get-stamps f j m d ∙ ap (stamp f) had ∙ fu in
              in_order k j t u out (get-stamps f k m d ∙ ap (stamp f) there ∙ ft)
                (ground (arith, e, same))
        ]

    Stamped-excess : Stamped f (excess limit (stamps f m)) m
    Stamped-excess =
        all-Stamped f m (excess limit (stamps f m)) sorted-Distinct
          (λ k t h. sym (get-stamps f k m d) ∙ excess-get k h)

    -- How many entries go, and how many with a time stay.
    pub length-trim : length (trim f limit m) + (length (stamps f m) - limit) ≡ length m
    unfolding trim
    length-trim = omega (
      arith,
      length-remove_all f (excess limit (stamps f m)) m sorted-Distinct d Stamped-excess,
      length-excess limit (stamps f m),
    )

    pub length-stamps-trim : length (stamps f (trim f limit m)) ≤ limit
    unfolding trim
    length-stamps-trim = omega (
      arith,
      length-stamps-remove_all f (excess limit (stamps f m)) m sorted-Distinct d Stamped-excess,
      length-excess limit (stamps f m),
    )

    pub Distinct-trim : Distinct dec (trim f limit m)
    unfolding trim
    Distinct-trim = Distinct-remove_all (excess limit (stamps f m)) m d
