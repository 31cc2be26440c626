-- ===== src/FakeIp/Shard/Entries.antt =====
-- The entries of a shard by one of their keys, and what the two tables say of them.
use pao_pao_gate_way.Common.{
  ℕ, zero, suc, ◌+◌, ◌<◌, ◌≤◌, ◌≡◌, ◌≢◌, refl, ap, List, [], ◌∷◌, ◌++◌, Option, none, some, arith,
  length, ℕ_discrete, ite, is_some, true, Option-cases, inl, inr,
}
use pao_pao_gate_way.Common.Maps.{get, remove, get-remove, length-remove, Distinct, Distinct-remove}
use pao_pao_gate_way.FakeIp.Shard.Links.{Entry, final}

module _ {ℓ} {K : Type ℓ} (dec : Discrete K) (key : Entry → K) where
  -- The slot of the entry with the key.
  abbrev pub slot_of : K → List Entry → Option ℕ
  slot_of k [] = none
  slot_of k (e ∷ es) = ite (dec (key e) k) (some e.slot) (slot_of k es)

  -- No key stands twice.
  abbrev pub Unique : List Entry → Type ℓ
  Unique [] = Unit
  Unique (e ∷ es) = (slot_of (key e) es ≡ none) × Unique es

  pub slot_of-append-none :
      (k : K) (xs ys : List Entry)
      → slot_of k (xs ++ ys) ≡ none
      → (slot_of k xs ≡ none) × (slot_of k ys ≡ none)
  slot_of-append-none k [] ys h = (refl, h)
  slot_of-append-none k (x ∷ xs) ys h = ground (arith, slot_of-append-none k xs ys)

  pub slot_of-none-append :
      (k : K) (xs ys : List Entry)
      → slot_of k xs ≡ none
      → slot_of k ys ≡ none
      → slot_of k (xs ++ ys) ≡ none
  slot_of-none-append k [] ys h p = p
  slot_of-none-append k (x ∷ xs) ys h p = ground (arith, slot_of-none-append k xs ys)

  pub key-ne :
      (k : K) (xs : List Entry) (e : Entry) (ys : List Entry)
      → slot_of k (xs ++ e ∷ ys) ≡ none
      → key e ≢ k
  key-ne k [] e ys h = ground arith
  key-ne k (x ∷ xs) e ys h = key-ne k xs e ys (ground arith)

  pub Unique-middle :
      (xs : List Entry) (e : Entry) (ys : List Entry)
      → Unique (xs ++ e ∷ ys)
      → Unique (xs ++ ys) × (slot_of (key e) (xs ++ ys) ≡ none)
  Unique-middle [] e ys u = (u.1, u.0)
  Unique-middle (x ∷ xs) e ys u =
      let (v, n) = Unique-middle xs e ys u.1 in
      let (a, b) = slot_of-append-none (key x) xs (e ∷ ys) u.0 in
      ((slot_of-none-append (key x) xs ys a (ground arith), v), ground arith)

  -- Where an entry stands plays no part.
  pub slot_of-middle :
      (k : K) (xs : List Entry) (e : Entry) (ys : List Entry)
      → Unique (xs ++ e ∷ ys)
      → slot_of k (xs ++ e ∷ ys) ≡ slot_of k (e ∷ (xs ++ ys))
  slot_of-middle k [] e ys u = refl
  slot_of-middle k (x ∷ xs) e ys u =
      let (a, b) = slot_of-append-none (key x) xs (e ∷ ys) u.0 in
      ground (arith, slot_of-middle k xs e ys u.1)

  -- The entry with a key, and what stands before and behind it.
  pub slot_of-some :
      (k : K) (es : List Entry) {i : ℕ}
      → slot_of k es ≡ some i
      → (xs : List Entry) × (e : Entry) × (ys : List Entry) × (es ≡ xs ++ e ∷ ys)
        × (key e ≡ k)
        × (e.slot ≡ i)
  slot_of-some k [] h = cc
  slot_of-some k (e ∷ es) h = elim (dec (key e) k) [
    | yes p ↦ ([], e, es, refl, p, ground arith)
    | no p ↦
        let (xs, f, ys, q, r, t) = slot_of-some k es (ground arith) in
        (e ∷ xs, f, ys, ap (λ l. e ∷ l) q, r, t)
  ]

-- The last entry.
pub last_entry :
    (e : Entry) (es : List Entry)
    → (xs : List Entry) × (f : Entry) × (e ∷ es ≡ xs ++ f ∷ []) × (f.slot ≡ final e.slot es)
last_entry e [] = ([], e, refl, refl)
last_entry e (x ∷ es) = let (xs, f, q, r) = last_entry x es in (e ∷ xs, f, ap (λ l. e ∷ l) q, r)

-- A table that holds each of `n` numbers in a row has at least `n` entries.
pub length-ge_of_full :
    {V : Type 0} (lo n : ℕ) (m : List (ℕ × V))
    → Distinct ℕ_discrete m
    → ((j : ℕ) → j < n → is_some (get ℕ_discrete (lo + j) m) ≡ true)
    → n ≤ length m
length-ge_of_full lo zero m d h = omega arith
length-ge_of_full lo (suc n) m d h = elim (Option-cases (get ℕ_discrete (lo + n) m)) [
  | inl e ↦ absurd (ground (arith, h n (omega arith), e))
  | inr (w, e) ↦
      let ih =
        length-ge_of_full lo n (remove ℕ_discrete (lo + n) m)
          (Distinct-remove ℕ_discrete (lo + n) m d)
          (λ j b. ground (arith, get-remove ℕ_discrete (lo + n) (lo + j) m, h j (omega arith))) in
      omega (arith, ih, length-remove ℕ_discrete (lo + n) w m d e)
]
