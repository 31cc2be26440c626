-- ===== src/Sniff/Peek/Pool.antt =====
-- The pool of buffers of peek.rs.
use pao_pao_gate_way.Common.{
  ℕ, ◌≤◌, ◌≡◌, refl, ap, subst, List, [], ◌∷◌, Option, none, some, All, arith, ltb, leb, length,
  List-cases, Bool-cases, inl, inr,
}
use pao_pao_gate_way.Sniff.Peek.{Buffer, PeekBufPool, new_pool, give_back, take_buf}

-- A buffer in the pool is empty and large enough, and the pool holds at most its slots.
pub record IsPool (pool : PeekBufPool) : Type 0 where
  pub bounded : length pool.inner ≤ pool.cap_slots
  pub ready : All (λ b. (b.bytes ≡ []) × (pool.buf_size ≤ b.capacity)) pool.inner

-- A buffer is taken, or `some` buffer comes back.
unfoldable pub step : (ℕ → ℕ → ℕ) → PeekBufPool → Option Buffer → PeekBufPool
step grow pool none = (take_buf grow pool).1
step grow pool (some b) = give_back pool b

unfoldable pub run : (ℕ → ℕ → ℕ) → PeekBufPool → List (Option Buffer) → PeekBufPool
unfolding step
run grow pool [] = pool
run grow pool (s ∷ ss) = run grow (step grow pool s) ss

give_back-IsPool : (pool : PeekBufPool) (b : Buffer) → IsPool pool → IsPool (give_back pool b)
unfolding give_back
give_back-IsPool pool b v = elim (Bool-cases (ltb b.capacity pool.buf_size)) [
  | inl s ↦ rw (give_back, s) v
  | inr s ↦ elim (Bool-cases (leb pool.cap_slots (length pool.inner))) [
    | inl f ↦ rw (give_back, s, f) v
    | inr f ↦
        rw (give_back, s, f)
          (record { bounded = ground arith; ready = ((refl, ground arith), v.ready) })
  ]
]

in_pool :
    (pool : PeekBufPool)
    → IsPool pool
    → (b : Buffer) (bs : List Buffer) → pool.inner ≡ b ∷ bs
    → ((b.bytes ≡ []) × (pool.buf_size ≤ b.capacity))
      × All (λ x. (x.bytes ≡ []) × (pool.buf_size ≤ x.capacity)) bs
in_pool pool v b bs e = subst (All (λ x. (x.bytes ≡ []) × (pool.buf_size ≤ x.capacity))) e v.ready

take_buf-IsPool :
    (grow : ℕ → ℕ → ℕ) (pool : PeekBufPool) → IsPool pool → IsPool (take_buf grow pool).1
unfolding take_buf
take_buf-IsPool grow pool v = elim (List-cases pool.inner) [
  | inl e ↦ rw (take_buf, e) v
  | inr (b, bs, e) ↦
      rw (take_buf, e)
        (record {
          bounded = omega (arith, v.bounded, ap length e);
          ready = (in_pool pool v b bs e).1;
        })
]

run-IsPool :
    (grow : ℕ → ℕ → ℕ) (pool : PeekBufPool) (ss : List (Option Buffer))
    → IsPool pool
    → IsPool (run grow pool ss)
unfolding run
run-IsPool grow pool [] v = v
run-IsPool grow pool (none ∷ ss) v =
    run-IsPool grow (take_buf grow pool).1 ss (take_buf-IsPool grow pool v)
run-IsPool grow pool (some b ∷ ss) v =
    run-IsPool grow (give_back pool b) ss (give_back-IsPool pool b v)

taken_ready :
    (grow : ℕ → ℕ → ℕ) (pool : PeekBufPool)
    → ((n : ℕ) → n ≤ grow 0 n)
    → IsPool pool
    → ((take_buf grow pool).0.buf.bytes ≡ [])
      × (pool.buf_size ≤ (take_buf grow pool).0.buf.capacity)
unfolding take_buf
taken_ready grow pool g v = elim (List-cases pool.inner) [
  | inl e ↦ rw (take_buf, e) (refl, g pool.buf_size)
  | inr (b, bs, e) ↦ rw (take_buf, e) (in_pool pool v b bs e).0
]

-- Whatever is taken from a new pool and given back to it, it never keeps more buffers than its
-- slots, and the next buffer that it hands out is empty and as large as a buffer of the pool:
-- where an allocation has at least the capacity asked for.
pub run-new_pool :
    (grow : ℕ → ℕ → ℕ) (slots size : ℕ) (ss : List (Option Buffer))
    → ((n : ℕ) → n ≤ grow 0 n)
    → (length (run grow (new_pool slots size) ss).inner
        ≤ (run grow (new_pool slots size) ss).cap_slots)
      × ((take_buf grow (run grow (new_pool slots size) ss)).0.buf.bytes ≡ [])
      × ((run grow (new_pool slots size) ss).buf_size
          ≤ (take_buf grow (run grow (new_pool slots size) ss)).0.buf.capacity)
unfolding new_pool
run-new_pool grow slots size ss g =
    let v =
      run-IsPool grow (new_pool slots size) ss (record { bounded = omega arith; ready = tt }) in
    let t = taken_ready grow (run grow (new_pool slots size) ss) g v in (v.bounded, t.0, t.1)
