-- ===== src/Rules/Hints.antt =====
-- The table of hints.
use pao_pao_gate_way.Common.{
  ℕ, ◌+◌, ◌≡◌, refl, sym, ◌∙◌, List, [], ◌∷◌, Option, none, some, arith, leb, ◌==◌, length, get_or,
  ◌/◌, ◌-◌, min, max, Option-cases, Bool-cases, inl, inr,
}
use pao_pao_gate_way.Common.Bytes.{Bytes}
use pao_pao_gate_way.Common.Net.{IpAddr, IpAddr-discrete}
use pao_pao_gate_way.Common.Maps.{
  get, insert, Distinct, Distinct-insert, Distinct-retain, get-retain-none, length-insert_new,
  length-insert_old,
}
use pao_pao_gate_way.Rules.{Hint, IpHints, with_cap, lookup, note, evict_oldest, sorted, seqs}

-- No address has two hints, and the counter counts them.
pub record IsValid (t : IpHints) : Type 0 where
  pub distinct : Distinct IpAddr-discrete t.map
  pub counted : t.count ≡ length t.map

with_cap-IsValid : (cap : ℕ) → IsValid (with_cap cap)
unfolding with_cap
with_cap-IsValid cap = record { distinct = tt; counted = refl }

-- From which mark on the hints stay.
abbrev threshold : IpHints → ℕ
threshold t =
    let all = sorted (seqs t.map) in get_or all (min (max (length all / 4) 1) (length all - 1)) 0

evict_oldest-IsValid : (t : IpHints) → IsValid t → IsValid (evict_oldest t)
unfolding evict_oldest
evict_oldest-IsValid t v = elim (Bool-cases (length (sorted (seqs t.map)) == 0)) [
  | inl b ↦ rw (evict_oldest, b) v
  | inr b ↦
      rw (evict_oldest, b)
        (record {
          distinct =
              Distinct-retain IpAddr-discrete (λ ip h. leb (threshold t) h.seq) t.map v.distinct;
          counted = refl;
        })
]

evict_oldest-absent :
    (t : IpHints) (ip : IpAddr)
    → get IpAddr-discrete ip t.map ≡ none
    → get IpAddr-discrete ip (evict_oldest t).map ≡ none
unfolding evict_oldest
evict_oldest-absent t ip h = elim (Bool-cases (length (sorted (seqs t.map)) == 0)) [
  | inl b ↦ rw (evict_oldest, b) h
  | inr b ↦
      rw (evict_oldest, b)
        (get-retain-none IpAddr-discrete (λ ip h. leb (threshold t) h.seq) ip t.map h)
]

-- A hint of an address that has one is written over.
mark :
    (t : IpHints) (ip : IpAddr) (e e' : Hint) (seq : ℕ)
    → IsValid t
    → get IpAddr-discrete ip t.map ≡ some e
    → IsValid (record t { map = insert IpAddr-discrete ip e' t.map; seq = seq })
mark t ip e e' seq v h = record {
  distinct = Distinct-insert IpAddr-discrete ip e' t.map v.distinct;
  counted = v.counted ∙ sym (length-insert_old IpAddr-discrete ip e' e t.map h);
}

-- A hint of an address that has none is added.
add :
    (t : IpHints) (ip : IpAddr) (e : Hint)
    → IsValid t
    → get IpAddr-discrete ip t.map ≡ none
    → IsValid (record t { map = insert IpAddr-discrete ip e t.map; count = t.count + 1 })
add t ip e v h = record {
  distinct = Distinct-insert IpAddr-discrete ip e t.map v.distinct;
  counted = omega (arith, v.counted, length-insert_new IpAddr-discrete ip e t.map h);
}

counted_on : (t : IpHints) (seq : ℕ) → IsValid t → IsValid (record t { seq = seq })
counted_on t seq v = record { distinct = v.distinct; counted = v.counted }

note-IsValid : (t : IpHints) (ip : IpAddr) (label : Bytes) → IsValid t → IsValid (note t ip label)
unfolding note
note-IsValid t ip label v = elim (Option-cases (get IpAddr-discrete ip t.map)) [
  | inr (e, h) ↦ rw (note, h) (mark t ip e (record e { seq = t.seq }) (t.seq + 1) v h)
  | inl h ↦ elim (Bool-cases (leb t.cap (length t.map))) [
    | inl b ↦
        let u = record t { seq = t.seq + 1 } in
        let gone = evict_oldest-absent u ip h in
        rw (note, h, b, gone)
          (add (evict_oldest u) ip (record { label = label; seq = t.seq })
            (evict_oldest-IsValid u (counted_on t (t.seq + 1) v)) gone)
    | inr b ↦
        rw (note, h, b, h)
          (add (record t { seq = t.seq + 1 }) ip (record { label = label; seq = t.seq })
            (counted_on t (t.seq + 1) v) h)
  ]
]

lookup-IsValid : (t : IpHints) (ip : IpAddr) → IsValid t → IsValid (lookup t ip).1
unfolding lookup
lookup-IsValid t ip v = elim (Bool-cases (t.count == 0)) [
  | inl z ↦ rw (lookup, z) v
  | inr z ↦ elim (Option-cases (get IpAddr-discrete ip t.map)) [
    | inl h ↦ rw (lookup, z, h) v
    | inr (e, h) ↦ rw (lookup, z, h) (mark t ip e (record e { seq = t.seq }) (t.seq + 1) v h)
  ]
]

-- `some` label is noted for an address, or an address is looked up.
unfoldable pub run : IpHints → List (IpAddr × Option Bytes) → IpHints
run t [] = t
run t ((ip, some label) ∷ calls) = run (note t ip label) calls
run t ((ip, none) ∷ calls) = run (lookup t ip).1 calls

run-IsValid :
    (t : IpHints) (calls : List (IpAddr × Option Bytes)) → IsValid t → IsValid (run t calls)
unfolding run
run-IsValid t [] v = v
run-IsValid t ((ip, some label) ∷ calls) v =
    run-IsValid (note t ip label) calls (note-IsValid t ip label v)
run-IsValid t ((ip, none) ∷ calls) v = run-IsValid (lookup t ip).1 calls (lookup-IsValid t ip v)

-- Whatever is noted and looked up in a new table, one call after another, no address has two hints, and the counter that
-- lookups trust to skip an empty table is the number of hints, through evictions as well.
pub run-with_cap-IsValid :
    (cap : ℕ) (calls : List (IpAddr × Option Bytes)) → IsValid (run (with_cap cap) calls)
run-with_cap-IsValid cap calls = run-IsValid (with_cap cap) calls (with_cap-IsValid cap)
