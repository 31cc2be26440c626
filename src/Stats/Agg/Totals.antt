-- ===== src/Stats/Agg/Totals.antt =====
-- What the rows add up to.
use pao_pao_gate_way.Common.{
  ℕ, ◌+◌, ◌<◌, ◌≤◌, ◌≡◌, true, refl, ◌&&◌, List, [], ◌∷◌, Option, none, some, arith, ◌==◌,
  if◌then◌else◌, unwrap_or, Option-cases, Bool-cases, inl, inr,
}
use pao_pao_gate_way.Common.Maps.{get, insert}
use pao_pao_gate_way.Common.Bytes.{Bytes}
use pao_pao_gate_way.Common.Net.{IpAddr}
use pao_pao_gate_way.Stats.Records.{u64_mod, ConnRecord}
use pao_pao_gate_way.Stats.Agg.{
  AggKey, AggKey-discrete, AggRow, AggTable, new_row, add_to_row, key_of, fold,
}

-- The sum of a column.
unfoldable pub column : (AggRow → ℕ) → List (AggKey × AggRow) → ℕ
column f [] = 0
column f ((k, r) ∷ rows) = f r + column f rows

-- What a row has so far, if the key has a row.
abbrev before : (AggRow → ℕ) → Option AggRow → ℕ
before f none = 0
before f (some r) = f r

column-insert :
    (f : AggRow → ℕ) (k : AggKey) (r : AggRow) (rows : List (AggKey × AggRow))
    → column f (insert AggKey-discrete k r rows) + before f (get AggKey-discrete k rows)
      ≡ column f rows + f r
unfolding column insert get
column-insert f k r [] = omega arith
column-insert f k r ((j, q) ∷ rows) = ground (arith, column-insert f k r rows)

row-le :
    (f : AggRow → ℕ) (k : AggKey) {r : AggRow} (rows : List (AggKey × AggRow))
    → get AggKey-discrete k rows ≡ some r
    → f r ≤ column f rows
unfolding column get
row-le f k [] h = absurd (ground arith)
row-le f k {r} ((j, q) ∷ rows) h = ground (arith, row-le f k {r = r} rows)

column-folded :
    (f : AggRow → ℕ) (n : ℕ) (k : AggKey) (now : ℕ) (g : AggRow → AggRow)
    (rows : List (AggKey × AggRow))
    → f (new_row now) ≡ 0
    → column f rows + n < u64_mod
    → ((r : AggRow) → f r + n < u64_mod → f (g r) ≡ f r + n)
    → column f
        (insert AggKey-discrete k (g (unwrap_or (get AggKey-discrete k rows) (new_row now))) rows)
      ≡ column f rows + n
column-folded f n k now g rows z b h = elim (Option-cases (get AggKey-discrete k rows)) [
  | inl e ↦
      let p = h (new_row now) (omega (arith, z, b)) in
      ground (arith, e, z, p, column-insert f k (g (new_row now)) rows)
  | inr (r, e) ↦
      let p = h r (omega (arith, b, row-le f k {r = r} rows e)) in
      ground (arith, e, p, column-insert f k (g r) rows)
]

-- One connection, if the record brings bytes and has not counted yet.
pub newly : ConnRecord → ℕ → ℕ → ℕ
newly rec fu fd = if fu == 0 && fd == 0 then 0 else if rec.agg_counted then 0 else 1

-- Whatever row a record belongs to, and whether there is one yet: as long as the sums of the rows
-- fit 64 bits, `fold` adds to them exactly the bytes that it is given, and one connection if these
-- are not both zero and the record has not counted yet. After bytes that are not both zero the
-- record is one that has counted, and otherwise it is as before.
pub fold_totals :
    (to_string : IpAddr → Bytes) (t : AggTable) (rec : ConnRecord) (now fu fd : ℕ)
    → column (λ r. r.up) t.rows + fu < u64_mod
    → column (λ r. r.down) t.rows + fd < u64_mod
    → column (λ r. r.conns) t.rows + 1 < u64_mod
    → (column (λ r. r.up) (fold to_string t rec now fu fd).0.rows ≡ column (λ r. r.up) t.rows + fu)
      × (column (λ r. r.down) (fold to_string t rec now fu fd).0.rows
          ≡ column (λ r. r.down) t.rows + fd)
      × (column (λ r. r.conns) (fold to_string t rec now fu fd).0.rows
          ≡ column (λ r. r.conns) t.rows + newly rec fu fd)
      × ((fold to_string t rec now fu fd).1
          ≡ (if fu == 0 && fd == 0 then rec else record rec { agg_counted = true }))
unfolding fold add_to_row new_row newly
fold_totals to_string t rec now fu fd a b c = elim (Bool-cases (fu == 0 && fd == 0)) [
  | inl e ↦ (ground arith, ground arith, rw (fold, e) (omega arith), rw (fold, e) refl)
  | inr e ↦
      let k = key_of to_string rec in
      let n : ℕ = if rec.agg_counted then 0 else 1 in
      (
        rw (fold, e)
            (column-folded (λ r. r.up) fu k now (λ r. add_to_row r rec now fu fd) t.rows refl a
              (λ r l. ground arith)),
        rw (fold, e)
            (column-folded (λ r. r.down) fd k now (λ r. add_to_row r rec now fu fd) t.rows refl b
              (λ r l. ground arith)),
        rw (fold, e)
            (column-folded (λ r. r.conns) (if rec.agg_counted then 0 else 1) k now
              (λ r. add_to_row r rec now fu fd) t.rows refl (ground arith) (λ r l. ground arith)),
        rw (fold, e) refl,
      )
]
