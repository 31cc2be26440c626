-- ===== src/Stats/Tests.antt =====
-- The statistics at concrete inputs.
use pao_pao_gate_way.Common.{
  true, ◌%◌, ℕ, ◌+◌, ◌≤◌, ◌≡◌, refl, false, ◌&&◌, List, [], ◌∷◌, none, some, arith, ◌==◌,
  if◌then◌else◌, length, ℕ_discrete,
}
use pao_pao_gate_way.Common.Bytes.{Bytes, be_bytes, from_be_at}
use pao_pao_gate_way.Common.Net.{IpAddr, v4}
use pao_pao_gate_way.Common.Maps.{get, insert, remove, Distinct}
use pao_pao_gate_way.Common.Recency.{excess, newest_first, put_by}
use pao_pao_gate_way.Common.Trims.{stamps, remove_all}
use pao_pao_gate_way.Stats.Records.{u64_mod, ConnRecord, new_record, set_head, head_hex, unknown}
use pao_pao_gate_way.Stats.Drains.{
  Shared, Reach, here, next, added, called, ran, entered, marked, total, advance,
}
use pao_pao_gate_way.Stats.Drains.Conservation.{drains_conserve}
use pao_pao_gate_way.Stats.Table.{
  ConnTable, with_seed, next_id, sweep_recency, closed_stamp, stale_stamp, is_stale,
}
use pao_pao_gate_way.Stats.Table.Sweeps.{sweep_recency_open, sweep_recency_newest}
use pao_pao_gate_way.Stats.Agg.{new, fold}
use pao_pao_gate_way.Stats.Agg.Totals.{column, newly, fold_totals}

program : Unit {0}
unfolding new_record sweep_recency closed_stamp stale_stamp stamps excess newest_first put_by
    remove_all get insert remove ℕ_discrete
program = tt

-- A connection to 8.8.8.8:53.
abbrev conn : ℕ → ConnRecord
conn id = new_record 0 id (v4 0x0a0a0a02, 40000) (v4 0x08080808, 53) unknown none

abbrev open_at : ℕ → ℕ → ConnRecord
open_at id seen = record (conn id) { last_seen_ms = seen }

abbrev closed_at : ℕ → ℕ → ConnRecord
closed_at id seen = record (conn id) { last_seen_ms = seen; closed_ms = seen }

-- Two open connections and three that are closed.
abbrev busy : ConnTable
busy = record {
  inner =
      (1, open_at 1 900)
      ∷ (2, closed_at 2 500)
      ∷ (3, open_at 3 100)
      ∷ (4, closed_at 4 700)
      ∷ (5, closed_at 5 600)
      ∷ [];
  started_epoch_ms = 0;
}

abbrev ids : List (ℕ × ConnRecord) → List ℕ
ids [] = []
ids ((id, r) ∷ m) = id ∷ ids m

busy-Distinct : Distinct ℕ_discrete busy.inner
unfolding program
busy-Distinct = (refl, (refl, (refl, (refl, (refl, tt)))))

swept_busy : ids (sweep_recency busy 1000 2 500).0.inner ≡ 1 ∷ 4 ∷ 5 ∷ []
unfolding program
swept_busy = refl

sweep_recency_open_example :
    (get ℕ_discrete 3 (sweep_recency busy 1000 2 500).0.inner
      ≡ (if is_stale 1000 500 (open_at 3 100) then none else some (open_at 3 100)))
    × (length (stamps closed_stamp (sweep_recency busy 1000 2 500).0.inner) ≤ 2)
    × (length (sweep_recency busy 1000 2 500).0.inner + (sweep_recency busy 1000 2 500).1
        ≡ length busy.inner)
unfolding program
sweep_recency_open_example =
    sweep_recency_open busy 1000 2 500 busy-Distinct 3 (open_at 3 100) refl refl

sweep_recency_newest_example : (closed_at 2 500).last_seen_ms ≤ (closed_at 4 700).last_seen_ms
unfolding program
sweep_recency_newest_example =
    sweep_recency_newest busy 1000 2 500 busy-Distinct 4 2 (closed_at 4 700) (closed_at 2 500) refl
      refl refl refl refl

first_id : (next_id (with_seed 0xabcdef)).1 ≡ 0xabcdef0000000001
unfolding with_seed next_id
first_id = refl

-- "GET", as bytes and in hexadecimal
head_of_get :
    head_hex (set_head (conn 1) (b'G' ∷ b'E' ∷ b'T' ∷ []))
    ≡ some (b'4' ∷ b'7' ∷ b'4' ∷ b'5' ∷ b'5' ∷ b'4' ∷ [])
unfolding set_head head_hex new_record be_bytes from_be_at
head_of_get = refl

-- 100 bytes, and a call that reads the mark.
abbrev marking : Shared
marking = record { cur = 100; last = 0; calls = marked 0 ∷ []; sum = 0 + 100 }

marking-Reach : Reach (record { cur = 0; last = 0; calls = []; sum = 0 }) marking
unfolding advance
marking-Reach = next (next (next here (added 100)) called) (
    ran {s = record { cur = 100; last = 0; calls = entered ∷ []; sum = 0 + 100 }} false 0 entered
      refl)

drains_conserve_example :
    (0 + total marking.calls ≡ marking.last)
    × (marking.last ≤ 0 + marking.sum)
    × (marking.cur ≡ (0 + marking.sum) % u64_mod)
drains_conserve_example = drains_conserve 0 0 (omega arith) (omega arith) marking-Reach

abbrev no_text : IpAddr → Bytes
no_text ip = []

fold_totals_example :
    (column (λ r. r.up) (fold no_text (new 1000) (conn 1) 5 10 20).0.rows
      ≡ column (λ r. r.up) (new 1000).rows + 10)
    × (column (λ r. r.down) (fold no_text (new 1000) (conn 1) 5 10 20).0.rows
        ≡ column (λ r. r.down) (new 1000).rows + 20)
    × (column (λ r. r.conns) (fold no_text (new 1000) (conn 1) 5 10 20).0.rows
        ≡ column (λ r. r.conns) (new 1000).rows + newly (conn 1) 10 20)
    × ((fold no_text (new 1000) (conn 1) 5 10 20).1
        ≡ (if 10 == 0 && 20 == 0 then conn 1 else record (conn 1) { agg_counted = true }))
unfolding new column
fold_totals_example =
    fold_totals no_text (new 1000) (conn 1) 5 10 20 (omega arith) (omega arith) (omega arith)
