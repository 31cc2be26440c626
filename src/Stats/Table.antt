-- ===== src/Stats/Table.antt =====
-- sniffbox/crates/sb-stats/src/conn_table.rs: the numbers of connections and the table of their
-- records. The reading of the table's clock, in milliseconds, is an argument.
pub mod Sweeps
use Prim.Native.Nat.{bit_or}
use pao_pao_gate_way.Common.{
  ℕ, zero, suc, ◌+◌, ◌-◌, ◌*◌, ◌%◌, ◌^◌, max, Bool, true, false, not, List, [], ◌∷◌, Option, none,
  some, leb, ltb, ◌==◌, if◌then◌else◌, length, ℕ_discrete,
}
use pao_pao_gate_way.Common.Maps.{get, insert, remove}
use pao_pao_gate_way.Common.Recency.{excess}
use pao_pao_gate_way.Common.Trims.{stamps, remove_all}
use pao_pao_gate_way.Stats.Records.{ConnRecord, u64_mod}

abbrev pub conn_id_seq_bits : ℕ
conn_id_seq_bits = 40

pub record ConnIdGen : Type 0 where
  pub base : ℕ
  pub next : ℕ

-- The seed is 24 bits of random data.
unfoldable pub with_seed : ℕ → ConnIdGen
with_seed seed24 = record { base = seed24 % 2 ^ 24 * 2 ^ conn_id_seq_bits; next = 1 }

unfoldable pub next_id : ConnIdGen → ConnIdGen × ℕ
next_id g =
    (record g { next = (g.next + 1) % u64_mod }, bit_or g.base (g.next % 2 ^ conn_id_seq_bits))

pub record ConnTable : Type 0 where
  pub inner : List (ℕ × ConnRecord)
  pub started_epoch_ms : ℕ

unfoldable pub new : ℕ → ConnTable
new now_epoch = record { inner = []; started_epoch_ms = now_epoch }

pub clear : ConnTable → ConnTable
clear t = record t { inner = [] }

pub len : ConnTable → ℕ
len t = length t.inner

pub is_empty : ConnTable → Bool
unfolding len
is_empty t = len t == 0

unfoldable pub insert_record : ConnTable → ℕ → ConnRecord → ConnTable × ℕ
insert_record t now rec = (
  record t { inner = insert ℕ_discrete rec.id (record rec { last_seen_ms = now }) t.inner },
  rec.id,
)

pub lookup : ConnTable → ℕ → Option ConnRecord
lookup t id = get ℕ_discrete id t.inner

-- A change of the record of a connection, if it has one.
change : ConnTable → ℕ → (ConnRecord → ConnRecord) → ConnTable
change t id f = elim (get ℕ_discrete id t.inner) [
  | none ↦ t
  | some r ↦ record t { inner = insert ℕ_discrete id (f r) t.inner }
]

pub touch : ConnTable → ℕ → ℕ → ConnTable
unfolding change
touch t now id = change t id (λ r. record r { last_seen_ms = now })

pub remove_record : ConnTable → ℕ → ConnTable × Option ConnRecord
remove_record t id = (record t { inner = remove ℕ_discrete id t.inner }, get ℕ_discrete id t.inner)

-- A connection that is closed at 0 counts as closed at 1. The clock is read twice.
pub close : ConnTable → ℕ → ℕ → ℕ → ConnTable
unfolding change
close t now later id = change t id (λ r. record r { closed_ms = max now 1; last_seen_ms = later })

abbrev pub is_closed : ConnRecord → Bool
is_closed r = not (r.closed_ms == 0)

-- When a closed connection was last seen.
unfoldable pub closed_stamp : ConnRecord → Option ℕ
closed_stamp r = if r.closed_ms == 0 then none else some r.last_seen_ms

-- An open one that was not seen for longer than `stale_h`.
abbrev pub is_stale : ℕ → ℕ → ConnRecord → Bool
is_stale now stale_h r = ltb stale_h (now - r.last_seen_ms)

unfoldable pub stale_stamp : ℕ → ℕ → ConnRecord → Option ℕ
stale_stamp now stale_h r =
    if r.closed_ms == 0
    then (if is_stale now stale_h r then some r.last_seen_ms else none)
    else none

unfoldable pub sweep_recency : ConnTable → ℕ → ℕ → ℕ → ConnTable × ℕ
sweep_recency t now max_closed stale_h =
    let old = excess max_closed (stamps closed_stamp t.inner) in
    let stale_active = stamps (stale_stamp now stale_h) t.inner in
    (
      record t { inner = remove_all ℕ_discrete stale_active (remove_all ℕ_discrete old t.inner) },
      length old + length stale_active,
    )

-- A connection whose time is over: some time after it was closed, or after it was last seen.
unfoldable pub dead_stamp : ℕ → ℕ → ℕ → ConnRecord → Option ℕ
dead_stamp now stale_h close_h r =
    if r.closed_ms == 0
    then (if ltb stale_h (now - r.last_seen_ms) then some r.last_seen_ms else none)
    else (if leb close_h (now - r.closed_ms) then some r.last_seen_ms else none)

unfoldable pub sweep_with_close_grace : ConnTable → ℕ → ℕ → ℕ → ConnTable × ℕ
sweep_with_close_grace t now stale_h close_h =
    let dead = stamps (dead_stamp now stale_h close_h) t.inner in
    (record t { inner = remove_all ℕ_discrete dead t.inner }, length dead)

pub sweep_stale : ConnTable → ℕ → ℕ → ConnTable × ℕ
unfolding sweep_with_close_grace
sweep_stale t now stale_h = sweep_with_close_grace t now stale_h 5000
