-- ===== src/Stats/Agg.antt =====
-- sniffbox/crates/sb-stats/src/agg.rs: what went through, by client, transport and name. A call
-- holds the lock while it changes the rows; `fold` swaps the mark of its record before, which is one
-- step with it here. The time of the system is an argument, as are the text of an address and the
-- JSON that the package serde_json makes of the rows. A `BTreeSet` is the list of its elements,
-- in no order.
pub mod Totals
use pao_pao_gate_way.Common.{
  ℕ, zero, suc, ◌+◌, ◌-◌, ◌%◌, Bool, true, false, not, ◌&&◌, List, [], ◌∷◌, Option, none, some, leb,
  ltb, ◌==◌, if◌then◌else◌, length, ℕ_discrete, ite, unwrap_or,
}
use pao_pao_gate_way.Common.Bytes.{Bytes, Bytes-discrete}
use pao_pao_gate_way.Common.Net.{IpAddr, IpAddr-discrete}
use pao_pao_gate_way.Common.Maps.{get, insert, retain}
use pao_pao_gate_way.Common.Trims.{trim}
use pao_pao_gate_way.Stats.Records.{
  u64_mod, ConnRecord, RecordKind, normal, internal, Transport, tcp, udp, proto_str, inbound_str,
  head_hex, display_domain,
}

abbrev pub AggKey : Type 0
AggKey = IpAddr × Transport × Bytes

Transport-discrete : Discrete Transport
Transport-discrete = hlevel

unfoldable pub AggKey-discrete : Discrete AggKey
unfolding IpAddr-discrete Transport-discrete Bytes-discrete
AggKey-discrete = hlevel (IpAddr-discrete, Transport-discrete, Bytes-discrete)

unfoldable pub key_of : (IpAddr → Bytes) → ConnRecord → AggKey
key_of to_string rec = (rec.src.0, rec.transport, display_domain to_string rec)

pub record AggRow : Type 0 where
  pub first_ms : ℕ
  pub last_ms : ℕ
  pub up : ℕ
  pub down : ℕ
  pub conns : ℕ
  pub dports : List ℕ
  pub sniffs : List Bytes
  pub inbounds : List Bytes
  pub head : Option Bytes

unfoldable pub new_row : ℕ → AggRow
new_row now = record {
  first_ms = now;
  last_ms = now;
  up = 0;
  down = 0;
  conns = 0;
  dports = [];
  sniffs = [];
  inbounds = [];
  head = none;
}

pub record AggTable : Type 0 where
  pub rows : List (AggKey × AggRow)
  pub window : ℕ
  pub json : Bytes

-- "[]"
abbrev empty_json : Bytes
empty_json = b'[' ∷ b']' ∷ []

unfoldable pub new : ℕ → AggTable
new window = record { rows = []; window = window; json = empty_json }

-- `BTreeSet::insert`
module _ {A : Type 0} (dec : Discrete A) where
  is_in : A → List A → Bool
  is_in x [] = false
  is_in x (y ∷ ys) = ite (dec x y) true (is_in x ys)

  insert_once : A → List A → List A
  unfolding is_in
  insert_once x xs = if is_in x xs then xs else x ∷ xs

-- "internal", or how the connection came in.
unfoldable pub inbound_of : ConnRecord → Bytes
inbound_of rec = elim rec.kind [
  | internal ↦ b'i' ∷ b'n' ∷ b't' ∷ b'e' ∷ b'r' ∷ b'n' ∷ b'a' ∷ b'l' ∷ []
  | normal ↦ inbound_str rec.inbound
]

-- The additions are on u64 and wrap.
unfoldable pub add_to_row : AggRow → ConnRecord → ℕ → ℕ → ℕ → AggRow
unfolding insert_once
add_to_row row rec now fu fd = record row {
  up = (row.up + fu) % u64_mod;
  down = (row.down + fd) % u64_mod;
  last_ms = now;
  conns = if rec.agg_counted then row.conns else (row.conns + 1) % u64_mod;
  dports = insert_once ℕ_discrete rec.dst.1 row.dports;
  sniffs = insert_once Bytes-discrete (proto_str rec.proto) row.sniffs;
  inbounds = insert_once Bytes-discrete (inbound_of rec) row.inbounds;
  head = elim (head_hex rec) [ none ↦ row.head | some h ↦ some h ];
}

-- The table afterwards, and the record, which counts from then on.
unfoldable pub fold : (IpAddr → Bytes) → AggTable → ConnRecord → ℕ → ℕ → ℕ → AggTable × ConnRecord
fold to_string t rec now fu fd =
    if fu == 0 && fd == 0
    then (t, rec)
    else (let key = key_of to_string rec in
        let row = unwrap_or (get AggKey-discrete key t.rows) (new_row now) in
        (
          record t { rows = insert AggKey-discrete key (add_to_row row rec now fu fd) t.rows },
          record rec { agg_counted = true },
        ))

-- The rows of the window, and of these the newest.
unfoldable pub prune_rows : List (AggKey × AggRow) → ℕ → ℕ → ℕ → List (AggKey × AggRow)
prune_rows rows now window max_rows =
    trim AggKey-discrete (λ r. some r.last_ms) max_rows
      (retain (λ _ r. ltb (now - r.last_ms) window) rows)

pub prune : AggTable → ℕ → ℕ → AggTable
unfolding prune_rows
prune t now max_rows = record t { rows = prune_rows t.rows now t.window max_rows }

pub rebuild : (List (AggKey × AggRow) → Bytes) → AggTable → ℕ → ℕ → AggTable
unfolding prune_rows
rebuild serialize t now max_rows =
    let rows = prune_rows t.rows now t.window max_rows in
    record t { rows = rows; json = serialize rows }

pub clear : AggTable → AggTable
clear t = record t { rows = []; json = empty_json }

pub len : AggTable → ℕ
len t = length t.rows

pub is_empty : AggTable → Bool
unfolding len
is_empty t = len t == 0
