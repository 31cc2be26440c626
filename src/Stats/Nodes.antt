-- ===== src/Stats/Nodes.antt =====
-- sniffbox/crates/sb-stats/src/nodes.rs and traffic.rs: what went through each node, and in all. The
-- time of the system is an argument, and so is the JSON that the package serde_json makes.
use pao_pao_gate_way.Common.{
  ℕ, ◌+◌, ◌%◌, Bool, not, ◌&&◌, ◌||◌, List, [], leb, ◌==◌, if◌then◌else◌, length, map, unwrap_or,
}
use pao_pao_gate_way.Common.Bytes.{Bytes, Bytes-discrete}
use pao_pao_gate_way.Common.Maps.{get, insert, contains_key}
use pao_pao_gate_way.Common.Recency.{newest_first}
use pao_pao_gate_way.Stats.Records.{u64_mod}

abbrev pub max_nodes : ℕ
max_nodes = 1024

-- The bytes up and down of a node.
abbrev pub NodeBytes : Type 0
NodeBytes = ℕ × ℕ

pub record NodeDist : Type 0 where
  pub nodes : List (Bytes × NodeBytes)
  pub since_ms : ℕ
  pub json : Bytes

abbrev pub ToJson : Type 0
ToJson = ℕ → List (Bytes × ℕ × ℕ) → Bytes

pub new : ToJson → ℕ → NodeDist
new to_json now = record { nodes = []; since_ms = now; json = to_json now [] }

pub add : NodeDist → Bytes → ℕ → ℕ → NodeDist
add t node dup ddown =
    if length node == 0 || (dup == 0 && ddown == 0)
    then t
    else if not (contains_key Bytes-discrete node t.nodes) && leb max_nodes (length t.nodes)
    then t
    else (let (up, down) = unwrap_or (get Bytes-discrete node t.nodes) (0, 0) in
        record t { nodes = insert Bytes-discrete node (up + dup, down + ddown) t.nodes })

pub snapshot : NodeDist → List (Bytes × ℕ × ℕ)
snapshot t = map (λ e. (e.0, e.1.0, e.1.1)) t.nodes

-- The nodes by their bytes in all, the most in front.
pub by_total : NodeDist → List (Bytes × ℕ × ℕ)
unfolding newest_first
by_total t =
    map (λ e. (e.0.0, e.0.1, e.0.2))
      (newest_first {K = Bytes × ℕ × ℕ} (map (λ e. ((e.0, e.1.0, e.1.1), e.1.0 + e.1.1)) t.nodes))

pub rebuild : ToJson → NodeDist → NodeDist
unfolding by_total
rebuild to_json t = record t { json = to_json t.since_ms (by_total t) }

pub clear : ToJson → NodeDist → ℕ → NodeDist
clear to_json t now = record t { nodes = []; since_ms = now; json = to_json now [] }

pub len : NodeDist → ℕ
len t = length t.nodes

pub is_empty : NodeDist → Bool
unfolding len
is_empty t = len t == 0

pub record TrafficCache : Type 0 where
  pub total_down : ℕ
  pub total_up : ℕ

pub new_traffic : TrafficCache
new_traffic = record { total_down = 0; total_up = 0 }

pub add_totals : TrafficCache → ℕ → ℕ → TrafficCache
add_totals t down up = record {
  total_down = (t.total_down + down) % u64_mod;
  total_up = (t.total_up + up) % u64_mod;
}

pub totals : TrafficCache → ℕ × ℕ
totals t = (t.total_down, t.total_up)

pub clear_traffic : TrafficCache → TrafficCache
clear_traffic t = record { total_down = 0; total_up = 0 }
