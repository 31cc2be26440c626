-- ===== src/Udp/Budget.antt =====
-- sniffbox/crates/sniffbox/src/udp_budget.rs. An operation runs under the lock, so it is one step;
-- the indices 0 and 1 of the arrays are the classes `false` and `true`.
mod Ledger
mod Reachable
mod Tests
use pao_pao_gate_way.Common.{
  ℕ, ◌+◌, ◌-◌, ◌*◌, ◌/◌, min, max, Bool, true, false, ◌||◌, List, [], Option, none, some, leb, ◌==◌,
  if◌then◌else◌, unwrap_or, ℕ_discrete,
}
use pao_pao_gate_way.Common.Net.{IpAddr, IpAddr-discrete}
use pao_pao_gate_way.Common.Maps.{get, insert, remove}

abbrev pub default_reserved : ℕ
default_reserved = 32

pub sessions_for_memory : ℕ → ℕ
sessions_for_memory bytes =
    if bytes == 0 then 256 else min (max (bytes / (2 * 1024 * 1024)) 64) 1024

-- `[usize; 2]`, indexed by `usize::from(internal)`.
pub record PerClass : Type 0 where
  pub user : ℕ
  pub internal : ℕ

abbrev pub at_class : PerClass → Bool → ℕ
at_class a false = a.user
at_class a true = a.internal

abbrev pub set_class : PerClass → Bool → ℕ → PerClass
set_class a false n = record a { user = n }
set_class a true n = record a { internal = n }

abbrev pub Client : Type 0
Client = IpAddr × Bool

unfoldable pub Client-discrete : Discrete Client
unfolding IpAddr-discrete
Client-discrete = hlevel IpAddr-discrete

pub record Budget : Type 0 where
  pub limits : PerClass
  pub per_client : ℕ
  pub used : PerClass
  pub clients : List (Client × ℕ)

pub record Permit : Type 0 where
  pub ip : IpAddr
  pub internal : Bool

abbrev pub client : Permit → Client
client p = (p.ip, p.internal)

pub new : ℕ → ℕ → ℕ → Budget
new users internal per_client = record {
  limits = record { user = users; internal = internal };
  per_client = per_client;
  used = record { user = 0; internal = 0 };
  clients = [];
}

pub record UdpBudget : Type 0 where
  pub sessions : Budget
  pub flows : Budget

abbrev usize_max : ℕ
usize_max = 0xffffffffffffffff

saturating_mul : ℕ → ℕ → ℕ
saturating_mul a b = min (a * b) usize_max

pub udp_budget : ℕ → ℕ → UdpBudget
unfolding saturating_mul new
udp_budget sessions reserved = record {
  sessions = new sessions reserved 1024;
  flows = new (saturating_mul sessions 16) (saturating_mul reserved 16) 16384;
}

-- `state.clients.get(..).copied().unwrap_or(0)`.
abbrev pub held_by : Budget → Client → ℕ
held_by b k = unwrap_or (get Client-discrete k b.clients) 0

pub acquire_with_headroom : Budget → IpAddr → Bool → ℕ → ℕ → Budget × Option Permit
acquire_with_headroom b ip internal headroom client_headroom =
    if leb (at_class b.limits internal - headroom) (at_class b.used internal)
      || leb (b.per_client - client_headroom) (held_by b (ip, internal))
    then (b, none)
    else (
      record b {
        used = set_class b.used internal (at_class b.used internal + 1);
        clients = insert Client-discrete (ip, internal) (held_by b (ip, internal) + 1) b.clients;
      },
      some (record { ip = ip; internal = internal }),
    )

pub acquire : Budget → IpAddr → Bool → Budget × Option Permit
acquire b ip internal = acquire_with_headroom b ip internal 0 0

-- `x -= 1` on usize, which must not go below zero: `none` is the panic.
abbrev decrement : ℕ → Option ℕ
decrement n = if n == 0 then none else some (n - 1)

-- `Drop for Permit`, which runs when the last owner is gone. `none` is a panic: of a subtraction
-- or of the `unwrap`.
pub drop_permit : Budget → Permit → Option Budget
drop_permit b p = elim (decrement (at_class b.used p.internal)) [
  | none ↦ none
  | some used ↦ elim (get Client-discrete (client p) b.clients) [
    | none ↦ none
    | some count ↦ elim (decrement count) [
      | none ↦ none
      | some left ↦ some (record b {
        used = set_class b.used p.internal used;
        clients =
            if left == 0
            then remove Client-discrete (client p) b.clients
            else insert Client-discrete (client p) left b.clients;
      })
    ]
  ]
]
