-- ===== src/Udp/Budget/Tests.antt =====
-- The budget at concrete inputs.
use pao_pao_gate_way.Common.{
  ◌*◌, ◌-◌, ◌<◌, ◌≡◌, ◌↔◌, refl, true, false, [], ◌∷◌, some, is_some, if◌then◌else◌,
}
use pao_pao_gate_way.Common.Net.{v4}
use pao_pao_gate_way.Common.Maps.{get, insert, remove}
use pao_pao_gate_way.Udp.Budget.{
  Budget, Permit, sessions_for_memory, udp_budget, new, acquire, acquire_with_headroom, drop_permit,
  Client-discrete,
}
use pao_pao_gate_way.Udp.Budget.Ledger.{Balances, count, class_count}
use pao_pao_gate_way.Udp.Budget.Reachable.{
  System, Step, Reach, start, Reach-IsBalanced, drop_permit_total, Reach-idle, acquire_iff,
}

program : Unit {0}
unfolding sessions_for_memory udp_budget new acquire acquire_with_headroom drop_permit
    Client-discrete get insert remove start
program = tt

sessions_scale :
    (sessions_for_memory 0 ≡ 256)
    × (sessions_for_memory (512 * 1024 * 1024) ≡ 256)
    × (sessions_for_memory (64 * 1024 * 1024 * 1024) ≡ 1024)
unfolding program
sessions_scale = (refl, refl, refl)

abbrev host : Permit
host = record { ip = v4 0x0a000001; internal = false }

abbrev one_used : Budget
one_used = record {
  limits = record { user = 3; internal = 1 };
  per_client = 2;
  used = record { user = 1; internal = 0 };
  clients = ((v4 0x0a000001, false), 1) ∷ [];
}

acquire-host : acquire (new 3 1 2) (v4 0x0a000001) false ≡ (one_used, some host)
unfolding program
acquire-host = refl

drop_host : drop_permit one_used host ≡ some (new 3 1 2)
unfolding program
drop_host = refl

abbrev busy : System
busy = record { budget = one_used; held = host ∷ [] }

busy_reached : Reach (start 3 1 2) busy
unfolding start acquire
busy_reached = Reach.next Reach.here (Step.acquired (v4 0x0a000001) false 0 0 acquire-host)

idle_again : Reach (start 3 1 2) (record { budget = new 3 1 2; held = [] })
idle_again = Reach.next busy_reached (Step.dropped host [] [] refl drop_host)

Reach-IsBalanced_example : Balances one_used (host ∷ [])
Reach-IsBalanced_example = Reach-IsBalanced 3 1 2 busy_reached

drop_permit_total_example : is_some (drop_permit one_used host) ≡ true
drop_permit_total_example = drop_permit_total 3 1 2 host [] [] busy_reached refl

Reach-idle_example : new 3 1 2 ≡ new 3 1 2
Reach-idle_example = Reach-idle 3 1 2 idle_again refl

acquire_iff_example :
    ((is_some (acquire_with_headroom one_used (v4 0x0a000002) true 0 1).1 ≡ true) ↔ (
      (class_count true (host ∷ []) < (if true then 1 else 3) - 0)
      × (count (v4 0x0a000002, true) (host ∷ []) < 2 - 1)))
    × ((is_some (acquire one_used (v4 0x0a000002) true).1 ≡ true) ↔ (
        (class_count true (host ∷ []) < (if true then 1 else 3))
        × (count (v4 0x0a000002, true) (host ∷ []) < 2)))
acquire_iff_example = acquire_iff 3 1 2 (v4 0x0a000002) true 0 1 busy_reached
