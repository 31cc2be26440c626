-- ===== src/Outbound/Pool/Tests.antt =====
-- The pool at concrete inputs.
use pao_pao_gate_way.Common.{
  ℕ, ◌≤◌, ◌≡◌, refl, Bool, false, Option, [], ◌∷◌, some, none, length, ◌==◌,
}
use pao_pao_gate_way.Outbound.Pool.{SocksPool, new, default, acquire, choose}
use pao_pao_gate_way.Outbound.Pool.Choice.{Picked, or_else, acquire-Picked}
use pao_pao_gate_way.Outbound.Pool.Bounds.{Call, run, run-new_bounded}

-- A dead connection, one that is too old, and one that is good.
abbrev three : SocksPool
three = record {
  cfg = default;
  idle =
      record { stream = 1; put_at = 400000 }
      ∷ record { stream = 2; put_at = 0 }
      ∷ record { stream = 3; put_at = 400000 }
      ∷ [];
  pressure = record {
    cold_pending = 0;
    acquires_total = 0;
    cold_total = 0;
    discarded_dead = 0;
    new_warmed = 0;
  };
  warm_notify = false;
}

abbrev alive : ℕ → Bool
alive s = s == 3

third : (acquire three 400001 alive none).0 ≡ some 3
unfolding acquire choose
third = refl

acquire-Picked_example :
    (chosen : Option ℕ) × ((acquire three 400001 alive none).0 ≡ or_else chosen none)
    × Picked default 400001 alive three.idle chosen (acquire three 400001 alive none).1.idle
acquire-Picked_example = acquire-Picked three 400001 alive none

run-new_bounded_example :
    length
      (run (new default) (
        Call.released 5 1
        ∷ Call.warmed_up 6 ((7, some 2) ∷ (8, none) ∷ [])
        ∷ Call.acquired 9 alive none
        ∷ [])).idle
    ≤ 128
run-new_bounded_example = run-new_bounded default (
    Call.released 5 1
    ∷ Call.warmed_up 6 ((7, some 2) ∷ (8, none) ∷ [])
    ∷ Call.acquired 9 alive none
    ∷ [])
