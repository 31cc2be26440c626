-- ===== src/Rules/Tests.antt =====
-- The rules at concrete inputs.
use pao_pao_gate_way.Common.{◌≡◌, ◌↔◌, ◌≤◌, ◌⊎◌, ◌+◌, ◌%◌, sum_of, refl, true, [], ◌∷◌, length}
use pao_pao_gate_way.Common.Bytes.{bytes_eq}
use pao_pao_gate_way.Common.Net.{IpAddr-discrete, v4}
use pao_pao_gate_way.Common.Maps.{get, insert, retain, Distinct}
use pao_pao_gate_way.Sniff.Http.{eq_ignore_ascii_case}
use pao_pao_gate_way.Rules.{is_suffix_match, with_cap, note, evict_oldest}
use pao_pao_gate_way.Rules.Suffixes.{Below, is_suffix_match_iff}
use pao_pao_gate_way.Rules.Threads.{
  Chance, Shared, Reach, here, next, called, ran, Begins, noting, finding, measuring, inserting,
  adding, word, stamp, advance, eviction_of, at_rest,
}
use pao_pao_gate_way.Rules.Threads.Invariants.{added_by, overlapping_notes}

-- "a.Bc" and "bC"
is_suffix_match_iff_example :
    (is_suffix_match (b'a' ∷ b'.' ∷ b'B' ∷ b'c' ∷ []) (b'b' ∷ b'C' ∷ []) ≡ true)
    ↔ Below (b'a' ∷ b'.' ∷ b'B' ∷ b'c' ∷ []) (b'b' ∷ b'C' ∷ [])
is_suffix_match_iff_example =
    is_suffix_match_iff (b'a' ∷ b'.' ∷ b'B' ∷ b'c' ∷ []) (b'b' ∷ b'C' ∷ [])

below_matches : is_suffix_match (b'a' ∷ b'.' ∷ b'B' ∷ b'c' ∷ []) (b'b' ∷ b'C' ∷ []) ≡ true
unfolding is_suffix_match eq_ignore_ascii_case bytes_eq
below_matches = refl

-- A table for one hint holds two.
two_hints : length (note (note (with_cap 1) (v4 1) []) (v4 2) []).map ≡ 2
unfolding note with_cap evict_oldest get insert retain IpAddr-discrete
two_hints = refl

-- A note whose addition to the counter is due.
abbrev chance : Chance
chance = record { len = 0; marks = []; part = λ k. true; last = true }

abbrev one_due : Shared
one_due = record {
  table = record (with_cap 2) { map = (v4 1, record { label = []; seq = 0 }) ∷ []; seq = 1 };
  tasks = adding ∷ [];
  evictions = 0;
}

one_due-Reach : Reach (at_rest 2) one_due
unfolding advance stamp with_cap eviction_of get insert
one_due-Reach =
    let s1 : Shared = record (at_rest 2) { tasks = noting (v4 1) [] ∷ [] } in
    let t = record (with_cap 2) { seq = 1 } in
    let s2 : Shared = record { table = t; tasks = finding (v4 1) [] 0 ∷ []; evictions = 0 } in
    let s3 : Shared = record { table = t; tasks = measuring (v4 1) [] 0 ∷ []; evictions = 0 } in
    let s4 : Shared = record { table = t; tasks = inserting (v4 1) [] 0 ∷ []; evictions = 0 } in
    next
      (next
        (next
          (next (next here (called (noting (v4 1) []) (Begins.note (v4 1) [])))
            (ran {s = s1} chance 0 (noting (v4 1) []) refl))
          (ran {s = s2} chance 0 (finding (v4 1) [] 0) refl))
        (ran {s = s3} chance 0 (measuring (v4 1) [] 0) refl))
      (ran {s = s4} chance 0 (inserting (v4 1) [] 0) refl)

overlapping_notes_example :
    Distinct IpAddr-discrete one_due.table.map
    × ((1 ≤ one_due.evictions)
        ⊎ ((one_due.table.count + sum_of added_by one_due.tasks) % word
            ≡ length one_due.table.map % word))
overlapping_notes_example = overlapping_notes 2 one_due-Reach
