-- ===== src/FakeIp/Shard/Places.antt =====
-- `find_free_ip`: while the shard is not full it gives an address of the slice that no name holds.
use pao_pao_gate_way.Common.{
  ℕ, zero, suc, ◌+◌, ◌-◌, ◌%◌, ◌<◌, ◌≤◌, ◌≡◌, refl, none, some, arith, ltb, ◌==◌, if◌then◌else◌,
  length, ℕ_discrete, true, false, Option-cases, Bool-cases, inl, inr,
}
use pao_pao_gate_way.Common.Maps.{get, Distinct}
use pao_pao_gate_way.FakeIp.Hash.{u64_mod, fastrange, probe_step}
use pao_pao_gate_way.FakeIp.Hash.Range.{fastrange-lt}
use pao_pao_gate_way.FakeIp.Shard.{
  Shard, nil, address, in_use, probe, scan, probe_limit, find_free_ip,
}
use pao_pao_gate_way.FakeIp.Shard.Entries.{length-ge_of_full}

-- An offset of the slice whose address is free.
abbrev pub Vacant : Shard → ℕ → Type 0
Vacant s ip = (j : ℕ) × (ip ≡ address s j) × (j < s.usable) × (in_use s j ≡ false)

probe-Vacant :
    (s : Shard) (rounds step i : ℕ) {ip : ℕ}
    → 0 < s.usable
    → probe s rounds step i ≡ some ip
    → Vacant s ip
unfolding probe
probe-Vacant s zero step i b h = cc
probe-Vacant s (suc rounds) step i b h = elim (Bool-cases (in_use s ((i + step) % s.usable))) [
  | inl used ↦ probe-Vacant s rounds step ((i + step) % s.usable) b (ground arith)
  | inr free ↦ ((i + step) % s.usable, ground arith, omega arith, free)
]

next : Shard → ℕ → ℕ
next s i = if i + 1 == s.usable then 0 else i + 1

scan-Vacant :
    (s : Shard) (rounds i : ℕ) {ip : ℕ} → i < s.usable → scan s rounds i ≡ some ip → Vacant s ip
unfolding scan next
scan-Vacant s zero i b h = cc
scan-Vacant s (suc rounds) i b h = elim (Bool-cases (in_use s (next s i))) [
  | inl used ↦ scan-Vacant s rounds (next s i) (ground arith) (ground arith)
  | inr free ↦ (next s i, ground arith, ground arith, free)
]

-- How many steps lead from an offset to another, at least one.
steps : Shard → ℕ → ℕ → ℕ
steps s i j = if ltb i j then j - i else j + s.usable - i

-- A scan without result has passed by addresses in use only.
scan-none :
    (s : Shard) (rounds i j : ℕ)
    → i < s.usable
    → j < s.usable
    → steps s i j ≤ rounds
    → scan s rounds i ≡ none
    → in_use s j ≡ true
unfolding scan next steps
scan-none s zero i j b c d h = absurd (ground arith)
scan-none s (suc rounds) i j b c d h = elim (Bool-cases (in_use s (next s i))) [
  | inl used ↦ elim (ℕ_discrete (next s i) j) [
    | yes e ↦ ground arith
    | no ne ↦ scan-none s rounds (next s i) j (ground arith) c (ground arith) (ground arith)
  ]
  | inr free ↦ ground arith
]

-- An address of the slice does not wrap around.
address_lem : (s : Shard) (j : ℕ) → s.lo + s.usable ≤ nil → j < s.usable → address s j ≡ s.lo + j
unfolding address
address_lem s j h b = omega arith

steps_bounds : (s : Shard) (i j : ℕ) → i < s.usable → j < s.usable → steps s i j ≤ s.usable
unfolding steps
steps_bounds s i j b c = ground arith

module _ (s : Shard) (h : ℕ) (distinct : Distinct ℕ_discrete s.by_ip)
    (room : length s.by_ip < s.usable) (within : s.lo + s.usable ≤ nil) (hash : h < u64_mod) where
  start_below : fastrange h s.usable < s.usable
  start_below = fastrange-lt h s.usable hash (omega arith) (omega arith)

  scan_finds : (i : ℕ) → i < s.usable → (ip : ℕ) × (scan s s.usable i ≡ some ip) × Vacant s ip
  scan_finds i b = elim (Option-cases (scan s s.usable i)) [
    | inl e ↦
        let full = length-ge_of_full s.lo s.usable s.by_ip distinct (λ j c. ground (
          arith,
          scan-none s s.usable i j b c (steps_bounds s i j b c) e,
          address_lem s j within c,
        )) in
        absurd (omega arith)
    | inr (ip, e) ↦ (ip, e, scan-Vacant s s.usable i b e)
  ]

  pub find_free_ip-Vacant : (ip : ℕ) × (find_free_ip s h ≡ some ip) × Vacant s ip
  unfolding find_free_ip
  find_free_ip-Vacant = elim (Bool-cases (in_use s (fastrange h s.usable))) [
    | inr free ↦ (
      address s (fastrange h s.usable),
      ground arith,
      (fastrange h s.usable, refl, start_below, free),
    )
    | inl used ↦
        elim (Option-cases (probe s probe_limit (probe_step h s.usable) (fastrange h s.usable))) [
          | inr (ip, e) ↦ (
            ip,
            ground arith,
            probe-Vacant s probe_limit (probe_step h s.usable) (fastrange h s.usable) (omega arith)
                e,
          )
          | inl e ↦
              let (ip, f, v) = scan_finds (fastrange h s.usable) start_below in
              (ip, ground arith, v)
        ]
  ]

-- Such an address lies in the slice, and the table does not hold it.
pub Vacant-facts :
    (s : Shard) (ip : ℕ)
    → s.lo + s.usable ≤ nil
    → Vacant s ip
    → (get ℕ_discrete ip s.by_ip ≡ none) × (s.lo ≤ ip) × (ip < s.lo + s.usable)
Vacant-facts s ip within (j, e, b, free) =
    let a = address_lem s j within b in (ground arith, omega arith, omega arith)
