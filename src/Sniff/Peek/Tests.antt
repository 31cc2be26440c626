-- ===== src/Sniff/Peek/Tests.antt =====
-- Buffers and pools at concrete inputs.
use pao_pao_gate_way.Common.{ℕ, ◌≤◌, ◌≡◌, max, [], ◌∷◌, length}
use pao_pao_gate_way.Sniff.Peek.{with_limit, into_replay}
use pao_pao_gate_way.Sniff.Peek.Streams.{read_all, replay, all_of, replay-read_all}

-- A capacity as large as what is to be held.
abbrev grow : ℕ → ℕ → ℕ
grow capacity needed = max capacity needed

replay-read_all_example :
    (length (read_all grow (with_limit grow 4) (3 ∷ 9 ∷ []) (1 ∷ 2 ∷ 3 ∷ 4 ∷ 5 ∷ [])).0.buf.bytes
      ≤ 4)
    × (all_of (
          replay
            (into_replay
              (read_all grow (with_limit grow 4) (3 ∷ 9 ∷ []) (1 ∷ 2 ∷ 3 ∷ 4 ∷ 5 ∷ [])).0).0
            ((3, 0) ∷ (8, 0) ∷ (8, 1) ∷ [])
            (read_all grow (with_limit grow 4) (3 ∷ 9 ∷ []) (1 ∷ 2 ∷ 3 ∷ 4 ∷ 5 ∷ [])).1)
        ≡ 1 ∷ 2 ∷ 3 ∷ 4 ∷ 5 ∷ [])
replay-read_all_example =
    replay-read_all grow 4 (3 ∷ 9 ∷ []) ((3, 0) ∷ (8, 0) ∷ (8, 1) ∷ []) (1 ∷ 2 ∷ 3 ∷ 4 ∷ 5 ∷ [])
