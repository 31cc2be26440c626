-- ===== src/Common/Text.antt =====
-- Texts of the source as their bytes of UTF-8: what the standard library does on them.
use Prim.Native.Nat.{ℕ, ◌+◌, ◌-◌, ◌/◌, ◌%◌}
use mathlib.Core.Bool.{◌&&◌}
use mathlib.Core.List.{List, [], ◌∷◌, ◌++◌}
use mathlib.Core.Option.{none, some}
use pao_pao_gate_way.Common.Tests.{ltb, leb, ◌==◌, if◌then◌else◌}
use pao_pao_gate_way.Common.Bytes.{Bytes, lead, in_range}

-- `u8::to_ascii_lowercase`.
abbrev pub to_ascii_lowercase : ℕ → ℕ
to_ascii_lowercase b = if leb b'A' b && leb b b'Z' then b + 32 else b

-- `String::push(b as char)`: a byte of 128 or more becomes a character of two bytes.
abbrev pub char_bytes : ℕ → Bytes
char_bytes b = if ltb b 128 then b ∷ [] else (0xc0 + b / 64) ∷ (0x80 + b % 64) ∷ []

-- `split('.')`: there is always a piece, and one more for each dot.
unfoldable pub split_dot : Bytes → List Bytes
split_dot [] = [] ∷ []
split_dot (b ∷ bs) = elim (split_dot bs) [
  | [] ↦ [] ∷ []
  | label ∷ labels ↦ if b == b'.' then [] ∷ label ∷ labels else (b ∷ label) ∷ labels
]

-- `String::from_utf8_lossy`: a sequence that is no character becomes U+FFFD. The state is how many
-- continuation bytes are due, the range of the next of them, and the bytes read of the character.
record Lossy : Type 0 where
  due : ℕ
  lo : ℕ
  hi : ℕ
  begun : Bytes

replacement : Bytes
replacement = 0xef ∷ 0xbf ∷ 0xbd ∷ []

between : Lossy
between = record { due = 0; lo = 0; hi = 0; begun = [] }

begin : ℕ → Bytes × Lossy
unfolding replacement between
begin b = elim (lead b) [
  | none ↦ (replacement, between)
  | some (n, lo, hi) ↦
      if n == 0
      then (b ∷ [], between)
      else ([], record { due = n; lo = lo; hi = hi; begun = b ∷ [] })
]

go_on : Lossy → ℕ → Bytes × Lossy
unfolding begin
go_on s b =
    if in_range s.lo s.hi b
    then (if s.due == 1
        then (s.begun ++ b ∷ [], between)
        else ([], record { due = s.due - 1; lo = 0x80; hi = 0xbf; begun = s.begun ++ b ∷ [] }))
    else (let (out, s') = begin b in (replacement ++ out, s'))

lossy_from : Lossy → Bytes → Bytes
unfolding go_on
lossy_from s [] = if s.due == 0 then [] else replacement
lossy_from s (b ∷ bs) =
    let (out, s') = (if s.due == 0 then begin b else go_on s b) in out ++ lossy_from s' bs

unfoldable pub from_utf8_lossy : Bytes → Bytes
unfolding lossy_from lead in_range
from_utf8_lossy bs = lossy_from between bs
