-- ===== src/Outbound/Wire.antt =====
-- A stream as one side of a connection sees it, with the errors of
-- sniffbox/crates/sb-outbound/src/error.rs. `read_exact` fails at the end of the input; a write
-- does not fail, so of the I/O errors only `unexpected_eof` occurs. Texts are their bytes.
use Prim.Native.String.{String}
use mathlib.Core.List.{append-nil}
use pao_pao_gate_way.Common.{length, ◌≡◌, subst, ℕ, Bool, true, false, [], ◌++◌, none, some}
use pao_pao_gate_way.Common.Bytes.{Bytes, split_at, split_at_eq}

pub data OutboundErr : Type 0 where
  unexpected_eof : OutboundErr
  proto : String → OutboundErr
  rejected : ℕ → OutboundErr
  host_too_long : ℕ → OutboundErr
  pool_closed : OutboundErr

-- What the peer will have sent, and what was written so far.
pub record Wire : Type 0 where
  pub incoming : Bytes
  pub written : Bytes

pub data Outcome (A : Type 0) : Type 0 where
  ok : A → Wire → Outcome A
  err : OutboundErr → Wire → Outcome A

-- The result of a step that does not touch the stream.
pub data Checked (A : Type 0) : Type 0 where
  value : A → Checked A
  refused : OutboundErr → Checked A

abbrev pub Io : Type 0 → Type 0
Io A = Wire → Outcome A

infixl 5 ◌>>=◌ ◌>>◌
abbrev pub ◌>>=◌ : {A B : Type 0} → Io A → (A → Io B) → Io B
◌>>=◌ m f w = elim (m w) [ ok a w' ↦ f a w' | err e w' ↦ err e w' ]

abbrev pub ◌>>◌ : {B : Type 0} → Io (Unit {0}) → Io B → Io B
m >> k = m >>= λ _. k

abbrev pub return : {A : Type 0} → A → Io A
return a w = ok a w

abbrev pub fail : {A : Type 0} → OutboundErr → Io A
fail e w = err e w

-- `if c { return Err(e) }`.
abbrev pub refuse_if : Bool → OutboundErr → Io (Unit {0})
refuse_if true e w = err e w
refuse_if false e w = ok tt w

unfoldable pub read_exact : ℕ → Io Bytes
read_exact n w = elim (split_at n w.incoming) [
  | none ↦ err unexpected_eof (record w { incoming = [] })
  | some (bytes, rest) ↦ ok bytes (record w { incoming = rest })
]

abbrev pub write_all : Bytes → Io (Unit {0})
write_all bytes w = ok tt (record w { written = w.written ++ bytes })

-- A read of what comes first in the input, and of all of it.
pub read_exact_eq :
    {n : ℕ} (xs ys out : Bytes)
    → length xs ≡ n
    → read_exact n (record { incoming = xs ++ ys; written = out })
      ≡ ok xs (record { incoming = ys; written = out })
unfolding read_exact
read_exact_eq xs ys out h = rw (split_at_eq xs ys h, read_exact)

pub read_exact_all :
    {n : ℕ} (xs out : Bytes)
    → length xs ≡ n
    → read_exact n (record { incoming = xs; written = out })
      ≡ ok xs (record { incoming = []; written = out })
read_exact_all {n} xs out h =
    subst
      (λ ys.
        read_exact n (record { incoming = ys; written = out })
        ≡ ok xs (record { incoming = []; written = out }))
      (append-nil xs) (read_exact_eq xs [] out h)
