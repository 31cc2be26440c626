-- ===== src/Sniff/Errors.antt =====
-- sniffbox/crates/sb-sniff/src/error.rs: the errors of the parsers, and results with them.
use Prim.Native.String.{String}
use pao_pao_gate_way.Common.{ℕ, Bool, true, false}

pub data ParseErr : Type 0 where
  short : ℕ → ℕ → ParseErr
  not_handshake not_client_hello truncated_ext : ParseErr
  malformed : String → ParseErr

-- `unfinished` is that a loop has used up the fuel of the model.
pub data Result (A : Type 0) : Type 0 where
  ok : A → Result A
  err : ParseErr → Result A
  unfinished : Result A

infixl 5 ◌>>=◌ ◌>>◌
abbrev pub ◌>>=◌ : {A B : Type 0} → Result A → (A → Result B) → Result B
ok a >>= f = f a
err e >>= f = err e
unfinished >>= f = unfinished

abbrev pub ◌>>◌ : {B : Type 0} → Result (Unit {0}) → Result B → Result B
m >> k = m >>= λ _. k

abbrev pub is_finished : {A : Type 0} → Result A → Bool
is_finished unfinished = false
is_finished _ = true

abbrev pub refuse_if : Bool → ParseErr → Result (Unit {0})
refuse_if true e = err e
refuse_if false e = ok tt
