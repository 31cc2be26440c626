-- ===== src/DnsServer/Names.antt =====
-- A name that is read from a query stands in lower case already, so the pool keeps it as it is.
use pao_pao_gate_way.Common.{ℕ, ◌≡◌, refl, ap, ◌∙◌, false, List, [], ◌∷◌, ◌++◌, arith, any}
use pao_pao_gate_way.Common.Bytes.{Bytes}
use pao_pao_gate_way.Common.Text.{to_ascii_lowercase, char_bytes}
use pao_pao_gate_way.Dns.Message.{Query, lower, with_dot}
use pao_pao_gate_way.Dns.Names.{joined}
use pao_pao_gate_way.Dns.Questions.{Question}
use pao_pao_gate_way.FakeIp.Pool.{is_ascii_uppercase, lowered}

any-append :
    (xs ys : Bytes)
    → any is_ascii_uppercase xs ≡ false
    → any is_ascii_uppercase ys ≡ false
    → any is_ascii_uppercase (xs ++ ys) ≡ false
any-append [] ys a b = b
any-append (x ∷ xs) ys a b = ground (arith, any-append xs ys)

any-char_bytes : (b : ℕ) → any is_ascii_uppercase (char_bytes (to_ascii_lowercase b)) ≡ false
unfolding is_ascii_uppercase
any-char_bytes b = ground arith

any-lower : (l : Bytes) → any is_ascii_uppercase (lower l) ≡ false
unfolding lower
any-lower [] = refl
any-lower (b ∷ l) =
    any-append (char_bytes (to_ascii_lowercase b)) (lower l) (any-char_bytes b) (any-lower l)

any-with_dot :
    (name : Bytes)
    → any is_ascii_uppercase name ≡ false
    → any is_ascii_uppercase (with_dot name) ≡ false
unfolding is_ascii_uppercase
any-with_dot [] h = refl
any-with_dot (b ∷ name) h = any-append (b ∷ name) (b'.' ∷ []) h refl

any-joined :
    (name : Bytes) (ls : List Bytes)
    → any is_ascii_uppercase name ≡ false
    → any is_ascii_uppercase (joined name ls) ≡ false
unfolding joined
any-joined name [] h = h
any-joined name (l ∷ ls) h =
    any-joined (with_dot name ++ lower l) ls
      (any-append (with_dot name) (lower l) (any-with_dot name h) (any-lower l))

pub lowered-Question : (buf : Bytes) {q : Query} → Question buf q → lowered q.name ≡ q.name
unfolding lowered
lowered-Question buf {q} r =
    rw (ap (any is_ascii_uppercase) r.text ∙ any-joined [] r.labels refl) refl
