-- ===== src/Dns/Message.antt =====
-- sniffbox/crates/sb-dns/src/message.rs. A text is its bytes; where a loop of the source has no
-- bound of its own it takes fuel, and an answer `none` is that the fuel ran out.
use Prim.Native.Nat.{bit_and, bit_or}
use pao_pao_gate_way.Common.{
  ℕ, zero, suc, ◌+◌, Bool, true, false, not, ◌&&◌, ◌||◌, List, [], ◌∷◌, ◌++◌, Option, none, some,
  ltb, leb, ◌==◌, if◌then◌else◌, length, get_elem?, take, drop,
}
use pao_pao_gate_way.Common.Bytes.{Bytes, be_bytes, from_be}
use pao_pao_gate_way.Common.Text.{to_ascii_lowercase, char_bytes, split_dot}

abbrev pub type_a : ℕ
type_a = 1

abbrev pub type_mx : ℕ
type_mx = 15

abbrev pub type_srv : ℕ
type_srv = 33

abbrev pub type_txt : ℕ
type_txt = 16

abbrev pub type_aaaa : ℕ
type_aaaa = 28

abbrev pub class_in : ℕ
class_in = 1

abbrev pub rcode_noerror : ℕ
rcode_noerror = 0

abbrev pub header_len : ℕ
header_len = 12

pub data DnsError : Type 0 where
  truncated not_a_query no_question compression_in_question name_too_long : DnsError

pub data Parsed (A : Type 0) : Type 0 where
  ok : A → Parsed A
  err : DnsError → Parsed A

-- A result of code that may run out of fuel.
abbrev pub Fueled : Type 0 → Type 0
Fueled A = Option (Parsed A)

infixl 5 ◌>>=◌
abbrev pub ◌>>=◌ : {A B : Type 0} → Parsed A → (A → Parsed B) → Parsed B
ok a >>= f = f a
err e >>= f = err e

abbrev pub fueled_bind : {A B : Type 0} → Fueled A → (A → Fueled B) → Fueled B
fueled_bind none f = none
fueled_bind (some (ok a)) f = f a
fueled_bind (some (err e)) f = some (err e)

-- `buf.get(pos..pos + len)`.
abbrev pub slice : Bytes → ℕ → ℕ → Option Bytes
slice buf pos len = if leb (pos + len) (length buf) then some (take len (drop pos buf)) else none

-- `u16::from_be_bytes([buf[pos], buf[pos + 1]])`, and the same for u32.
abbrev pub u16_at : Bytes → ℕ → ℕ
u16_at buf pos = from_be (take 2 (drop pos buf))

abbrev pub u32_at : Bytes → ℕ → ℕ
u32_at buf pos = from_be (take 4 (drop pos buf))

pub record Query : Type 0 where
  pub id : ℕ
  pub rd : Bool
  pub name : Bytes
  pub qtype : ℕ
  pub qclass : ℕ
  pub question_end : ℕ
  pub raw : Bytes

unfoldable pub lower : Bytes → Bytes
lower [] = []
lower (b ∷ bs) = char_bytes (to_ascii_lowercase b) ++ lower bs

abbrev pub with_dot : Bytes → Bytes
with_dot [] = []
with_dot (b ∷ bs) = (b ∷ bs) ++ b'.' ∷ []

-- The loop of `parse_name`.
unfoldable pub parse_name : ℕ → Bytes → ℕ → Bytes → Fueled (Bytes × ℕ)
unfolding lower
parse_name zero buf pos name = none
parse_name (suc fuel) buf pos name = elim (get_elem? buf pos) [
  | none ↦ some (err truncated)
  | some len ↦
      if len == 0
      then some (ok (name, pos + 1))
      else if not (bit_and len 0xc0 == 0)
      then some (err compression_in_question)
      else elim (slice buf (pos + 1) len) [
        | none ↦ some (err truncated)
        | some label ↦
            let name' = with_dot name ++ lower label in
            let rest = parse_name fuel buf (pos + 1 + len) name' in
            if ltb 255 (length name') then some (err name_too_long) else rest
      ]
]

unfoldable pub parse_query : Bytes → Fueled Query
unfolding parse_name
parse_query buf =
    if ltb (length buf) header_len
    then some (err truncated)
    else if not (bit_and (u16_at buf 2) 0x8000 == 0)
    then some (err not_a_query)
    else if u16_at buf 4 == 0
    then some (err no_question)
    else fueled_bind (parse_name (length buf) buf header_len []) (λ (name, pos).
      if ltb (length buf) (pos + 4)
      then some (err truncated)
      else some (
          ok (record {
            id = u16_at buf 0;
            rd = not (bit_and (u16_at buf 2) 0x0100 == 0);
            name = name;
            qtype = u16_at buf pos;
            qclass = u16_at buf (pos + 2);
            question_end = pos + 4;
            raw = buf;
          })))

pub is_a : Query → Bool
is_a q = q.qclass == class_in && q.qtype == type_a

unfoldable pub echo_prefix : Query → Bytes
echo_prefix q = take q.question_end q.raw

-- The answer's header over the first twelve bytes: `id` and the question count stay.
unfoldable pub write_response_header : Bytes → Bool → ℕ → ℕ → Bytes
write_response_header out rd rcode ancount =
    take 2 out
    ++ (bit_or 0x80 (if rd then 0x01 else 0)
        ∷ bit_or 0x80 (bit_and rcode 0x0f)
        ∷ (take 2 (drop 4 out) ++ (be_bytes 2 ancount ++ (0 ∷ 0 ∷ 0 ∷ 0 ∷ drop 12 out))))

unfoldable pub answer_a : Query → ℕ → ℕ → Bytes
unfolding echo_prefix write_response_header
answer_a q ip ttl =
    write_response_header (echo_prefix q) q.rd rcode_noerror 1
    ++ (0xc0
        ∷ 0x0c
        ∷ (be_bytes 2 type_a
            ++ (be_bytes 2 class_in ++ (be_bytes 4 ttl ++ (be_bytes 2 4 ++ be_bytes 4 ip)))))

unfoldable pub nodata : Query → Bytes
unfolding echo_prefix write_response_header
nodata q = write_response_header (echo_prefix q) q.rd rcode_noerror 0

unfoldable pub error : Query → ℕ → Bytes
unfolding echo_prefix write_response_header
error q rcode = write_response_header (echo_prefix q) q.rd rcode 0

unfoldable pub error_response : Bytes → ℕ → Bytes
unfolding write_response_header
error_response query_buf rcode =
    write_response_header
      (be_bytes 2 (if leb 2 (length query_buf) then u16_at query_buf 0 else 0)
        ++ (0 ∷ 0 ∷ 0 ∷ 0 ∷ 0 ∷ 0 ∷ 0 ∷ 0 ∷ 0 ∷ 0 ∷ []))
      false rcode 0

-- The labels with their lengths; `none` where one is empty or longer than 63 bytes.
unfoldable pub write_labels : List Bytes → Option Bytes
write_labels [] = some []
write_labels (label ∷ labels) =
    if length label == 0 || ltb 63 (length label) then none else elim (write_labels labels) [
      | none ↦ none
      | some out ↦ some (length label ∷ (label ++ out))
    ]

abbrev pub written_name : Bytes → Option Bytes
written_name [] = some []
written_name (b ∷ bs) = write_labels (split_dot (b ∷ bs))

unfoldable pub query_header : ℕ → Bool → Bytes
query_header id rd =
    be_bytes 2 id
    ++ (be_bytes 2 (if rd then 0x0100 else 0x0000) ++ (0 ∷ 1 ∷ 0 ∷ 0 ∷ 0 ∷ 0 ∷ 0 ∷ 0 ∷ []))

unfoldable pub build_query_with : ℕ → Bytes → ℕ → Bool → Parsed Bytes
unfolding write_labels query_header
build_query_with id name qtype rd = elim (written_name name) [
  | none ↦ err name_too_long
  | some labels ↦
      if ltb 255 (length labels + 1)
      then err name_too_long
      else ok (query_header id rd ++ (labels ++ (0 ∷ (be_bytes 2 qtype ++ be_bytes 2 class_in))))
]

unfoldable pub build_query : ℕ → Bytes → ℕ → Parsed Bytes
unfolding build_query_with
build_query id name qtype = build_query_with id name qtype true
