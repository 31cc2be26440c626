-- ===== src/Web/Tests.antt =====
-- Requests at concrete inputs.
use pao_pao_gate_way.Common.{
  ℕ, ◌≡◌, ◌↔◌, ◌≤◌, refl, ℕ_discrete, Bool, true, [], ◌∷◌, none, leb, ◌&&◌,
}
use pao_pao_gate_way.Common.Bytes.{Bytes, Bytes-discrete, All-of_all, bytes_eq, starts_with}
use pao_pao_gate_way.Common.Net.{v4}
use pao_pao_gate_way.Common.Text.{from_utf8_lossy}
use pao_pao_gate_way.Sniff.Http.{before, eq_ignore_ascii_case}
use pao_pao_gate_way.Web.Router.{
  static, blocked, proxy_clash, get, post, split, non_empty, fits, segments, clash_allowed,
  classify, needs_auth, group_delay_target, pct_decode_segment,
}
use pao_pao_gate_way.Web.Gates.{
  Keys, try_acquire, drop_gate, acquired, start, times, try_acquire_iff,
}
use pao_pao_gate_way.Common.Maps
use pao_pao_gate_way.Web.Router.Targets.{classify-group_delay_target}
use pao_pao_gate_way.Web.Router.Escapes.{escaped, digit, pct_decode_segment-escaped}
use pao_pao_gate_way.Web.Server.{
  AdminAcl, Request, allows, path_only, dispatched, handle_request, handle_conn, IsPermitted,
  handle_conn_iff,
}

program : Unit {0}
unfolding classify needs_auth group_delay_target clash_allowed fits segments path_only split
    non_empty bytes_eq starts_with eq_ignore_ascii_case before handle_request handle_conn allows
    escaped digit
program = tt

-- "/group/A%20b/delay"
abbrev delays : Bytes
delays =
    b'/' ∷ b'g' ∷ b'r' ∷ b'o' ∷ b'u' ∷ b'p' ∷ b'/' ∷ b'A' ∷ b'%' ∷ b'2' ∷ b'0' ∷ b'b' ∷ b'/' ∷ b'd'
    ∷ b'e' ∷ b'l' ∷ b'a' ∷ b'y' ∷ []

classify-group_delay_target_example : classify get delays ≡ proxy_clash
classify-group_delay_target_example =
    classify-group_delay_target get delays
      {name = pct_decode_segment (b'A' ∷ b'%' ∷ b'2' ∷ b'0' ∷ b'b' ∷ [])} (unfold program in refl)

posted_delays : classify post delays ≡ blocked
unfolding program
posted_delays = refl

-- "A b"
abbrev a_b : Bytes
a_b = b'A' ∷ b' ' ∷ b'b' ∷ []

abbrev graphic : ℕ → Bool
graphic b = leb 0x21 b && leb b 0x7e

pct_decode_segment-escaped_example : pct_decode_segment (escaped graphic a_b) ≡ from_utf8_lossy a_b
pct_decode_segment-escaped_example =
    pct_decode_segment-escaped graphic a_b (All-of_all 256 a_b refl)

escaped-a_b : escaped graphic a_b ≡ b'A' ∷ b'%' ∷ b'2' ∷ b'0' ∷ b'b' ∷ []
unfolding program
escaped-a_b = refl

-- 10.0.0.0/8
abbrev acl : AdminAcl
acl = record { nets = (λ a. leb 0x0a000000 a && leb a 0x0affffff) ∷ [] }

abbrev token : Bytes
token = b'0' ∷ b'1' ∷ []

-- "/ui?x" without a token
abbrev page : Request
page = record { method = get; path = b'/' ∷ b'u' ∷ b'i' ∷ b'?' ∷ b'x' ∷ []; authorization = none }

handle_conn_iff_example : (handle_conn acl token (v4 0x0a010203) page ≡ dispatched static) ↔ (
    (allows acl (v4 0x0a010203) ≡ true)
    × (static ≡ classify page.method (path_only page))
    × IsPermitted token (v4 0x0a010203) page)
handle_conn_iff_example = handle_conn_iff acl token (v4 0x0a010203) page static

page_served : handle_conn acl token (v4 0x0a010203) page ≡ dispatched static
unfolding program
page_served = refl

abbrev taken : Keys
taken = (a_b, tt) ∷ []

try_acquire_iff_example :
    (times a_b (a_b ∷ []) ≤ 1) × ((try_acquire taken a_b ≡ none) ↔ (times a_b (a_b ∷ []) ≡ 1))
unfolding try_acquire Maps.get Maps.insert
try_acquire_iff_example =
    try_acquire_iff {set = taken} {held = a_b ∷ []} a_b (acquired a_b start refl)

let_go : drop_gate taken a_b ≡ []
unfolding drop_gate Maps.remove Bytes-discrete ℕ_discrete
let_go = refl
