-- ===== src/Sniff/Recognise/Order.antt =====
-- What `sniff_all` recognises, and in which order.
use pao_pao_gate_way.Common.{
  ℕ, suc, ◌+◌, ◌≤◌, ◌<◌, ◌≡◌, ◌⊎◌, refl, subst, sym, ap, ◌∙◌, Bool, true, false, not, ◌&&◌, ◌||◌,
  List, ◌∷◌, ◌++◌, Option, none, some, All, arith, is_some, length, leb, ◌==◌, if◌then◌else◌,
  Bool-cases, inl, inr,
}
use pao_pao_gate_way.Common.Bytes.{Bytes, starts_with, be_bytes}
use pao_pao_gate_way.Sniff.Errors.{
  ParseErr, malformed, not_handshake, Result, ok, err, unfinished, ◌>>=◌,
}
use pao_pao_gate_way.Sniff.Tls.{record_at, TlsClientHello, collect_handshake, parse_handshake}
use pao_pao_gate_way.Sniff.Tls.Handshakes.{records_bytes, joined, collect_handshake-records_bytes}
use pao_pao_gate_way.Sniff.Tls.Hello.{
  Hello, IsHello, hello_bytes, told, length-hello_bytes, parse_handshake-hello_bytes,
}
use pao_pao_gate_way.Sniff.Http.{Parse, Header, failed, partial, complete, parse_head, find_host}
use pao_pao_gate_way.Sniff.Bittorrent.{is_bittorrent_handshake, bt_handshake_prefix}
use pao_pao_gate_way.Sniff.Recognise.{
  Sniffed, SniffedProto, sniff_all, sniff_plain, looks_like_http_request_line, nothing,
}

suc_not_zero : (n : ℕ) → (suc n == 0) ≡ false
suc_not_zero n = ground arith

sniff_all-tls :
    (parse : Bytes → Parse) (b : ℕ) (bs : Bytes) {h : TlsClientHello}
    → (collect_handshake (b ∷ bs) >>= parse_handshake) ≡ ok h
    → sniff_all parse (b ∷ bs) ≡ record {
      proto = SniffedProto.tls;
      domain = h.sni;
      ech_outer = h.ech_outer;
      need_more = false;
    }
unfolding sniff_all
sniff_all-tls parse b bs e = rw (sniff_all, suc_not_zero (length bs), e)

-- A stream that starts with a ClientHello whose parts fit their lengths is recognised as TLS with
-- the hello's server name, however the hello is cut into records, whatever follows and whatever
-- httparse would say: for at least one record, of less than 65536 bytes each, and at most 65536
-- bytes in all.
pub sniff_all-hello_bytes :
    (parse : Bytes → Parse) (h : Hello) (v : ℕ × ℕ) (p : Bytes) (ps : List Bytes)
    (tail extra : Bytes)
    → IsHello h
    → All (λ q. length q < 65536) (p ∷ ps)
    → joined (p ∷ ps) ≡ hello_bytes h ++ extra
    → length (joined (p ∷ ps)) ≤ 65536
    → sniff_all parse (records_bytes v (p ∷ ps) ++ tail) ≡ record {
      proto = SniffedProto.tls;
      domain = (told h).sni;
      ech_outer = (told h).ech_outer;
      need_more = false;
    }
unfolding records_bytes
sniff_all-hello_bytes parse h (a, b) p ps tail extra v small whole fits =
    sniff_all-tls parse 0x16
      (a ∷ b ∷ (((be_bytes 2 (length p) ++ p) ++ records_bytes (a, b) ps) ++ tail))
      (ap (λ m. m >>= parse_handshake)
          (collect_handshake-records_bytes (a, b) p ps tail (hello_bytes h) extra small whole
            (length-hello_bytes h v) fits)
        ∙ parse_handshake-hello_bytes h v)

-- The first byte of a BitTorrent handshake starts no TLS record.
no_record : (rest : Bytes) → collect_handshake (bt_handshake_prefix ++ rest) ≡ err not_handshake
unfolding collect_handshake record_at
no_record rest =
    let long : leb (0 + 5) (length (bt_handshake_prefix ++ rest)) ≡ true = ground arith in
    rw (collect_handshake, record_at, long)

-- A stream that starts with the handshake of BitTorrent is recognised as that, where httparse does
-- not take it for a request.
pub sniff_all-bittorrent :
    (parse : Bytes → Parse) (rest : Bytes)
    → parse (bt_handshake_prefix ++ rest) ≡ failed
    → sniff_all parse (bt_handshake_prefix ++ rest)
      ≡ record nothing { proto = SniffedProto.bittorrent }
unfolding sniff_all sniff_plain parse_head is_bittorrent_handshake starts_with
sniff_all-bittorrent parse rest f =
    rw (sniff_all, suc_not_zero, no_record rest, sniff_plain, parse_head, f)

-- A property of each outcome is one of the result.
sniff_all_of :
    (parse : Bytes → Parse) (buf : Bytes) (Q : Sniffed → Type 0)
    → Q nothing
    → ((h : TlsClientHello)
        → Q (record {
          proto = SniffedProto.tls;
          domain = h.sni;
          ech_outer = h.ech_outer;
          need_more = false;
        }))
    → Q (sniff_plain parse buf)
    → Q (sniff_all parse buf)
unfolding sniff_all
sniff_all_of parse buf Q a b c = elim (Bool-cases (length buf == 0)) [
  | inl e ↦ rw (sniff_all, e) a
  | inr e ↦ rw (sniff_all, e) (outcome (collect_handshake buf >>= parse_handshake))
]
  where
    outcome :
        (r : Result TlsClientHello)
        → Q (elim r [
          | ok h ↦ record {
            proto = SniffedProto.tls;
            domain = h.sni;
            ech_outer = h.ech_outer;
            need_more = false;
          }
          | err e ↦ sniff_plain parse buf
          | unfinished ↦ sniff_plain parse buf
        ])
    outcome (ok h) = b h
    outcome (err e) = c
    outcome unfinished = c

-- More is asked for.
Wants : (Bytes → Parse) → Bytes → Sniffed → Type 0
Wants parse buf s =
    s.need_more ≡ true
    → (s.proto ≡ SniffedProto.http)
      × (s.domain ≡ none)
      × ((hs : List Header) × (parse buf ≡ partial hs))

-- The outcome from what was found: a host, a whole head, a known method, the handshake.
judged : Result (Option Bytes × Bool) → Bool → Bool → Sniffed
judged (ok (host, whole)) known bt =
    if is_some host || known
    then record {
      proto = SniffedProto.http;
      domain = host;
      ech_outer = false;
      need_more = not (is_some host) && not whole;
    }
    else if bt
    then record nothing { proto = SniffedProto.bittorrent }
    else nothing
judged (err e) known bt = if bt then record nothing { proto = SniffedProto.bittorrent } else nothing
judged unfinished known bt =
    if bt then record nothing { proto = SniffedProto.bittorrent } else nothing

Asks : Sniffed → Bool → Type 0
Asks s whole =
    s.need_more ≡ true → (s.proto ≡ SniffedProto.http) × (s.domain ≡ none) × (whole ≡ false)

found-Asks :
    (host : Option Bytes) (whole known bt : Bool) → Asks (judged (ok (host, whole)) known bt) whole
unfolding judged Asks
found-Asks none true true bt h = absurd (ground arith)
found-Asks none false true bt h = (refl, refl, refl)
found-Asks none whole false true h = absurd (ground arith)
found-Asks none whole false false h = absurd (ground arith)
found-Asks (some host) whole known bt h = absurd (ground arith)

not_found :
    (r : Result (Option Bytes × Bool)) (known bt : Bool)
    → (r ≡ unfinished) ⊎ ((e : ParseErr) × (r ≡ err e))
    → (judged r known bt).need_more ≡ false
unfolding judged
not_found r known true (inl e) = rw e
not_found r known false (inl e) = rw e
not_found r known true (inr (x, e)) = rw e
not_found r known false (inr (x, e)) = rw e

judged_head :
    (host : Result (Option Bytes)) (whole known bt : Bool)
    → Asks (judged (host >>= (λ h. ok (h, whole))) known bt) whole
unfolding judged Asks
judged_head (ok host) whole known bt h = found-Asks host whole known bt h
judged_head (err e) whole known bt h =
    absurd (ground (arith, not_found (err e) known bt (inr (e, refl))))
judged_head unfinished whole known bt h =
    absurd (ground (arith, not_found unfinished known bt (inl refl)))

sniff_plain-judged :
    (parse : Bytes → Parse) (buf : Bytes)
    → sniff_plain parse buf
      ≡ judged
          (parse_head parse buf)
          (looks_like_http_request_line buf)
          (is_bittorrent_handshake buf)
unfolding sniff_plain judged
sniff_plain-judged parse buf = go (parse_head parse buf) refl
  where
    go :
        (r : Result (Option Bytes × Bool))
        → parse_head parse buf ≡ r
        → sniff_plain parse buf
          ≡ judged
              (parse_head parse buf)
              (looks_like_http_request_line buf)
              (is_bittorrent_handshake buf)
    go (ok (host, whole)) e = rw (sniff_plain, e)
    go (err x) e = rw (sniff_plain, e)
    go unfinished e = rw (sniff_plain, e)

module _ (parse : Bytes → Parse) (buf : Bytes) where
  parse_head-failed : parse buf ≡ failed → parse_head parse buf ≡ err (malformed "not http")
  unfolding parse_head
  parse_head-failed e = rw (parse_head, e)

  parse_head-complete :
      (hs : List Header)
      → parse buf ≡ complete hs
      → parse_head parse buf ≡ (find_host hs >>= (λ h. ok (h, true)))
  unfolding parse_head
  parse_head-complete hs e = rw (parse_head, e)

  parse_head-partial :
      (hs : List Header)
      → parse buf ≡ partial hs
      → parse_head parse buf ≡ (find_host hs >>= (λ h. ok (h, false)))
  unfolding parse_head
  parse_head-partial hs e = rw (parse_head, e)

sniff_plain-Wants : (parse : Bytes → Parse) (buf : Bytes) → Wants parse buf (sniff_plain parse buf)
unfolding Wants Asks
sniff_plain-Wants parse buf =
    subst (Wants parse buf) (sym (sniff_plain-judged parse buf)) (go (parse buf) refl)
  where
    known : Bool
    known = looks_like_http_request_line buf

    bt : Bool
    bt = is_bittorrent_handshake buf

    go :
        (p : Parse)
        → parse buf ≡ p
        → Wants parse buf (
            judged
              (parse_head parse buf)
              (looks_like_http_request_line buf)
              (is_bittorrent_handshake buf))
    go failed e h = absurd (
        ground (
          arith,
          ap (λ r. (judged r known bt).need_more) (parse_head-failed parse buf e),
          not_found (err (malformed "not http")) known bt (inr (malformed "not http", refl)),
        ))
    go (complete hs) e h =
        let (a, b, c) = judged_head (find_host hs) true known bt (
          sym (ap (λ r. (judged r known bt).need_more) (parse_head-complete parse buf hs e)) ∙ h) in
        absurd (ground arith)
    go (partial hs) e h =
        let q = parse_head-partial parse buf hs e in
        let (a, b, c) =
          judged_head (find_host hs) false known bt
            (sym (ap (λ r. (judged r known bt).need_more) q) ∙ h) in
        (
          ap (λ r. (judged r known bt).proto) q ∙ a,
          ap (λ r. (judged r known bt).domain) q ∙ b,
          (hs, e),
        )

-- More of a stream is asked for only when it is a request without a host so far, and httparse finds
-- its head not complete.
pub sniff_all_more :
    (parse : Bytes → Parse) (buf : Bytes)
    → (sniff_all parse buf).need_more ≡ true
    → ((sniff_all parse buf).proto ≡ SniffedProto.http)
      × ((sniff_all parse buf).domain ≡ none)
      × ((hs : List Header) × (parse buf ≡ partial hs))
unfolding Wants
sniff_all_more parse buf =
    sniff_all_of parse buf (Wants parse buf) (λ h. absurd (ground arith))
      (λ h e. absurd (ground arith)) (sniff_plain-Wants parse buf)
