-- ===== src/Dns/Questions.antt =====
-- The question of a query that message.rs accepts.
use pao_pao_gate_way.Common.{
  ℕ, ◌+◌, ◌≤◌, ◌≡◌, refl, ap, ◌∙◌, List, [], ◌∷◌, ◌++◌, Option, none, some, arith, length,
}
use pao_pao_gate_way.Common.Bytes.{Bytes, AreBytes}
use pao_pao_gate_way.Common.Cursor.{At}
use pao_pao_gate_way.Dns.Message.{Parsed, ok, err, Query, parse_name, parse_query}
use pao_pao_gate_way.Dns.Names.{labels_bytes, AreLabels, joined, parse_name-Reads}

-- The question of a query in the buffer that it was read from.
pub record Question (buf : Bytes) (q : Query) : Type 0 where
  pub labels : List Bytes
  pub tail : Bytes
  pub proper : AreLabels labels
  pub stands : At buf 12 (labels_bytes labels ++ 0 ∷ tail)
  pub text : q.name ≡ joined [] labels
  pub bounded : length q.name ≤ 255
  pub ends : q.question_end ≡ 12 + length (labels_bytes labels) + 1 + 4
  pub fits : q.question_end ≤ length buf
  pub kept : q.raw ≡ buf

pub accepted :
    (buf : Bytes) {q : Query}
    → parse_query buf ≡ some (ok q)
    → (name : Bytes) × (pos : ℕ) × (parse_name (length buf) buf 12 [] ≡ some (ok (name, pos)))
      × (pos + 4 ≤ length buf)
      × (q.name ≡ name)
      × (q.question_end ≡ pos + 4)
      × (q.raw ≡ buf)
unfolding parse_query
accepted buf {q} e = go (parse_name (length buf) buf 12 []) refl
  where
    go :
        (r : Option (Parsed (Bytes × ℕ)))
        → parse_name (length buf) buf 12 [] ≡ r
        → (name : Bytes) × (pos : ℕ) × (parse_name (length buf) buf 12 [] ≡ some (ok (name, pos)))
          × (pos + 4 ≤ length buf)
          × (q.name ≡ name)
          × (q.question_end ≡ pos + 4)
          × (q.raw ≡ buf)
    go none p = absurd (ground arith)
    go (some (err x)) p = absurd (ground arith)
    go (some (ok (name, pos))) p =
        (name, pos, p, ground arith, ground arith, ground arith, ground arith)

-- What `parse_query` accepts in a buffer of bytes is a question that stands there: labels of 1 to
-- 63 bytes behind the header, whose text in lower case is the name, of at most 255 bytes; and the
-- question ends inside the buffer, behind the type and the class.
pub parse_query-Question :
    (buf : Bytes) {q : Query} → AreBytes buf → parse_query buf ≡ some (ok q) → Question buf q
parse_query-Question buf {q} h e =
    let (name, pos, p, fits, n, end, raw) = accepted buf e in
    let r = parse_name-Reads (length buf) buf 12 [] h p in
    record {
      labels = r.labels;
      tail = r.tail;
      proper = r.proper;
      stands = r.stands;
      text = n ∙ r.text;
      bounded = omega (arith, ap length n, r.bounded (omega arith));
      ends = end ∙ ap (λ k. k + 4) r.stops;
      fits = omega (arith, end, fits);
      kept = raw;
    }
