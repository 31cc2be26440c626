-- ===== src/Sniff/Peek/Streams.antt =====
-- What is read ahead is given back: a stream goes through byte for byte.
use pao_pao_gate_way.Common.{
  ℕ, zero, suc, ◌-◌, ◌≤◌, ◌≡◌, refl, sym, ap, ◌∙◌, min, List, [], ◌∷◌, ◌++◌, arith, ltb, leb,
  length, length-append, length-take, take, drop, take-append-drop, Bool-cases, inl, inr,
}
use mathlib.Core.List.{append_assoc}
use pao_pao_gate_way.Common.Bytes.{Bytes}
use pao_pao_gate_way.Common.Cursor.{drop-add}
use pao_pao_gate_way.Sniff.Peek.{
  PeekBuf, ReplayReader, with_limit, read_some, into_replay, poll_read,
}

-- Reads ahead, one after the other, each with what the socket has.
unfoldable pub read_all : (ℕ → ℕ → ℕ) → PeekBuf → List ℕ → Bytes → PeekBuf × Bytes
unfolding read_some
read_all grow p [] stream = (p, stream)
read_all grow p (n ∷ ns) stream =
    let (count, p', stream') = read_some grow p n stream in read_all grow p' ns stream'

-- Reads of the client, each with its room and what the socket has: the bytes given, and the rest.
unfoldable pub replay : ReplayReader → List (ℕ × ℕ) → Bytes → Bytes × ReplayReader × Bytes
unfolding poll_read
replay r [] stream = ([], r, stream)
replay r ((room, n) ∷ reads) stream =
    let (got, r', stream') = poll_read r room n stream in
    let (more, r'', stream'') = replay r' reads stream' in (got ++ more, r'', stream'')

read_some_keeps :
    (grow : ℕ → ℕ → ℕ) (p : PeekBuf) (n : ℕ) (stream : Bytes)
    → ((read_some grow p n stream).1.buf.bytes ++ (read_some grow p n stream).2
        ≡ p.buf.bytes ++ stream)
      × ((read_some grow p n stream).1.limit ≡ p.limit)
      × (length p.buf.bytes ≤ p.limit → length (read_some grow p n stream).1.buf.bytes ≤ p.limit)
unfolding read_some
read_some_keeps grow p n stream = elim (Bool-cases (leb p.limit (length p.buf.bytes))) [
  | inl full ↦ rw (read_some, full) (refl, refl, λ h. h)
  | inr full ↦
      let k = min n (min (p.limit - length p.buf.bytes) 4096) in
      rw (read_some, full)
        (
          append_assoc p.buf.bytes (take k stream) (drop k stream)
              ∙ ap (λ xs. p.buf.bytes ++ xs) (take-append-drop k stream),
          refl,
          λ h. omega (arith, h, length-append p.buf.bytes (take k stream), length-take k stream),
        )
]

read_all_keeps :
    (grow : ℕ → ℕ → ℕ) (p : PeekBuf) (ns : List ℕ) (stream : Bytes)
    → ((read_all grow p ns stream).0.buf.bytes ++ (read_all grow p ns stream).1
        ≡ p.buf.bytes ++ stream)
      × (length p.buf.bytes ≤ p.limit → length (read_all grow p ns stream).0.buf.bytes ≤ p.limit)
unfolding read_all
read_all_keeps grow p [] stream = (refl, λ h. h)
read_all_keeps grow p (n ∷ ns) stream =
    let (count, p', stream') = read_some grow p n stream in
    let one = read_some_keeps grow p n stream in
    let more = read_all_keeps grow (read_some grow p n stream).1 ns (read_some grow p n stream).2 in
    (more.0 ∙ one.0, λ h. omega (arith, one.1, one.2 h, more.1 (omega (arith, one.1, one.2 h))))

-- The bytes that a reader still has.
abbrev ahead : ReplayReader → Bytes
ahead r = drop r.pos r.buffered.bytes

drop_all : (n : ℕ) (xs : Bytes) → length xs ≤ n → drop n xs ≡ []
drop_all zero [] h = refl
drop_all zero (x ∷ xs) h = absurd (omega arith)
drop_all (suc n) [] h = refl
drop_all (suc n) (x ∷ xs) h = drop_all n xs (omega arith)

poll_read_keeps :
    (r : ReplayReader) (room n : ℕ) (stream : Bytes)
    → (poll_read r room n stream).0
        ++ (ahead (poll_read r room n stream).1 ++ (poll_read r room n stream).2)
      ≡ ahead r ++ stream
unfolding poll_read
poll_read_keeps r room n stream = elim (Bool-cases (ltb r.pos (length r.buffered.bytes))) [
  | inl b ↦
      let remaining = drop r.pos r.buffered.bytes in
      let k = min (length remaining) room in
      rw (poll_read, b)
        (ap (λ xs. take k remaining ++ (xs ++ stream)) (drop-add r.pos k r.buffered.bytes)
          ∙ sym (append_assoc (take k remaining) (drop k remaining) stream)
          ∙ ap (λ xs. xs ++ stream) (take-append-drop k remaining))
  | inr b ↦
      let gone = drop_all r.pos r.buffered.bytes (ground arith) in
      rw (poll_read, b, gone) (take-append-drop (min n room) stream)
]

replay_keeps :
    (r : ReplayReader) (reads : List (ℕ × ℕ)) (stream : Bytes)
    → (replay r reads stream).0 ++ (ahead (replay r reads stream).1 ++ (replay r reads stream).2)
      ≡ ahead r ++ stream
unfolding replay
replay_keeps r [] stream = refl
replay_keeps r ((room, n) ∷ reads) stream =
    let x = poll_read r room n stream in
    append_assoc x.0 (replay x.1 reads x.2).0
      (ahead (replay x.1 reads x.2).1 ++ (replay x.1 reads x.2).2)
    ∙ ap (λ xs. x.0 ++ xs) (replay_keeps x.1 reads x.2)
    ∙ poll_read_keeps r room n stream

-- What a reader has given, then what it still has, then what is still to come.
unfoldable pub all_of : Bytes × ReplayReader × Bytes → Bytes
all_of (given, r, stream) = given ++ (drop r.pos r.buffered.bytes ++ stream)

-- Whatever is read ahead, in reads of whatever sizes, stays within the limit, and the stream that
-- replays it gives exactly the bytes of the connection, in their order: what its reads give, then
-- what is still buffered, then what is still to come, is the whole stream.
pub replay-read_all :
    (grow : ℕ → ℕ → ℕ) (limit : ℕ) (ns : List ℕ) (reads : List (ℕ × ℕ)) (stream : Bytes)
    → (length (read_all grow (with_limit grow limit) ns stream).0.buf.bytes ≤ limit)
      × (all_of (
            replay
              (into_replay (read_all grow (with_limit grow limit) ns stream).0).0
              reads
              (read_all grow (with_limit grow limit) ns stream).1)
          ≡ stream)
unfolding with_limit into_replay all_of
replay-read_all grow limit ns reads stream =
    let p = with_limit grow limit in
    let keeps = read_all_keeps grow p ns stream in
    let x = read_all grow p ns stream in
    (keeps.1 (omega arith), replay_keeps (into_replay x.0).0 reads x.1 ∙ keeps.0)
