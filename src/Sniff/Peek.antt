-- ===== src/Sniff/Peek.antt =====
-- sniffbox/crates/sb-sniff/src/peek.rs: buffers of bytes that were read ahead of a connection, and
-- streams that give them back. What a socket delivers is an argument: a read takes as many of the
-- bytes to come as the argument says, at most those there is room for. The capacity that the
-- package bytes gives a buffer is a parameter: `grow` for a capacity and a length to hold.
mod Pool
mod Streams
mod Tests
use pao_pao_gate_way.Common.{
  ℕ, ◌+◌, ◌-◌, min, max, Bool, true, false, List, [], ◌∷◌, ◌++◌, Option, none, some, ltb, leb, ◌==◌,
  if◌then◌else◌, length, take, drop,
}
use pao_pao_gate_way.Common.Bytes.{Bytes}

abbrev pub default_peek_limit : ℕ
default_peek_limit = 8192

abbrev pub pool_buf_capacity : ℕ
pool_buf_capacity = default_peek_limit

abbrev pub pool_default_slots : ℕ
pool_default_slots = 32

-- `BytesMut`: its bytes and its capacity.
pub record Buffer : Type 0 where
  pub bytes : Bytes
  pub capacity : ℕ

pub record PeekBufPool : Type 0 where
  pub inner : List Buffer
  pub cap_slots : ℕ
  pub buf_size : ℕ

-- `pooled` is whether the buffer has a pool to go back to.
pub record PeekBuf : Type 0 where
  pub buf : Buffer
  pub limit : ℕ
  pub pooled : Bool

pub record ReplayReader : Type 0 where
  pub buffered : Buffer
  pub pos : ℕ
  pub pooled : Bool

-- `BytesMut::new()`, and what `mem::take` leaves.
abbrev pub unallocated : Buffer
unallocated = record { bytes = []; capacity = 0 }

pub new_pool : ℕ → ℕ → PeekBufPool
new_pool cap_slots buf_size = record { inner = []; cap_slots = cap_slots; buf_size = buf_size }

pub with_defaults : PeekBufPool
unfolding new_pool
with_defaults = new_pool pool_default_slots pool_buf_capacity

pub idle : PeekBufPool → ℕ
idle pool = length pool.inner

pub give_back : PeekBufPool → Buffer → PeekBufPool
give_back pool buf =
    if ltb buf.capacity pool.buf_size
    then pool
    else if leb pool.cap_slots (length pool.inner)
    then pool
    else record pool { inner = record buf { bytes = [] } ∷ pool.inner }

module _ (grow : ℕ → ℕ → ℕ) where
  -- `with_capacity`.
  abbrev pub allocated : ℕ → Buffer
  allocated n = record { bytes = []; capacity = grow 0 n }

  -- `extend_from_slice`.
  abbrev pub extended : Buffer → Bytes → Buffer
  extended b input = record {
    bytes = b.bytes ++ input;
    capacity = max b.capacity (grow b.capacity (length b.bytes + length input));
  }

  pub take_buf : PeekBufPool → PeekBuf × PeekBufPool
  take_buf pool = elim pool.inner [
    | [] ↦ (record { buf = allocated pool.buf_size; limit = pool.buf_size; pooled = true }, pool)
    | b ∷ bs ↦
        (record { buf = b; limit = pool.buf_size; pooled = true }, record pool { inner = bs })
  ]

  pub with_limit : ℕ → PeekBuf
  with_limit limit = record { buf = allocated (min limit 4096); limit = limit; pooled = false }

  pub new : PeekBuf
  unfolding with_limit
  new = with_limit default_peek_limit

  pub from_prefix : Bytes → PeekBuf
  from_prefix input =
      if length input == 0
      then record { buf = unallocated; limit = 0; pooled = false }
      else record { buf = extended unallocated input; limit = length input; pooled = false }

  pub seed : PeekBuf → Bytes → PeekBuf
  seed p input = if length input == 0 then p else record p {
    buf = extended p.buf input;
    limit = max p.limit (length p.buf.bytes + length input);
  }

  -- With the bytes to come and how many of them are there: the count read and the bytes left.
  pub read_some : PeekBuf → ℕ → Bytes → ℕ × PeekBuf × Bytes
  read_some p n stream =
      if leb p.limit (length p.buf.bytes)
      then (0, p, stream)
      else (let chunk = min (p.limit - length p.buf.bytes) 4096 in
          let got = take (min n chunk) stream in
          (length got, record p { buf = extended p.buf got }, drop (min n chunk) stream))

pub empty : PeekBuf
empty = record { buf = unallocated; limit = 0; pooled = false }

pub is_full : PeekBuf → Bool
is_full p = leb p.limit (length p.buf.bytes)

-- What is left of the buffer has no pool any more: dropping it does nothing.
pub into_replay : PeekBuf → ReplayReader × PeekBuf
into_replay p = (
  record { buffered = p.buf; pos = 0; pooled = p.pooled },
  record p { buf = unallocated; pooled = false },
)

pub drop_peek : PeekBufPool → PeekBuf → PeekBufPool
unfolding give_back
drop_peek pool p = if p.pooled then give_back pool p.buf else pool

pub drop_replay : PeekBufPool → ReplayReader → PeekBufPool
unfolding give_back
drop_replay pool r = if r.pooled then give_back pool r.buffered else pool

-- A read with room for `room` bytes, of which the stream below would give `n`: the bytes given.
pub poll_read : ReplayReader → ℕ → ℕ → Bytes → Bytes × ReplayReader × Bytes
poll_read r room n stream =
    if ltb r.pos (length r.buffered.bytes)
    then (let remaining = drop r.pos r.buffered.bytes in
        let k = min (length remaining) room in
        (take k remaining, record r { pos = r.pos + k }, stream))
    else (take (min n room) stream, r, drop (min n room) stream)
