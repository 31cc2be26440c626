-- ===== src/FakeIp/Hash.antt =====
-- sniffbox/crates/sb-dns/src/hash.rs. A u64 is a number below 2 ^ 64 and wraps around; the key is
-- its bytes. The guards of the source keep every read of `rapidhash` inside the key.
mod Tests
pub mod Range
use Prim.Native.Nat.{bit_xor, bit_or}
use pao_pao_gate_way.Common.{
  ℕ, zero, suc, ◌+◌, ◌-◌, ◌*◌, ◌/◌, ◌%◌, ◌^◌, List, [], ◌∷◌, ltb, leb, if◌then◌else◌, length,
  get_or, take, drop,
}
use pao_pao_gate_way.Common.Bytes.{Bytes}

abbrev pub u64_mod : ℕ
u64_mod = 0x10000000000000000

abbrev pub u32_mod : ℕ
u32_mod = 0x100000000

-- `^` on u64.
unfoldable pub xor64 : ℕ → ℕ → ℕ
xor64 a b = bit_xor a b % u64_mod

wrapping_mul : ℕ → ℕ → ℕ
wrapping_mul a b = a * b % u64_mod

unfoldable pub fmix64 : ℕ → ℕ
unfolding xor64 wrapping_mul
fmix64 h0 =
    let h1 = xor64 h0 (h0 / 2 ^ 33) in
    let h2 = wrapping_mul h1 0xff51afd7ed558ccd in
    let h3 = xor64 h2 (h2 / 2 ^ 33) in
    let h4 = wrapping_mul h3 0xc4ceb9fe1a85ec53 in xor64 h4 (h4 / 2 ^ 33)

fnv1a_from : ℕ → Bytes → ℕ
unfolding xor64 wrapping_mul
fnv1a_from h [] = h
fnv1a_from h (b ∷ bs) = fnv1a_from (wrapping_mul (xor64 h b) 0x100000001b3) bs

pub fnv1a : Bytes → ℕ
unfolding fnv1a_from
fnv1a bytes = fnv1a_from 0xcbf29ce484222325 bytes

djb2_from : ℕ → Bytes → ℕ
unfolding xor64
djb2_from h [] = h
djb2_from h (b ∷ bs) = djb2_from (xor64 ((h * 2 ^ 5 % u64_mod + h) % u64_mod) b) bs

pub djb2 : Bytes → ℕ
unfolding djb2_from
djb2 bytes = djb2_from 5381 bytes

-- `from_le_bytes`; bytes that are not there count as zero, as in a buffer of zeros.
from_le : Bytes → ℕ
from_le [] = 0
from_le (b ∷ bs) = b + 256 * from_le bs

rotate_left : ℕ → ℕ → ℕ
rotate_left h k = h * 2 ^ k % u64_mod + h / 2 ^ (64 - k)

-- `as_chunks::<8>()`: the pieces of eight bytes as numbers, and the rest.
as_chunks : Bytes → List ℕ × Bytes
unfolding from_le
as_chunks (a ∷ b ∷ c ∷ d ∷ e ∷ f ∷ g ∷ h ∷ bs) =
    let (ws, rem) = as_chunks bs in (from_le (a ∷ b ∷ c ∷ d ∷ e ∷ f ∷ g ∷ h ∷ []) ∷ ws, rem)
as_chunks bs = ([], bs)

fx_word : ℕ → ℕ → ℕ
unfolding xor64 wrapping_mul rotate_left
fx_word h w = wrapping_mul (xor64 (rotate_left h 5) w) 0x517cc1b727220a95

fx_words : ℕ → List ℕ → ℕ
unfolding fx_word
fx_words h [] = h
fx_words h (w ∷ ws) = fx_words (fx_word h w) ws

pub fxhash : Bytes → ℕ
unfolding as_chunks fx_words fx_word from_le
fxhash bytes =
    let (ws, rem) = as_chunks bytes in
    let h = fx_words 0 ws in if ltb 0 (length rem) then fx_word h (from_le rem) else h

unfoldable pub mum128 : ℕ → ℕ → ℕ × ℕ
mum128 a b = (a * b % u64_mod, a * b / u64_mod % u64_mod)

unfoldable pub mum : ℕ → ℕ → ℕ
unfolding mum128 xor64
mum a b = let (low, high) = mum128 a b in xor64 low high

abbrev s0 : ℕ
s0 = 0xa0761d6478bd642f

abbrev s1 : ℕ
s1 = 0xe7037ed1a0b428db

wy_words : ℕ → List ℕ → ℕ
unfolding mum xor64
wy_words seed [] = seed
wy_words seed (w ∷ ws) = wy_words (mum (xor64 seed s1) (xor64 w s0)) ws

pub wyhash_lite : Bytes → ℕ
unfolding wy_words as_chunks from_le rotate_left
wyhash_lite bytes =
    let (ws, rem) = as_chunks bytes in
    let seed = wy_words (xor64 s0 (mum s0 s1)) ws in
    let last = xor64 (xor64 (from_le rem) s0) (rotate_left (length bytes % u64_mod) 32) in
    mum (xor64 (mum (xor64 seed s1) last) s0) s1

-- `read64(&key[p..])`
read64 : Bytes → ℕ → ℕ
unfolding from_le
read64 key p = from_le (take 8 (drop p key))

read32 : Bytes → ℕ → ℕ
unfolding from_le
read32 key p = from_le (take 4 (drop p key))

abbrev rapid_secret : List ℕ
rapid_secret =
    0x2d358dccaa6c78a5 ∷ 0x8bb84b93962eacc9 ∷ 0x4b33a62ed433d4a3 ∷ 0x4d5a2da51de1aa47
    ∷ 0xa0761d6478bd642f ∷ 0xe7037ed1a0b428db ∷ 0x90ed1765281c388c ∷ 0xaaaaaaaaaaaaaaaa ∷ []

abbrev secret : ℕ → ℕ
secret i = get_or rapid_secret i 0

abbrev pub rapidhash_seed : ℕ
rapidhash_seed = 2162917476049

-- `mum(read64(&key[p..]) ^ s[i], read64(&key[p + 8..]) ^ seed)`
absorb : Bytes → ℕ → ℕ → ℕ → ℕ
unfolding read64 mum xor64
absorb key p i seed = mum (xor64 (read64 key p) (secret i)) (xor64 (read64 key (p + 8)) seed)

-- The variables of the loop over pieces of 112 bytes: the seven lanes, and `p` and `i`.
record Lanes : Type 0 where
  seed : ℕ
  lane1 : ℕ
  lane2 : ℕ
  lane3 : ℕ
  lane4 : ℕ
  lane5 : ℕ
  lane6 : ℕ
  p : ℕ
  i : ℕ

round : Bytes → Lanes → Lanes
unfolding absorb
round key l = record {
  seed = absorb key l.p 0 l.seed;
  lane1 = absorb key (l.p + 16) 1 l.lane1;
  lane2 = absorb key (l.p + 32) 2 l.lane2;
  lane3 = absorb key (l.p + 48) 3 l.lane3;
  lane4 = absorb key (l.p + 64) 4 l.lane4;
  lane5 = absorb key (l.p + 80) 5 l.lane5;
  lane6 = absorb key (l.p + 96) 6 l.lane6;
  p = l.p + 112;
  i = l.i - 112;
}

-- The loop, with fuel.
rounds : ℕ → Bytes → Lanes → Lanes
unfolding round
rounds zero key l = l
rounds (suc fuel) key l =
    let l' = round key l in let rest = rounds fuel key l' in if leb l'.i 112 then l' else rest

-- The lanes joined into the seed.
join : Lanes → ℕ
unfolding xor64
join l =
    let seed = xor64 (xor64 l.seed l.lane1) l.lane6 in
    xor64 seed (xor64 (xor64 l.lane2 l.lane3) (xor64 l.lane4 l.lane5))

-- The nested tests on what is left: a piece of 16 bytes for each that holds.
tail_pieces : Bytes → ℕ → ℕ → ℕ → List (ℕ × ℕ) → ℕ
unfolding absorb
tail_pieces key p i seed [] = seed
tail_pieces key p i seed ((at, which) ∷ more) =
    let rest = tail_pieces key p i (absorb key (p + at) which seed) more in
    if ltb (at + 16) i then rest else seed

abbrev pieces : List (ℕ × ℕ)
pieces = (0, 2) ∷ (16, 2) ∷ (32, 1) ∷ (48, 1) ∷ (64, 2) ∷ (80, 1) ∷ []

-- What is read last: `a`, `b`, the seed and `i`.
record Final : Type 0 where
  a : ℕ
  b : ℕ
  seed : ℕ
  i : ℕ

short_key : Bytes → ℕ → Final
unfolding read64 read32 xor64
short_key key seed =
    let len = length key in
    if leb 8 len
    then record { a = read64 key 0; b = read64 key (len - 8); seed = xor64 seed len; i = len }
    else if leb 4 len
    then record { a = read32 key 0; b = read32 key (len - 4); seed = xor64 seed len; i = len }
    else if ltb 0 len
    then record {
      a = bit_or (get_or key 0 0 * 2 ^ 45 % u64_mod) (get_or key (len - 1) 0);
      b = get_or key (len / 2) 0;
      seed = seed;
      i = len;
    }
    else record { a = 0; b = 0; seed = seed; i = len }

long_key : Bytes → ℕ → Final
unfolding rounds join tail_pieces read64 xor64
long_key key seed =
    let len = length key in
    let start : Lanes = record {
      seed = seed;
      lane1 = seed;
      lane2 = seed;
      lane3 = seed;
      lane4 = seed;
      lane5 = seed;
      lane6 = seed;
      p = 0;
      i = len;
    } in
    let done = rounds len key start in
    let joined = join done in
    let p = (if ltb 112 len then done.p else 0) in
    let i = (if ltb 112 len then done.i else len) in
    record {
      a = xor64 (read64 key (p + i - 16)) i;
      b = read64 key (p + i - 8);
      seed = tail_pieces key p i (if ltb 112 len then joined else seed) pieces;
      i = i;
    }

pub rapidhash : Bytes → ℕ → ℕ
unfolding short_key long_key mum mum128 xor64
rapidhash key seed0 =
    let seed = xor64 seed0 (mum (xor64 seed0 (secret 2)) (secret 1)) in
    let f = (if leb (length key) 16 then short_key key seed else long_key key seed) in
    let (a, b) = mum128 (xor64 f.a (secret 1)) (xor64 f.b f.seed) in
    mum (xor64 a (secret 7)) (xor64 (xor64 b (secret 1)) f.i)

unfoldable pub fastrange : ℕ → ℕ → ℕ
fastrange h n = h * n / u64_mod % u32_mod

unfoldable pub probe_step : ℕ → ℕ → ℕ
probe_step h n = if leb n 1 then 1 else 1 + fastrange (fmix64 (xor64 h 0x9e3779b97f4a7c15)) (n - 1)
