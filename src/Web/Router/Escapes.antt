-- ===== src/Web/Router/Escapes.antt =====
-- A segment of a path with escapes, and what it stands for.
use pao_pao_gate_way.Common.{
  ℕ, ◌+◌, ◌-◌, ◌*◌, ◌/◌, ◌%◌, ◌<◌, ◌≡◌, refl, ap, ◌∙◌, Bool, false, not, ◌&&◌, [], ◌∷◌, some, arith,
  ltb, ◌==◌, if◌then◌else◌, Bool-cases, Option-cases, inl, inr,
}
use pao_pao_gate_way.Common.Bytes.{Bytes, AreBytes}
use pao_pao_gate_way.Common.Text.{from_utf8_lossy}
use pao_pao_gate_way.Web.Router.{hex, escape, decoded, pct_decode_segment}

-- The digit of a number below 16, in capitals.
unfoldable pub digit : ℕ → ℕ
digit d = if ltb d 10 then b'0' + d else b'A' + (d - 10)

-- A text with the bytes escaped that may not stand for themselves; the percent sign is one of them.
unfoldable pub escaped : (ℕ → Bool) → Bytes → Bytes
escaped stays [] = []
escaped stays (b ∷ bs) =
    if not (b == b'%') && stays b
    then b ∷ escaped stays bs
    else b'%' ∷ digit (b / 16) ∷ digit (b % 16) ∷ escaped stays bs

hex-digit : (d : ℕ) → d < 16 → hex (digit d) ≡ some d
unfolding hex digit
hex-digit d h = ground arith

decoded_plain : (b : ℕ) (bs : Bytes) → (b == b'%') ≡ false → decoded 0 (b ∷ bs) ≡ b ∷ decoded 0 bs
unfolding decoded
decoded_plain b bs h = elim (Option-cases (escape bs)) [
  | inl e ↦ rw (decoded, e) refl
  | inr (x, e) ↦ rw (decoded, e, h) refl
]

decoded_escape :
    (b : ℕ) (bs : Bytes)
    → b < 256
    → decoded 0 (b'%' ∷ digit (b / 16) ∷ digit (b % 16) ∷ bs) ≡ b ∷ decoded 0 bs
unfolding decoded
decoded_escape b bs h =
    let x = hex-digit (b / 16) (omega arith) in
    let y = hex-digit (b % 16) (omega arith) in
    let e : b / 16 * 16 + b % 16 ≡ b = omega arith in rw (decoded, x, y, e) refl

decoded-escaped : (stays : ℕ → Bool) (bs : Bytes) → AreBytes bs → decoded 0 (escaped stays bs) ≡ bs
unfolding escaped decoded
decoded-escaped stays [] h = refl
decoded-escaped stays (b ∷ bs) (p, h) = elim (Bool-cases (not (b == b'%') && stays b)) [
  | inl e ↦
      rw e (
        decoded_plain b (escaped stays bs) (ground arith) ∙ ap (◌∷◌ b) (decoded-escaped stays bs h))
  | inr e ↦ rw e (decoded_escape b (escaped stays bs) p ∙ ap (◌∷◌ b) (decoded-escaped stays bs h))
]

-- A text of bytes that is escaped, whichever bytes besides the percent sign are, is read back as the
-- text, with what is no character replaced.
pub pct_decode_segment-escaped :
    (stays : ℕ → Bool) (bs : Bytes)
    → AreBytes bs
    → pct_decode_segment (escaped stays bs) ≡ from_utf8_lossy bs
unfolding pct_decode_segment
pct_decode_segment-escaped stays bs h = ap from_utf8_lossy (decoded-escaped stays bs h)
