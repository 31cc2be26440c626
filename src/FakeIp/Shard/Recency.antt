-- ===== src/FakeIp/Shard/Recency.antt =====
-- How long an address stays with its name: until as many others were used as the shard may hold.
use pao_pao_gate_way.Common.{
  ℕ, ◌+◌, ◌<◌, ◌≤◌, ◌≡◌, refl, ap, subst, sym, ◌∙◌, List, [], ◌∷◌, Option, some, arith, All, length,
  ℕ_discrete, Option-cases, inl, inr,
}
use pao_pao_gate_way.Common.Bytes.{Bytes, Bytes-discrete}
use pao_pao_gate_way.Common.Maps.{get, remove}
use pao_pao_gate_way.FakeIp.Hash.{u64_mod}
use pao_pao_gate_way.FakeIp.Shard.{Shard, intern, lookback, ◌>>=◌}
use pao_pao_gate_way.FakeIp.Shard.Links.{Entry}
use pao_pao_gate_way.FakeIp.Shard.Entries.{slot_of-some}
use pao_pao_gate_way.FakeIp.Shard.Tables.{IsValid, All-middle, by_its_ip, by_its_domain}
use pao_pao_gate_way.FakeIp.Shard.Holders.{
  Holders, Holds, Interned, fresh, known, ip_of, name_of, looked_up, view, ip_of-none, name_of-none,
  name_of-middle, ip_of-middle, length-view,
}
use pao_pao_gate_way.FakeIp.Shard.Refinement.{intern_refines, lookback_refines}
use pao_pao_gate_way.FakeIp.Shard.Positions.{
  Ahead, IsOneToOne, ip_of-Ahead, name_of-Ahead, Interned-Ahead, looked_up-Ahead,
}

one_way :
    (es : List Entry) (s : Shard) (d : Bytes) (ip : ℕ)
    → IsValid s es
    → ip_of d (view es) ≡ some ip
    → name_of ip (view es) ≡ some d
one_way es s d ip v h = elim (Option-cases (by_its_domain d es)) [
  | inl e ↦ ground (arith, h, ip_of-none d es e)
  | inr (i, e) ↦
      let (xs, f, ys, q, name, _) = slot_of-some Bytes-discrete (λ e. e.domain) d es e in
      let w = subst (IsValid s) q v in
      let same = ap (ip_of f.domain) (ap view (sym q)) ∙ ap (λ n. ip_of n (view es)) name ∙ h in
      let at : f.ip ≡ ip = ground (arith, same, ip_of-middle xs f ys w.unique_domains) in
      ap (λ n. name_of n (view es)) (sym at)
      ∙ ap (name_of f.ip) (ap view q)
      ∙ name_of-middle xs f ys w.unique_ips
      ∙ ap some name
]

other_way :
    (es : List Entry) (s : Shard) (d : Bytes) (ip : ℕ)
    → IsValid s es
    → name_of ip (view es) ≡ some d
    → ip_of d (view es) ≡ some ip
other_way es s d ip v h = elim (Option-cases (by_its_ip ip es)) [
  | inl e ↦ ground (arith, h, name_of-none ip es e)
  | inr (i, e) ↦
      let (xs, f, ys, q, held, _) = slot_of-some ℕ_discrete (λ e. e.ip) ip es e in
      let w = subst (IsValid s) q v in
      let same = ap (name_of f.ip) (ap view (sym q)) ∙ ap (λ n. name_of n (view es)) held ∙ h in
      let at : f.domain ≡ d = ground (arith, same, name_of-middle xs f ys w.unique_ips) in
      ap (λ n. ip_of n (view es)) (sym at)
      ∙ ap (ip_of f.domain) (ap view q)
      ∙ ip_of-middle xs f ys w.unique_domains
      ∙ ap some held
]

-- No two names hold one address, and no name holds two.
pub Holds-IsOneToOne : (s : Shard) (l : Holders) → Holds s l → IsOneToOne l
unfolding Holds
Holds-IsOneToOne s l (es, v, q) =
    subst IsOneToOne q (λ d ip. (one_way es s d ip v, other_way es s d ip v))

length-Holds : (s : Shard) (l : Holders) → Holds s l → length l ≤ s.cap
unfolding Holds
length-Holds s l (es, v, q) =
    omega (arith, ap length q, length-view es, v.counted, v.places, v.room)

pub data Call : Type 0 where
  interned : (d : Bytes) (h : ℕ) → h < u64_mod → Call
  looked : ℕ → Call

-- The calls one after another, whatever they give.
unfoldable pub step : Shard → Call → Option Shard
step s (interned d h b) = do (s1, ip) ← intern s d h; some s1
step s (looked ip) = do (s1, d) ← lookback s ip; some s1

unfoldable pub run : Shard → List Call → Option Shard
unfolding step
run s [] = some s
run s (c ∷ cs) = do s1 ← step s c; run s1 cs

step-Ahead :
    (s : Shard) (c : Call) (l : Holders) (d : Bytes) (ip n : ℕ)
    → Holds s l
    → n + 1 < s.cap
    → Ahead d ip n l
    → (s1 : Shard) × (l1 : Holders) × (step s c ≡ some s1)
      × Holds s1 l1
      × Ahead d ip (n + 1) l1
      × (s1.cap ≡ s.cap)
unfolding step
step-Ahead s (interned k h b) l d ip n v room a =
    let (s1, i, l1, r, t, w, same) = intern_refines s l k h v b in
    (
      s1,
      l1,
      ground (arith, r),
      w,
      Interned-Ahead s.cap s.lo s.usable l l1 k d i ip n (Holds-IsOneToOne s l v)
          (length-Holds s l v) room a t,
      same.cap,
    )
step-Ahead s (looked i) l d ip n v room a =
    let (s1, r, w, same) = lookback_refines s l i v in
    (
      s1,
      looked_up i l,
      ground (arith, r),
      w,
      looked_up-Ahead d i ip n l (Holds-IsOneToOne s l v) a,
      same.cap,
    )

run-Ahead :
    (s : Shard) (cs : List Call) (l : Holders) (d : Bytes) (ip n : ℕ)
    → Holds s l
    → n + length cs < s.cap
    → Ahead d ip n l
    → (s1 : Shard) × (l1 : Holders) × (m : ℕ) × (run s cs ≡ some s1) × Holds s1 l1 × Ahead d ip m l1
unfolding run
run-Ahead s [] l d ip n v room a = (s, l, n, refl, v, a)
run-Ahead s (c ∷ cs) l d ip n v room a =
    let (s1, l1, r, w, b, cap) = step-Ahead s c l d ip n v (omega arith) a in
    let (s2, l2, m, r2, w2, b2) = run-Ahead s1 cs l1 d ip (n + 1) w (omega (arith, cap)) b in
    (s2, l2, m, ground (arith, r, r2), w2, b2)

front :
    (cap lo usable : ℕ) (l l' : Holders) (d : Bytes) (ip : ℕ)
    → Interned cap lo usable l d ip l'
    → Ahead d ip 0 l'
unfolding get
front cap lo usable l l' d ip (known held) =
    ([], remove Bytes-discrete d l, refl, refl, refl, omega arith)
front cap lo usable l l' d ip (fresh kept q new free above below) =
    ([], kept, refl, refl, refl, omega arith)

-- The address that `intern` gave for a name leads `lookback` to the name, as long as fewer calls of
-- the two went in between than the shard may hold names, for whatever names and addresses; and none of
-- the calls panics.
pub lookback-intern :
    (s : Shard) (l : Holders) (d : Bytes) (h : ℕ) (cs : List Call)
    → Holds s l
    → h < u64_mod
    → length cs < s.cap
    → (s1 : Shard) × (ip : ℕ) × (s2 : Shard) × (s3 : Shard) × (intern s d h ≡ some (s1, ip))
      × (run s1 cs ≡ some s2)
      × (lookback s2 ip ≡ some (s3, some d))
lookback-intern s l d h cs v b room =
    let (s1, ip, l1, r, t, w, same) = intern_refines s l d h v b in
    let (s2, l2, m, r2, w2, a) =
      run-Ahead s1 cs l1 d ip 0 w (omega (arith, same.cap))
        (front s.cap s.lo s.usable l l1 d ip t) in
    let (s3, r3, _, _) = lookback_refines s2 l2 ip w2 in
    (s1, ip, s2, s3, r, r2, r3 ∙ ap (λ n. some (s3, n)) (name_of-Ahead d ip m l2 a))

-- Afterwards the name and the address find each other.
pub Interned-found :
    (cap lo usable : ℕ) (l l' : Holders) (d : Bytes) (ip : ℕ)
    → Interned cap lo usable l d ip l'
    → (ip_of d l' ≡ some ip) × (name_of ip l' ≡ some d)
Interned-found cap lo usable l l' d ip t =
    let a = front cap lo usable l l' d ip t in (ip_of-Ahead d ip 0 l' a, name_of-Ahead d ip 0 l' a)

-- The addresses are those of the slice.
pub Holds-inside :
    (s : Shard) (l : Holders) (d : Bytes) (ip : ℕ)
    → Holds s l
    → name_of ip l ≡ some d
    → (s.lo ≤ ip) × (ip < s.lo + s.usable)
unfolding Holds
Holds-inside s l d ip (es, v, q) h = elim (Option-cases (by_its_ip ip es)) [
  | inl e ↦ ground (arith, h, ap (name_of ip) q, name_of-none ip es e)
  | inr (i, e) ↦
      let (xs, f, ys, r, held, _) = slot_of-some ℕ_discrete (λ e. e.ip) ip es e in
      let a =
        All-middle (λ e. (s.lo ≤ e.ip) × (e.ip < s.lo + s.usable)) xs f ys
          (subst (All (λ e. (s.lo ≤ e.ip) × (e.ip < s.lo + s.usable))) r v.inside) in
      omega (arith, a.0, held)
]
