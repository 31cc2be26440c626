-- ===== src/Udp/SpoofCache/Answers.antt =====
-- What `get_or_bind` gives in each case, and what later calls give.
use pao_pao_gate_way.Common.{
  ℕ, ◌-◌, ◌≤◌, ◌<◌, ◌≡◌, ◌≢◌, ◌⊎◌, refl, subst, sym, ap, ◌∙◌, true, false, List, [], ◌∷◌, Option,
  none, some, arith, ltb, leb, if◌then◌else◌, is_some, length, Option-cases, Bool-cases, List-cases,
  inl, inr,
}
use pao_pao_gate_way.Common.Net.{Endpoint, Endpoint-discrete}
use pao_pao_gate_way.Common.Maps.{
  retain, get, insert, remove, get-insert_self, get-insert_ne, get-remove_ne,
}
use pao_pao_gate_way.Udp.SpoofCache.{
  SpoofCache, new, get_or_bind, bind_spoof, keep, fail, evict, nx_ttl, is_fresh, nx_cap,
}
use pao_pao_gate_way.Udp.SpoofCache.Order.{IsValid, new-IsValid, bind_spoof-IsValid, forget-IsValid}

module _ (c : SpoofCache) (now : ℕ) (src : Endpoint) where
  get_or_bind_there :
      {sock : ℕ} (bound : Option ℕ)
      → get Endpoint-discrete src c.map ≡ some sock
      → get_or_bind c now src bound ≡ (some sock, c)
  unfolding get_or_bind
  get_or_bind_there bound h = rw (get_or_bind, h)

  get_or_bind_fresh :
      {t : ℕ} (bound : Option ℕ)
      → get Endpoint-discrete src c.map ≡ none
      → get Endpoint-discrete src c.nx ≡ some t
      → ltb (now - t) nx_ttl ≡ true
      → get_or_bind c now src bound ≡ (none, c)
  unfolding get_or_bind
  get_or_bind_fresh bound h k b = rw (get_or_bind, h, k, b)

  -- Binding is tried when there is no socket and no fresh failure.
  abbrev pub Tried : Type 0
  Tried =
      (get Endpoint-discrete src c.map ≡ none)
      × ((get Endpoint-discrete src c.nx ≡ none)
          ⊎ ((t : ℕ) × (get Endpoint-discrete src c.nx ≡ some t) × (ltb (now - t) nx_ttl ≡ false)))

  -- The failures at that time.
  get_or_bind_tried :
      (bound : Option ℕ)
      → Tried
      → (nx : List (Endpoint × ℕ)) × (get_or_bind c now src bound
          ≡ bind_spoof (record c { nx = nx }) now src bound)
  unfolding get_or_bind
  get_or_bind_tried bound (h, inl k) = (c.nx, rw (get_or_bind, h, k))
  get_or_bind_tried bound (h, inr (t, k, b)) =
      (remove Endpoint-discrete src c.nx, rw (get_or_bind, h, k, b))

  data Case (bound : Option ℕ) : Type 0 where
    there :
        (sock : ℕ)
        → get Endpoint-discrete src c.map ≡ some sock
        → get_or_bind c now src bound ≡ (some sock, c)
        → Case bound
    fresh :
        get Endpoint-discrete src c.map ≡ none
        → get_or_bind c now src bound ≡ (none, c)
        → Case bound
    tried :
        (nx : List (Endpoint × ℕ))
        → get Endpoint-discrete src c.map ≡ none
        → get_or_bind c now src bound ≡ bind_spoof (record c { nx = nx }) now src bound
        → Case bound

  outcome : (bound : Option ℕ) → Case bound
  outcome bound = elim (Option-cases (get Endpoint-discrete src c.map)) [
    | inr (sock, e) ↦ there sock e (get_or_bind_there bound e)
    | inl e ↦ elim (Option-cases (get Endpoint-discrete src c.nx)) [
      | inl f ↦ let (nx, r) = get_or_bind_tried bound (e, inl f) in tried nx e r
      | inr (t, f) ↦ elim (Bool-cases (ltb (now - t) nx_ttl)) [
        | inl b ↦ fresh e (get_or_bind_fresh bound e f b)
        | inr b ↦ let (nx, r) = get_or_bind_tried bound (e, inr (t, f, b)) in tried nx e r
      ]
    ]
  ]

  -- `get_or_bind` keeps the table valid, whatever binding gives.
  get_or_bind-IsValid : (bound : Option ℕ) → IsValid c → IsValid (get_or_bind c now src bound).1
  get_or_bind-IsValid bound v = elim (outcome bound) [
    | there sock e r ↦ subst (λ x. IsValid x.1) (sym r) v
    | fresh e r ↦ subst (λ x. IsValid x.1) (sym r) v
    | tried nx e r ↦
        subst (λ x. IsValid x.1) (sym r)
          (bind_spoof-IsValid (record c { nx = nx }) now src bound (forget-IsValid c nx v) e)
  ]

-- Calls one after the other, each with its time, its address and what binding would give.
unfoldable pub run : SpoofCache → List (ℕ × Endpoint × Option ℕ) → SpoofCache
run c [] = c
run c ((now, src, bound) ∷ calls) = run (get_or_bind c now src bound).1 calls

run-IsValid :
    (c : SpoofCache) (calls : List (ℕ × Endpoint × Option ℕ)) → IsValid c → IsValid (run c calls)
unfolding run
run-IsValid c [] v = v
run-IsValid c ((now, src, bound) ∷ calls) v =
    run-IsValid (get_or_bind c now src bound).1 calls (get_or_bind-IsValid c now src bound v)

-- Whatever is asked of a new table and whatever binding gives, the queue holds the addresses of the
-- sockets once each, and there are never more sockets than the capacity (one for a capacity of 0).
pub run-new-IsValid :
    (cap : ℕ) (calls : List (ℕ × Endpoint × Option ℕ)) → IsValid (run (new cap) calls)
run-new-IsValid cap calls = run-IsValid (new cap) calls (new-IsValid cap)

-- The answer is a socket that is given again.
Repeats : ℕ → Endpoint → Option ℕ → Option ℕ × SpoofCache → Type 0
Repeats later src bound' x = is_some x.0 ≡ true → get_or_bind x.1 later src bound' ≡ x

bind_spoof-Repeats :
    (c : SpoofCache) (now later : ℕ) (src : Endpoint) (bound bound' : Option ℕ)
    → Repeats later src bound' (bind_spoof c now src bound)
unfolding Repeats bind_spoof keep
bind_spoof-Repeats c now later src none bound' p = absurd (ground arith)
bind_spoof-Repeats c now later src (some sock) bound' p =
    get_or_bind_there (keep c src sock) later src bound'
      (get-insert_self Endpoint-discrete src sock (evict c).map)

get_or_bind-Repeats :
    (c : SpoofCache) (now later : ℕ) (src : Endpoint) (bound bound' : Option ℕ)
    → Repeats later src bound' (get_or_bind c now src bound)
unfolding Repeats
get_or_bind-Repeats c now later src bound bound' = elim (outcome c now src bound) [
  | there sock e r ↦
      subst (Repeats later src bound') (sym r) (λ p. get_or_bind_there c later src bound' e)
  | fresh e r ↦ subst (Repeats later src bound') (sym r) (λ p. absurd (ground arith))
  | tried nx e r ↦
      subst (Repeats later src bound') (sym r)
        (bind_spoof-Repeats (record c { nx = nx }) now later src bound bound')
]

-- A socket that was given out is given out again by the next call for the same address, at any
-- time and whatever binding would give, and that call changes nothing.
pub get_or_bind_again :
    (c : SpoofCache) (now later sock : ℕ) (src : Endpoint) (bound bound' : Option ℕ)
    (d : SpoofCache)
    → get_or_bind c now src bound ≡ (some sock, d)
    → get_or_bind d later src bound' ≡ (some sock, d)
unfolding Repeats
get_or_bind_again c now later sock src bound bound' d h =
    subst (Repeats later src bound') h (get_or_bind-Repeats c now later src bound bound') refl

-- An address that could not be bound is not tried again for two seconds, whatever binding would
-- give then, and the table does not change.
pub get_or_bind_failed :
    (c : SpoofCache) (now later : ℕ) (src : Endpoint) (bound : Option ℕ)
    → Tried c now src
    → later - now < 2000
    → (get_or_bind c now src none).0 ≡ none
      × (get_or_bind (get_or_bind c now src none).1 later src bound
          ≡ (none, (get_or_bind c now src none).1))
unfolding bind_spoof fail
get_or_bind_failed c now later src bound t h =
    let (nx, r) = get_or_bind_tried c now src none t in
    let d = record c { nx = nx } in
    let stays : get_or_bind (fail d now src) later src bound ≡ (none, fail d now src) =
      get_or_bind_fresh (fail d now src) later src bound t.0
        (get-insert_self Endpoint-discrete src now
          (if leb nx_cap (length nx) then retain (is_fresh now) nx else nx))
        (ground arith) in
    (ap (λ x. x.0) r, subst (λ x. get_or_bind x.1 later src bound ≡ (none, x.1)) (sym r) stays)

module _ (c : SpoofCache) (src k : Endpoint) (s : ℕ) {sock : ℕ} (ne : src ≢ k)
    (h : get Endpoint-discrete k c.map ≡ some sock) where
  stays_in : get Endpoint-discrete k (insert Endpoint-discrete src s c.map) ≡ some sock
  stays_in = get-insert_ne Endpoint-discrete src k s c.map ne ∙ h

  keep_loses :
      (get Endpoint-discrete k (keep c src s).map ≡ some sock)
      ⊎ ((c.cap ≤ length c.map) × ((rest : List Endpoint) × (c.order ≡ k ∷ rest)))
  unfolding keep evict
  keep_loses = elim (Bool-cases (leb c.cap (length c.map))) [
    | inr b ↦ inl (rw b stays_in)
    | inl b ↦ elim (List-cases c.order) [
      | inl e ↦ inl (rw (b, e) stays_in)
      | inr (o, os, e) ↦ elim (Endpoint-discrete o k) [
        | yes p ↦ inr (ground arith, (os, e ∙ ap (λ x. x ∷ os) p))
        | no n ↦ inl (
            rw (b, e)
              (get-insert_ne Endpoint-discrete src k s (remove Endpoint-discrete o c.map) ne
                ∙ get-remove_ne Endpoint-discrete o k c.map n
                ∙ h))
      ]
    ]
  ]

-- A socket is given up only as the oldest of a full table, when another address gets one.
pub get_or_bind_loses :
    (c : SpoofCache) (now : ℕ) (src k : Endpoint) (bound : Option ℕ) {sock : ℕ}
    → get Endpoint-discrete k c.map ≡ some sock
    → (get Endpoint-discrete k (get_or_bind c now src bound).1.map ≡ some sock)
      ⊎ ((get Endpoint-discrete src c.map ≡ none)
          × (is_some bound ≡ true)
          × (c.cap ≤ length c.map)
          × ((rest : List Endpoint) × (c.order ≡ k ∷ rest)))
unfolding bind_spoof keep fail evict
get_or_bind_loses c now src k bound {sock} h = elim (outcome c now src bound) [
  | there s e r ↦ inl (ap (λ x. get Endpoint-discrete k x.1.map) r ∙ h)
  | fresh e r ↦ inl (ap (λ x. get Endpoint-discrete k x.1.map) r ∙ h)
  | tried nx e r ↦ elim (Option-cases bound) [
    | inl b ↦ inl (
        ap (λ x. get Endpoint-discrete k x.1.map)
          (r ∙ ap (bind_spoof (record c { nx = nx }) now src) b)
        ∙ h)
    | inr (s, b) ↦
        elim (keep_loses (record c { nx = nx }) src k s
          (λ p. ground (arith, ap (λ x. get Endpoint-discrete x c.map) p)) h) [
            | inl g ↦ inl (
                ap (λ x. get Endpoint-discrete k x.1.map)
                  (r ∙ ap (bind_spoof (record c { nx = nx }) now src) b)
                ∙ g)
            | inr (full, rest) ↦ inr (e, ap is_some b, full, rest)
          ]
  ]
]
