-- ===== src/Web/Gates.antt =====
-- sniffbox/crates/sb-web/src/gate.rs: one request for each key at a time. The set of keys is behind a
-- lock that a call holds to its end.
use pao_pao_gate_way.Common.{
  ℕ, ◌+◌, ◌≤◌, ◌≡◌, ◌↔◌, refl, ap, sym, ◌∙◌, false, List, [], ◌∷◌, ◌++◌, Option, none, some, arith,
  ite, is_some, if◌then◌else◌, Bool-cases, inl, inr,
}
use pao_pao_gate_way.Common.Bytes.{Bytes, Bytes-discrete}
use pao_pao_gate_way.Common.Maps.{get, insert, remove, contains_key, get-insert, get-remove}

abbrev pub Keys : Type 0
Keys = List (Bytes × Unit {0})

unfoldable pub try_acquire : Keys → Bytes → Option Keys
try_acquire set key =
    if contains_key Bytes-discrete key set then none else some (insert Bytes-discrete key tt set)

unfoldable pub drop_gate : Keys → Bytes → Keys
drop_gate set key = remove Bytes-discrete key set

-- The set, and the keys of the gates that are held, which may be let go in any order.
pub data Reach : Keys → List Bytes → Type 0 where
  start : Reach [] []
  acquired :
      {set set' : Keys} {held : List Bytes} (key : Bytes)
      → Reach set held
      → try_acquire set key ≡ some set'
      → Reach set' (key ∷ held)
  dropped :
      {set : Keys} (before : List Bytes) (key : Bytes) (after : List Bytes)
      → Reach set (before ++ key ∷ after)
      → Reach (drop_gate set key) (before ++ after)

abbrev pub times : Bytes → List Bytes → ℕ
times key [] = 0
times key (k ∷ ks) = ite (Bytes-discrete k key) 1 0 + times key ks

times-append :
    (key : Bytes) (xs ys : List Bytes) → times key (xs ++ ys) ≡ times key xs + times key ys
times-append key [] ys = omega arith
times-append key (x ∷ xs) ys = omega (arith, times-append key xs ys)

abbrev marks : Bytes → Keys → ℕ
marks key set = if contains_key Bytes-discrete key set then 1 else 0

marks-insert :
    (set : Keys) (key k : Bytes)
    → contains_key Bytes-discrete key set ≡ false
    → marks k (insert Bytes-discrete key tt set) ≡ ite (Bytes-discrete key k) 1 0 + marks k set
marks-insert set key k e =
    ap (λ o. if is_some o then 1 else 0) (get-insert Bytes-discrete key k tt set)
    ∙ decided (Bytes-discrete key k)
  where
    decided :
        (d : Dec (key ≡ k))
        → (if is_some (ite d (some tt) (get Bytes-discrete k set)) then 1 else 0)
          ≡ ite d 1 0 + marks k set
    decided (yes p) =
        ap (λ b. 1 + (if b then 1 else 0)) (sym e ∙ ap (λ x. contains_key Bytes-discrete x set) p)
    decided (no p) = omega arith

marks-drop_gate :
    (set : Keys) (key k : Bytes)
    → marks k (drop_gate set key) ≡ ite (Bytes-discrete key k) 0 (marks k set)
unfolding drop_gate
marks-drop_gate set key k =
    ap (λ o. if is_some o then 1 else 0) (get-remove Bytes-discrete key k set)
    ∙ decided (Bytes-discrete key k)
  where
    decided :
        (d : Dec (key ≡ k))
        → (if is_some (ite d none (get Bytes-discrete k set)) then 1 else 0) ≡ ite d 0 (marks k set)
    decided (yes p) = refl
    decided (no p) = refl

marks-le : (k : Bytes) (set : Keys) → marks k set ≤ 1
marks-le k set = ground arith

dropped_times :
    (key k : Bytes) (n m : ℕ)
    → n + ite (Bytes-discrete key k) 1 0 ≡ m
    → m ≤ 1
    → n ≡ ite (Bytes-discrete key k) 0 m
dropped_times key k n m h l = ground arith

marks-try_acquire :
    (set : Keys) {set' : Keys} (key k : Bytes)
    → try_acquire set key ≡ some set'
    → marks k set' ≡ ite (Bytes-discrete key k) 1 0 + marks k set
unfolding try_acquire
marks-try_acquire set {set'} key k h = elim (Bool-cases (contains_key Bytes-discrete key set)) [
  | inl e ↦ absurd (ground (arith, h, e))
  | inr e ↦
      let p : set' ≡ insert Bytes-discrete key tt set = ground (arith, h, e) in
      ap (marks k) p ∙ marks-insert set key k e
]

Reach-marks :
    {set : Keys} {held : List Bytes} (k : Bytes) → Reach set held → times k held ≡ marks k set
unfolding get
Reach-marks k start = refl
Reach-marks k (acquired {set = s} {set' = s'} {held = h} key r e) =
    omega (arith, Reach-marks k r, marks-try_acquire s key k e)
Reach-marks k (dropped {set = s} before key after r) =
    dropped_times key k (times k (before ++ after)) (marks k s)
      (omega
        (arith, times-append k before after, times-append k before (key ∷ after), Reach-marks k r))
      (marks-le k s)
    ∙ sym (marks-drop_gate s key k)

-- However gates are taken and let go, no key is held twice, and a request is refused exactly while
-- its key is held.
pub try_acquire_iff :
    {set : Keys} {held : List Bytes} (key : Bytes)
    → Reach set held
    → (times key held ≤ 1) × ((try_acquire set key ≡ none) ↔ (times key held ≡ 1))
unfolding try_acquire
try_acquire_iff {set} {held} key r =
    let m = Reach-marks key r in
    elim (Bool-cases (contains_key Bytes-discrete key set)) [
      | inl e ↦ (ground (arith, m, e), (λ n. ground (arith, m, e), λ n. rw e refl))
      | inr e ↦ (
        ground (arith, m, e),
        (λ n. absurd (ground (arith, n, e)), λ n. absurd (ground (arith, m, n, e))),
      )
    ]
