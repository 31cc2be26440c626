-- ===== src/Web/Router/Targets.antt =====
-- Where a request for the delays of a group goes.
use pao_pao_gate_way.Common.{
  ℕ, ◌≡◌, refl, sym, ap, ◌∙◌, true, false, ◌||◌, List, [], ◌∷◌, ◌++◌, some, arith, length, map,
  drop, ◌==◌, Bool-cases, List-cases, inl, inr,
}
use pao_pao_gate_way.Common.Bytes.{Bytes, bytes_eq, bytes_eq_iff, starts_with}
use pao_pao_gate_way.Common.Text.{to_ascii_lowercase}
use pao_pao_gate_way.Sniff.Http.{eq_ignore_ascii_case}
use pao_pao_gate_way.Web.Tokens.{prefix_iff}
use pao_pao_gate_way.Web.Router.{
  proxy_clash, split, non_empty, segments, fits, clash_allowed, is_configs, classify, group_of,
  group_delay_target, group, delay, get, post, patch, configs, configs_slash, ui, ui_files,
  data_root, data_files, sniffbox, sniffbox_files,
}

split-cons : (c : ℕ) (bs : Bytes) → (p : Bytes) × (ps : List Bytes) × (split c bs ≡ p ∷ ps)
unfolding split
split-cons c [] = ([], [], refl)
split-cons c (b ∷ bs) =
    let (p, ps, e) = split-cons c bs in
    elim (Bool-cases (b == c)) [
      | inl k ↦ ([], p ∷ ps, rw (e, k) refl)
      | inr k ↦ (b ∷ p, ps, rw (e, k) refl)
    ]

starts_with-rest : (p s : Bytes) → starts_with s p ≡ true → (tok : Bytes) × (s ≡ p ++ tok)
starts_with-rest p s h = (drop (length p) s, (prefix_iff p s (drop (length p) s)).0 (rw h refl))

heads : {x y : Bytes} {xs ys : List Bytes} → x ∷ xs ≡ y ∷ ys → x ≡ y
heads h = ground (arith, h)

group_of-some :
    (segs : List Bytes) (n : Bytes)
    → group_of segs ≡ some n
    → (name : Bytes) × (segs ≡ group ∷ name ∷ delay ∷ []) × ((length name == 0) ≡ false)
group_of-some [] n h = absurd (ground arith)
group_of-some (a ∷ []) n h = absurd (ground arith)
group_of-some (a ∷ b ∷ []) n h = absurd (ground arith)
group_of-some (a ∷ b ∷ c ∷ d ∷ segs) n h = absurd (ground arith)
group_of-some (a ∷ name ∷ b ∷ []) n h =
    let p : bytes_eq a group ≡ true = ground arith in
    let q : bytes_eq b delay ≡ true = ground arith in
    (name, rw ((bytes_eq_iff a group).0 p, (bytes_eq_iff b delay).0 q) refl, ground arith)

under_ui :
    (rest : Bytes) → (ss : List Bytes) × (segments (ui_files ++ rest) ≡ (b'u' ∷ b'i' ∷ []) ∷ ss)
unfolding segments split non_empty
under_ui rest = let (p, ps, e) = split-cons b'/' rest in (non_empty (p ∷ ps), rw e refl)

under_data :
    (rest : Bytes)
    → (ss : List Bytes) × (segments (data_files ++ rest) ≡ (b'd' ∷ b'a' ∷ b't' ∷ b'a' ∷ []) ∷ ss)
unfolding segments split non_empty
under_data rest = let (p, ps, e) = split-cons b'/' rest in (non_empty (p ∷ ps), rw e refl)

under_sniffbox :
    (rest : Bytes)
    → (ss : List Bytes) × (segments (sniffbox_files ++ rest)
        ≡ (b's' ∷ b'n' ∷ b'i' ∷ b'f' ∷ b'f' ∷ b'b' ∷ b'o' ∷ b'x' ∷ []) ∷ ss)
unfolding segments split non_empty
under_sniffbox rest = let (p, ps, e) = split-cons b'/' rest in (non_empty (p ∷ ps), rw e refl)

-- A path whose first piece is `group` and that has others is none that is told apart before.
module _ (path name : Bytes) (h : segments path ≡ group ∷ name ∷ delay ∷ []) where
  not_exactly : (q : Bytes) → ¬ segments q ≡ group ∷ name ∷ delay ∷ [] → bytes_eq path q ≡ false
  not_exactly q k = elim (Bool-cases (bytes_eq path q)) [
    | inl e ↦ absurd (k (ap segments (sym ((bytes_eq_iff path q).0 e)) ∙ h))
    | inr e ↦ e
  ]

  not_under :
      (q w : Bytes)
      → ((rest : Bytes) → (ss : List Bytes) × (segments (q ++ rest) ≡ w ∷ ss))
      → ¬ w ≡ group
      → starts_with path q ≡ false
  not_under q w under k = elim (Bool-cases (starts_with path q)) [
    | inl e ↦
        let (rest, p) = starts_with-rest q path e in
        let (ss, r) = under rest in absurd (k (heads (sym r ∙ ap segments (sym p) ∙ h)))
    | inr e ↦ e
  ]

  not_empty : (length path == 0) ≡ false
  unfolding segments split non_empty
  not_empty = elim (List-cases path) [
    | inl e ↦ absurd (ground (arith, ap segments (sym e) ∙ h))
    | inr (b, bs, e) ↦ rw e (ground arith)
  ]

  exact :
      (bytes_eq path (b'/' ∷ []) ≡ false)
      × (bytes_eq path ui ≡ false)
      × (bytes_eq path data_root ≡ false)
      × (bytes_eq path sniffbox ≡ false)
      × (bytes_eq path configs ≡ false)
      × (bytes_eq path configs_slash ≡ false)
  unfolding segments split non_empty
  exact = (
    not_exactly (b'/' ∷ []) (λ k. ground (arith, k)),
    not_exactly ui (λ k. ground (arith, k)),
    not_exactly data_root (λ k. ground (arith, k)),
    not_exactly sniffbox (λ k. ground (arith, k)),
    not_exactly configs (λ k. ground (arith, k)),
    not_exactly configs_slash (λ k. ground (arith, k)),
  )

  under :
      (starts_with path ui_files ≡ false)
      × (starts_with path data_files ≡ false)
      × (starts_with path sniffbox_files ≡ false)
  under = (
    not_under ui_files _ under_ui (λ k. ground (arith, k)),
    not_under data_files _ under_data (λ k. ground (arith, k)),
    not_under sniffbox_files _ under_sniffbox (λ k. ground (arith, k)),
  )

  allowed :
      (method : Bytes)
      → eq_ignore_ascii_case method get ≡ true
      → (length name == 0) ≡ false
      → clash_allowed method path ≡ true
  unfolding clash_allowed fits bytes_eq
  allowed method g n = rw (h, g, n) (ground arith)

other_method :
    (method : Bytes)
    → eq_ignore_ascii_case method get ≡ true
    → (eq_ignore_ascii_case method post ≡ false) × (eq_ignore_ascii_case method patch ≡ false)
unfolding eq_ignore_ascii_case bytes_eq
other_method method g =
    let e = (bytes_eq_iff (map to_ascii_lowercase method) (map to_ascii_lowercase get)).0 g in
    (rw e refl, rw e refl)

classified :
    (method path : Bytes)
    → bytes_eq path (b'/' ∷ []) ≡ false
    → (length path == 0) ≡ false
    → bytes_eq path ui ≡ false
    → starts_with path ui_files ≡ false
    → (bytes_eq path data_root || starts_with path data_files) ≡ false
    → (bytes_eq path sniffbox || starts_with path sniffbox_files) ≡ false
    → eq_ignore_ascii_case method post ≡ false
    → is_configs path ≡ false
    → clash_allowed method path ≡ true
    → classify method path ≡ proxy_clash
unfolding classify
classified method path a b c d e f g h i = rw (c, d, e, f, g, h, i, a, b) (ground arith)

asked :
    (method path : Bytes) {name : Bytes}
    → group_delay_target method path ≡ some name
    → (eq_ignore_ascii_case method get ≡ true) × (group_of (segments path) ≡ some name)
unfolding group_delay_target
asked method path {name} h = elim (Bool-cases (eq_ignore_ascii_case method get)) [
  | inl e ↦ (e, ground (arith, h, e))
  | inr e ↦ absurd (ground (arith, h, e))
]

-- What is taken for a request for the delays of a group goes to the proxy, whatever the group.
pub classify-group_delay_target :
    (method path : Bytes) {name : Bytes}
    → group_delay_target method path ≡ some name
    → classify method path ≡ proxy_clash
classify-group_delay_target method path {name} h =
    let (g, some_group) = asked method path h in
    let (piece, e, full) = group_of-some (segments path) name some_group in
    let (root, at_ui, at_data, at_sniffbox, at_configs, at_slash) = exact path piece e in
    let (in_ui, in_data, in_sniffbox) = under path piece e in
    classified method path root (not_empty path piece e) at_ui in_ui (rw (at_data, in_data) refl)
      (rw (at_sniffbox, in_sniffbox) refl) (other_method method g).0
      (rw (at_configs, at_slash) refl) (allowed path piece e method g full)
