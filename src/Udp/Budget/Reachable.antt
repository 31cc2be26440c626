-- ===== src/Udp/Budget/Reachable.antt =====
-- Every state that acquisitions and ends of permits can reach, in any order.
use pao_pao_gate_way.Common.{
  subst, ℕ, ◌-◌, ◌<◌, ◌≡◌, ◌↔◌, refl, Bool, true, false, List, [], ◌∷◌, ◌++◌, arith, none, some,
  if◌then◌else◌, is_some,
}
use pao_pao_gate_way.Common.Maps.{get}
use pao_pao_gate_way.Common.Net.{IpAddr}
use pao_pao_gate_way.Udp.Budget.{
  Budget, Permit, Client, Client-discrete as dec, new, acquire, acquire_with_headroom, drop_permit,
}
use pao_pao_gate_way.Udp.Budget.Ledger.{
  Balances, count, class_count, acquire-Balances, drop-Balances, held_by-count,
}

-- A budget with the permits that are held.
pub record System : Type 0 where
  pub budget : Budget
  pub held : List Permit

pub data Step : System → System → Type 0 where
  acquired :
      {s : System} (ip : IpAddr) (internal : Bool) (headroom client_headroom : ℕ) {b : Budget}
      {p : Permit}
      → acquire_with_headroom s.budget ip internal headroom client_headroom ≡ (b, some p)
      → Step s (record { budget = b; held = p ∷ s.held })
  dropped :
      {s : System} (p : Permit) (xs ys : List Permit) {b : Budget}
      → s.held ≡ xs ++ p ∷ ys
      → drop_permit s.budget p ≡ some b
      → Step s (record { budget = b; held = xs ++ ys })

pub data Reach (s : System) : System → Type 0 where
  here : Reach s s
  next : {t u : System} → Reach s t → Step t u → Reach s u

unfoldable pub start : ℕ → ℕ → ℕ → System
start users internal per_client = record { budget = new users internal per_client; held = [] }

abbrev IsBalanced : System → Type 0
IsBalanced s = Balances s.budget s.held

Step-IsBalanced : {s t : System} → Step s t → IsBalanced s → IsBalanced t
Step-IsBalanced (acquired ip internal h ch e) v = acquire-Balances ip internal h ch v e
Step-IsBalanced (dropped {s} p xs ys {b} held e) v =
    let (b', e', w) = drop-Balances p xs ys (subst (Balances s.budget) held v) in
    let q : b' ≡ b = cc in subst (λ x. Balances x (xs ++ ys)) q w

start-IsBalanced : (users internal per_client : ℕ) → IsBalanced (start users internal per_client)
unfolding start new count class_count get
start-IsBalanced users internal per_client = record {
  classes = λ c. ground arith;
  entries = λ k. refl;
  distinct = tt;
  within = λ c. ground arith;
  fair = λ k. omega arith;
}

-- In every state that can be reached from a new budget the counters are those of the permits held:
-- in each class, and for each client in each class. They stay within the limits, and a client
-- without permits has no entry.
pub Reach-IsBalanced :
    (users internal per_client : ℕ) {s : System}
    → Reach (start users internal per_client) s
    → IsBalanced s
Reach-IsBalanced users internal per_client here = start-IsBalanced users internal per_client
Reach-IsBalanced users internal per_client (next r st) =
    Step-IsBalanced st (Reach-IsBalanced users internal per_client r)

-- The limits never change.
pub Reach-limits :
    {s t : System}
    → Reach s t
    → (t.budget.limits ≡ s.budget.limits) × (t.budget.per_client ≡ s.budget.per_client)
unfolding acquire_with_headroom drop_permit
Reach-limits here = (refl, refl)
Reach-limits (next r (acquired ip internal h ch e)) = ground (arith, Reach-limits r)
Reach-limits (next r (dropped p xs ys held e)) = ground (arith, Reach-limits r)

empty_of_none : (m : List (Client × ℕ)) → ((k : Client) → get dec k m ≡ none) → m ≡ []
unfolding get
empty_of_none [] h = refl
empty_of_none ((k, n) ∷ m) h = ground (arith, h k)

-- A permit that is held can always be given back: neither the subtractions nor the lookup panic.
pub drop_permit_total :
    (users internal per_client : ℕ) {s : System} (p : Permit) (xs ys : List Permit)
    → Reach (start users internal per_client) s
    → s.held ≡ xs ++ p ∷ ys
    → is_some (drop_permit s.budget p) ≡ true
drop_permit_total users internal per_client {s} p xs ys r held =
    let v = Reach-IsBalanced users internal per_client r in
    ground (arith, (drop-Balances p xs ys (subst (Balances s.budget) held v)).1)

idle_budget :
    {b : Budget} → Balances b [] → (b.used.user ≡ 0) × (b.used.internal ≡ 0) × (b.clients ≡ [])
unfolding count class_count
idle_budget {b} v = (v.classes false, v.classes true, empty_of_none b.clients (λ k. v.entries k))

-- A budget that can be reached and of which no permit is held is as new: nothing is used and no
-- client has an entry.
pub Reach-idle :
    (users internal per_client : ℕ) {s : System}
    → Reach (start users internal per_client) s
    → s.held ≡ []
    → s.budget ≡ new users internal per_client
unfolding start new
Reach-idle users internal per_client {s} r e =
    let v = Reach-IsBalanced users internal per_client r in
    ground (arith, Reach-limits r, idle_budget (subst (Balances s.budget) e v))

granted_iff :
    (users internal per_client : ℕ) {s : System} (ip : IpAddr) (class : Bool)
    (headroom client_headroom : ℕ)
    → Reach (start users internal per_client) s
    → (is_some (acquire_with_headroom s.budget ip class headroom client_headroom).1 ≡ true) ↔ (
        (class_count class s.held < (if class then internal else users) - headroom)
        × (count (ip, class) s.held < per_client - client_headroom))
unfolding acquire_with_headroom start new
granted_iff users internal per_client {s} ip class headroom client_headroom r =
    let v = Reach-IsBalanced users internal per_client r in
    let l = Reach-limits r in
    (
      λ h. (
        ground (arith, v.classes class, held_by-count v (ip, class)),
        ground (arith, v.classes class, held_by-count v (ip, class)),
      ),
      λ h. ground (arith, v.classes class, held_by-count v (ip, class)),
    )

-- A permit is granted exactly if its class and its client hold fewer than their limits less the
-- headroom asked for: what the other class and the other clients hold plays no part. Without a
-- headroom asked for, with `acquire`, the limits are the whole ones.
pub acquire_iff :
    (users internal per_client : ℕ) {s : System} (ip : IpAddr) (class : Bool)
    (headroom client_headroom : ℕ)
    → Reach (start users internal per_client) s
    → ((is_some (acquire_with_headroom s.budget ip class headroom client_headroom).1 ≡ true) ↔ (
        (class_count class s.held < (if class then internal else users) - headroom)
        × (count (ip, class) s.held < per_client - client_headroom)))
      × ((is_some (acquire s.budget ip class).1 ≡ true) ↔ (
          (class_count class s.held < (if class then internal else users))
          × (count (ip, class) s.held < per_client)))
unfolding acquire
acquire_iff users internal per_client {s} ip class headroom client_headroom r =
    let w = granted_iff users internal per_client ip class 0 0 r in
    (
      granted_iff users internal per_client ip class headroom client_headroom r,
      (
        λ h. let (a, b) = w.0 h in (omega (arith, a), omega (arith, b)),
        λ (a, b). w.1 (omega (arith, a), omega (arith, b)),
      ),
    )
