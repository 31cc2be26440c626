-- ===== src/Udp/Budget/Ledger.antt =====
-- The counters against the permits that are held.
use pao_pao_gate_way.Common.{subst, sym}
use pao_pao_gate_way.Common.{
  ℕ, ◌+◌, ◌-◌, ◌≤◌, ◌<◌, ◌≡◌, ◌≢◌, refl, Bool, true, false, List, [], ◌∷◌, ◌++◌, arith, Option,
  none, some, ◌==◌, if◌then◌else◌, ite, if_pos, if_neg,
}
use pao_pao_gate_way.Common.Maps.{
  Distinct, get, insert, remove, Distinct-insert, Distinct-remove, get-insert_self, get-insert_ne,
  get-remove_self, get-remove_ne,
}
use pao_pao_gate_way.Common.Net.{IpAddr}
use pao_pao_gate_way.Udp.Budget.{
  Budget, Permit, Client, Client-discrete as dec, client, at_class, set_class, held_by,
  acquire_with_headroom, drop_permit,
}

-- How many permits are held by a client, and in a class.
unfoldable pub count : Client → List Permit → ℕ
count k [] = 0
count k (p ∷ ps) = ite (dec (client p) k) 1 0 + count k ps

unfoldable pub class_count : Bool → List Permit → ℕ
class_count c [] = 0
class_count false (p ∷ ps) = (if p.internal then 0 else 1) + class_count false ps
class_count true (p ∷ ps) = (if p.internal then 1 else 0) + class_count true ps

abbrev pub entry : ℕ → Option ℕ
entry n = if n == 0 then none else some n

-- The counters are those of the permits held, within the limits, and no client has a zero entry.
pub record Balances (b : Budget) (held : List Permit) : Type 0 where
  pub classes : (c : Bool) → at_class b.used c ≡ class_count c held
  pub entries : (k : Client) → get dec k b.clients ≡ entry (count k held)
  pub distinct : Distinct dec b.clients
  pub within : (c : Bool) → at_class b.used c ≤ at_class b.limits c
  pub fair : (k : Client) → count k held ≤ b.per_client

count-middle :
    (k : Client) (p : Permit) (xs ys : List Permit)
    → count k (xs ++ p ∷ ys) ≡ ite (dec (client p) k) 1 0 + count k (xs ++ ys)
unfolding count
count-middle k p [] ys = refl
count-middle k p (x ∷ xs) ys = omega (arith, count-middle k p xs ys)

class_count-middle :
    (c : Bool) (p : Permit) (xs ys : List Permit)
    → class_count c (xs ++ p ∷ ys) ≡ class_count c (p ∷ []) + class_count c (xs ++ ys)
unfolding class_count
class_count-middle false p [] ys = omega arith
class_count-middle true p [] ys = omega arith
class_count-middle false p (x ∷ xs) ys = omega (arith, class_count-middle false p xs ys)
class_count-middle true p (x ∷ xs) ys = omega (arith, class_count-middle true p xs ys)

class_count-cons :
    (c : Bool) (p : Permit) (ps : List Permit)
    → class_count c (p ∷ ps) ≡ class_count c (p ∷ []) + class_count c ps
unfolding class_count
class_count-cons false p ps = omega arith
class_count-cons true p ps = omega arith

count_cons_self :
    (p : Permit) (ps : List Permit) → count (client p) (p ∷ ps) ≡ count (client p) ps + 1
unfolding count
count_cons_self p ps = rw (if_pos {C = ℕ} (dec (client p) (client p)) refl 1 0) (omega arith)

count_cons_ne :
    (k : Client) (p : Permit) (ps : List Permit) → client p ≢ k → count k (p ∷ ps) ≡ count k ps
unfolding count
count_cons_ne k p ps h = rw (if_neg {C = ℕ} (dec (client p) k) h 1 0) (omega arith)

abbrev grant : Budget → Permit → Budget
grant b p = record b {
  used = set_class b.used p.internal (at_class b.used p.internal + 1);
  clients = insert dec (client p) (held_by b (client p) + 1) b.clients;
}

pub held_by-count :
    {b : Budget} {held : List Permit} → Balances b held → (k : Client) → held_by b k ≡ count k held
held_by-count {b} v k = ground (arith, v.entries k)

grant-classes :
    {b : Budget} {held : List Permit} (p : Permit)
    → Balances b held
    → (c : Bool) → at_class (grant b p).used c ≡ class_count c (p ∷ held)
unfolding class_count
grant-classes {b} p v false = ground (arith, v.classes false)
grant-classes {b} p v true = ground (arith, v.classes true)

grant-entries :
    {b : Budget} {held : List Permit} (p : Permit)
    → Balances b held
    → (k : Client) → get dec k (grant b p).clients ≡ entry (count k (p ∷ held))
grant-entries {b} {held} p v k = elim (dec (client p) k) [
  | yes e ↦ rw (← e) (
      ground (
        arith,
        get-insert_self dec (client p) (held_by b (client p) + 1) b.clients,
        count_cons_self p held,
        held_by-count v (client p),
      ))
  | no n ↦ ground (
    arith,
    get-insert_ne dec (client p) k (held_by b (client p) + 1) b.clients n,
    count_cons_ne k p held n,
    v.entries k,
  )
]

grant-Balances :
    {b : Budget} {held : List Permit} (p : Permit)
    → Balances b held
    → at_class b.used p.internal < at_class b.limits p.internal
    → held_by b (client p) < b.per_client
    → Balances (grant b p) (p ∷ held)
grant-Balances {b} {held} p v room share = record {
  classes = grant-classes p v;
  entries = grant-entries p v;
  distinct = Distinct-insert dec (client p) _ b.clients v.distinct;
  within = λ c. ground (arith, v.within false, v.within true);
  fair = λ k. elim (dec (client p) k) [
    | yes e ↦ rw (← e) (ground (arith, count_cons_self p held, held_by-count v (client p)))
    | no n ↦ ground (arith, count_cons_ne k p held n, v.fair k)
  ];
}

abbrev Granted : Budget → Permit → ℕ → ℕ → Budget → Type 0
Granted b p headroom client_headroom b' =
    (at_class b.used p.internal < at_class b.limits p.internal - headroom)
    × (held_by b (client p) < b.per_client - client_headroom)
    × (b' ≡ grant b p)

pub acquire-Granted :
    (b : Budget) (ip : IpAddr) (internal : Bool) (headroom client_headroom : ℕ) {b' : Budget}
    {p : Permit}
    → acquire_with_headroom b ip internal headroom client_headroom ≡ (b', some p)
    → (p ≡ record { ip = ip; internal = internal }) × Granted b p headroom client_headroom b'
unfolding acquire_with_headroom
acquire-Granted b ip internal headroom client_headroom {b'} {p} e =
    let q : p ≡ record { ip = ip; internal = internal } = ground arith in
    (q, rw q (ground arith, ground arith, ground arith))

-- An acquisition that succeeds adds its permit to those held.
pub acquire-Balances :
    {b : Budget} {held : List Permit} (ip : IpAddr) (internal : Bool) (headroom client_headroom : ℕ)
    {b' : Budget} {p : Permit}
    → Balances b held
    → acquire_with_headroom b ip internal headroom client_headroom ≡ (b', some p)
    → Balances b' (p ∷ held)
acquire-Balances {b} {held} ip internal headroom client_headroom {b'} {p} v e =
    let g = (acquire-Granted b ip internal headroom client_headroom e).1 in
    subst (λ x. Balances x (p ∷ held)) (sym g.2) (grant-Balances p v (omega arith) (omega arith))

released : Budget → Permit → Budget
released b p = record b {
  used = set_class b.used p.internal (at_class b.used p.internal - 1);
  clients =
      if (held_by b (client p) - 1) == 0
      then remove dec (client p) b.clients
      else insert dec (client p) (held_by b (client p) - 1) b.clients;
}

Balances-middle :
    {b : Budget} (p : Permit) (xs ys : List Permit)
    → Balances b (xs ++ p ∷ ys)
    → Balances b (p ∷ (xs ++ ys))
unfolding count
Balances-middle p xs ys v = record {
  classes = λ c.
      ground (arith, v.classes c, class_count-middle c p xs ys, class_count-cons c p (xs ++ ys));
  entries = λ k. rw (← count-middle k p xs ys) (v.entries k);
  distinct = v.distinct;
  within = v.within;
  fair = λ k. omega (arith, v.fair k, count-middle k p xs ys);
}

released_lem :
    {b : Budget} {held : List Permit} (p : Permit)
    → Balances b (p ∷ held)
    → drop_permit b p ≡ some (released b p)
unfolding drop_permit released class_count
released_lem {b} {held} p v =
    ground (arith, v.entries (client p), count_cons_self p held, v.classes false, v.classes true)

released-entries :
    {b : Budget} {held : List Permit} (p : Permit)
    → Balances b (p ∷ held)
    → (k : Client) → get dec k (released b p).clients ≡ entry (count k held)
unfolding released
released-entries {b} {held} p v k = elim (dec (client p) k) [
  | yes e ↦ rw (← e) (
      ground (
        arith,
        v.entries (client p),
        count_cons_self p held,
        get-insert_self dec (client p) (held_by b (client p) - 1) b.clients,
        get-remove_self dec (client p) b.clients,
      ))
  | no n ↦ ground (
    arith,
    v.entries k,
    count_cons_ne k p held n,
    get-insert_ne dec (client p) k (held_by b (client p) - 1) b.clients n,
    get-remove_ne dec (client p) k b.clients n,
  )
]

released-Balances :
    {b : Budget} {held : List Permit} (p : Permit)
    → Balances b (p ∷ held)
    → Balances (released b p) held
unfolding class_count released
released-Balances {b} {held} p v = record {
  classes = λ c. ground (arith, v.classes false, v.classes true);
  entries = released-entries p v;
  distinct = ground (
    arith,
    Distinct-insert dec (client p) (held_by b (client p) - 1) b.clients v.distinct,
    Distinct-remove dec (client p) b.clients v.distinct,
  );
  within = λ c. ground (arith, v.within false, v.within true);
  fair = λ k. elim (dec (client p) k) [
    | yes e ↦ rw (← e) (ground (arith, count_cons_self p held, v.fair (client p)))
    | no n ↦ ground (arith, count_cons_ne k p held n, v.fair k)
  ];
}

-- The end of a permit that is held does not panic, and takes just that permit from those held.
pub drop-Balances :
    {b : Budget} (p : Permit) (xs ys : List Permit)
    → Balances b (xs ++ p ∷ ys)
    → (b' : Budget) × (drop_permit b p ≡ some b') × Balances b' (xs ++ ys)
drop-Balances {b} p xs ys v =
    let w = Balances-middle p xs ys v in (released b p, released_lem p w, released-Balances p w)
