-- ===== src/Stats/Table/Sweeps.antt =====
-- What `sweep_recency` leaves in the table.
use pao_pao_gate_way.Common.{
  ℕ, ◌+◌, ◌≤◌, ◌≡◌, refl, ap, subst, sym, ◌∙◌, false, List, none, some, arith, ◌==◌, if◌then◌else◌,
  length, is_some, ℕ_discrete, Option-cases, inl, inr,
}
use pao_pao_gate_way.Common.Maps.{get, Distinct}
use pao_pao_gate_way.Common.Recency.{length-excess}
use pao_pao_gate_way.Common.Trims.{
  stamps, stamp, remove_all, trim, get-remove_all, get-stamps, Distinct-stamps, Distinct-trim,
  all-Stamped, get-trim_untimed, trim_order, length-trim, length-stamps-trim, length-remove_all,
  stamps-remove_all-le,
}
use pao_pao_gate_way.Stats.Records.{ConnRecord}
use pao_pao_gate_way.Stats.Table.{ConnTable, closed_stamp, stale_stamp, is_stale, sweep_recency}

module _ (t : ConnTable) (now max_closed stale_h : ℕ) (d : Distinct ℕ_discrete t.inner) where
  trimmed : List (ℕ × ConnRecord)
  trimmed = trim ℕ_discrete closed_stamp max_closed t.inner

  stale_active : List (ℕ × ℕ)
  stale_active = stamps (stale_stamp now stale_h) t.inner

  after : List (ℕ × ConnRecord)
  unfolding trimmed stale_active
  after = remove_all ℕ_discrete stale_active trimmed

  swept : (sweep_recency t now max_closed stale_h).0.inner ≡ after
  unfolding sweep_recency trim after
  swept = refl

  get-after :
      (id : ℕ) (r : ConnRecord)
      → get ℕ_discrete id t.inner ≡ some r
      → get ℕ_discrete id after
        ≡ (if is_some (stale_stamp now stale_h r) then none else get ℕ_discrete id trimmed)
  unfolding after
  get-after id r h =
      get-remove_all ℕ_discrete id stale_active trimmed
      ∙ ap (λ o. if is_some o then none else get ℕ_discrete id trimmed)
          (get-stamps ℕ_discrete (stale_stamp now stale_h) id t.inner d
            ∙ ap (stamp ℕ_discrete (stale_stamp now stale_h)) h)

  open_kept :
      (id : ℕ) (r : ConnRecord)
      → get ℕ_discrete id t.inner ≡ some r
      → r.closed_ms ≡ 0
      → get ℕ_discrete id trimmed ≡ some r
  unfolding trimmed closed_stamp
  open_kept id r h o =
      get-trim_untimed ℕ_discrete closed_stamp max_closed t.inner d id r h (ground arith)

  stale_open : (id u : ℕ) (r : ConnRecord) → stale_stamp now stale_h r ≡ some u → r.closed_ms ≡ 0
  unfolding stale_stamp
  stale_open id u r h = ground arith

  stale_there :
      (id u : ℕ)
      → get ℕ_discrete id stale_active ≡ some u
      → stamp ℕ_discrete (stale_stamp now stale_h) (get ℕ_discrete id trimmed) ≡ some u
  unfolding stale_active
  stale_there id u h = elim (Option-cases (get ℕ_discrete id t.inner)) [
    | inl e ↦ ground (arith, h, e, get-stamps ℕ_discrete (stale_stamp now stale_h) id t.inner d)
    | inr (r, e) ↦
        let s =
          ap (stamp ℕ_discrete (stale_stamp now stale_h)) (sym e)
          ∙ sym (get-stamps ℕ_discrete (stale_stamp now stale_h) id t.inner d)
          ∙ h in
        ap (stamp ℕ_discrete (stale_stamp now stale_h)) (open_kept id r e (stale_open id u r s)) ∙ s
  ]

  length-after : length after + (sweep_recency t now max_closed stale_h).1 ≡ length t.inner
  unfolding after sweep_recency trimmed stale_active
  length-after = omega (
    arith,
    length-trim ℕ_discrete closed_stamp max_closed t.inner d,
    length-excess max_closed (stamps closed_stamp t.inner),
    length-remove_all ℕ_discrete (stale_stamp now stale_h) stale_active trimmed
        (Distinct-stamps ℕ_discrete (stale_stamp now stale_h) t.inner d)
        (Distinct-trim ℕ_discrete closed_stamp max_closed t.inner d)
        (all-Stamped ℕ_discrete (stale_stamp now stale_h) trimmed stale_active
          (Distinct-stamps ℕ_discrete (stale_stamp now stale_h) t.inner d) stale_there),
  )

  stale_is :
      (r : ConnRecord)
      → r.closed_ms ≡ 0
      → is_some (stale_stamp now stale_h r) ≡ is_stale now stale_h r
  unfolding stale_stamp
  stale_is r o = ground arith

  get-open :
      (id : ℕ) (r : ConnRecord)
      → get ℕ_discrete id t.inner ≡ some r
      → r.closed_ms ≡ 0
      → get ℕ_discrete id after ≡ (if is_stale now stale_h r then none else some r)
  get-open id r h o =
      get-after id r h
      ∙ ap (λ x. if is_some (stale_stamp now stale_h r) then none else x) (open_kept id r h o)
      ∙ ap (λ b. if b then none else some r) (stale_is r o)

  closed_after : length (stamps closed_stamp after) ≤ max_closed
  unfolding after trimmed
  closed_after = omega (
    arith,
    stamps-remove_all-le ℕ_discrete closed_stamp stale_active trimmed,
    length-stamps-trim ℕ_discrete closed_stamp max_closed t.inner d,
  )

  kept_trimmed :
      (k : ℕ) (v : ConnRecord) → get ℕ_discrete k after ≡ some v → get ℕ_discrete k trimmed ≡ some v
  unfolding after
  kept_trimmed k v h = elim (Option-cases (get ℕ_discrete k stale_active)) [
    | inl e ↦ ground (arith, h, e, get-remove_all ℕ_discrete k stale_active trimmed)
    | inr (u, e) ↦ absurd (ground (arith, h, e, get-remove_all ℕ_discrete k stale_active trimmed))
  ]

  closed_not_stale :
      (w : ConnRecord)
      → (w.closed_ms == 0) ≡ false
      → (stale_stamp now stale_h w ≡ none) × (closed_stamp w ≡ some w.last_seen_ms)
  unfolding stale_stamp closed_stamp
  closed_not_stale w c = (rw c, rw c)

  gone_trimmed :
      (j : ℕ) (w : ConnRecord)
      → get ℕ_discrete j t.inner ≡ some w
      → (w.closed_ms == 0) ≡ false
      → get ℕ_discrete j after ≡ none
      → get ℕ_discrete j trimmed ≡ none
  gone_trimmed j w had c gone =
      ap (λ o. if is_some o then none else get ℕ_discrete j trimmed) (sym (closed_not_stale w c).0)
      ∙ sym (get-after j w had)
      ∙ gone

  -- In a table with one record for each connection, an open connection stays exactly if it was seen
  -- within the time given, with its record as it was. Of the closed ones no more stay than may, and
  -- the number that is returned is how many went.
  pub sweep_recency_open :
      (id : ℕ) (r : ConnRecord)
      → get ℕ_discrete id t.inner ≡ some r
      → r.closed_ms ≡ 0
      → (get ℕ_discrete id (sweep_recency t now max_closed stale_h).0.inner
          ≡ (if is_stale now stale_h r then none else some r))
        × (length (stamps closed_stamp (sweep_recency t now max_closed stale_h).0.inner)
            ≤ max_closed)
        × (length (sweep_recency t now max_closed stale_h).0.inner
              + (sweep_recency t now max_closed stale_h).1
            ≡ length t.inner)
  sweep_recency_open id r h o = (
    ap (λ m. get ℕ_discrete id m) swept ∙ get-open id r h o,
    subst (λ m. length (stamps closed_stamp m) ≤ max_closed) (sym swept) closed_after,
    ap (λ m. length m + (sweep_recency t now max_closed stale_h).1) swept ∙ length-after,
  )

  -- Of two closed connections, of which the sweep gives up the one and leaves the other, the one that
  -- stays was not seen before the one that goes.
  pub sweep_recency_newest :
      (k j : ℕ) (v w : ConnRecord)
      → get ℕ_discrete k (sweep_recency t now max_closed stale_h).0.inner ≡ some v
      → (v.closed_ms == 0) ≡ false
      → get ℕ_discrete j t.inner ≡ some w
      → (w.closed_ms == 0) ≡ false
      → get ℕ_discrete j (sweep_recency t now max_closed stale_h).0.inner ≡ none
      → w.last_seen_ms ≤ v.last_seen_ms
  unfolding trimmed
  sweep_recency_newest k j v w kept cv had cw gone =
      trim_order ℕ_discrete closed_stamp max_closed t.inner d k j v w v.last_seen_ms w.last_seen_ms
        (kept_trimmed k v (sym (ap (λ m. get ℕ_discrete k m) swept) ∙ kept))
        (closed_not_stale v cv).1 had (closed_not_stale w cw).1
        (gone_trimmed j w had cw (sym (ap (λ m. get ℕ_discrete j m) swept) ∙ gone))
