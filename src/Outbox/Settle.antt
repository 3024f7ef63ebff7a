-- ===== src/Outbox/Settle.antt =====
-- What the delivery of one event does to the outbox.
use menes_pos.Prelude.{
  ℕ, suc, ◌+◌, ◌<◌, String, ◌≡◌, refl, sym, ap, ◌∙◌, ◌≢◌, ◌⊎◌, inl, inr, true, false, Option, none,
  some, List, [], ◌∷◌, arith, if◌then◌else◌, Bool-cases, In, In-map, ℤ,
}
use menes_pos.Outbox.Policy.{pending, inflight, done}
use menes_pos.Outbox.Store.{
  Event, Store, Audit, same_aggregate, mem_id, update_ids, delivered_row, Reply, acked, raised,
  conflict, Counts, failed_row, settle,
}
use menes_pos.Outbox.Ordered.{
  InOrder, IsOrdered, Keeps, map-Ascending, map-InOrder, update-Keeps, map-All_id,
}

-- The rows with the id of `c` are in flight.
abbrev pub Held : List Event → Event → Type 0
Held es c = (x : Event) → In x es → x.id ≡ c.id → x.status ≡ inflight

failed_row-Keeps :
    (exc : String) (now : ℕ) (max_attempts : ℤ) → Keeps (failed_row exc now max_attempts)
unfolding failed_row
failed_row-Keeps exc now max_attempts e = (refl, refl, refl)

module _ (es : List Event) (e : Event) (g : Event → Event) (k : Keeps g) where
  update_one-InOrder : InOrder es → Held es e → InOrder (update_ids (e.id ∷ []) g es)
  update_one-InOrder o h = map-InOrder _ es (update-Keeps (e.id ∷ []) g k) stays started o
    where
      stays :
          (p : Event)
          → In p es
          → p.status ≡ done
          → (if mem_id p.id (e.id ∷ []) then g p else p).status ≡ done
      stays p m d = elim (Bool-cases (mem_id p.id (e.id ∷ []))) [
        | inl t ↦ let same : p.id ≡ e.id = ground arith in cc (sym d ∙ h p m same)
        | inr t ↦ rw t d
      ]

      started :
          (p : Event)
          → In p es
          → (if mem_id p.id (e.id ∷ []) then g p else p).status ≢ pending
          → (p.status ≢ pending)
            ⊎ ((q : Event) → In q es → same_aggregate q p ≡ true → q.id < p.id → q.status ≡ done)
      started p m n = elim (Bool-cases (mem_id p.id (e.id ∷ []))) [
        | inl t ↦ let same : p.id ≡ e.id = ground arith in inl (λ q. cc (sym q ∙ h p m same))
        | inr t ↦ inl (rw t at n)
      ]

  update_one-Held : (d : Event) → e.id ≢ d.id → Held es d → Held (update_ids (e.id ∷ []) g es) d
  update_one-Held d ne h x m same =
      let (y, my, ey) = In-map (λ r. if mem_id r.id (e.id ∷ []) then g r else r) es m in
      let kept = (update-Keeps (e.id ∷ []) g k y).0 in
      let named : y.id ≡ d.id = sym kept ∙ sym (ap (λ (r : Event). r.id) ey) ∙ same in
      let miss : mem_id y.id (e.id ∷ []) ≡ false = ground arith in rw (ey, miss) (h y my named)

update_one-IsOrdered :
    (s : Store) (e : Event) (g : Event → Event) (log : List (Audit × ℕ))
    → Keeps g
    → IsOrdered s
    → Held s.events e
    → IsOrdered (record s { events = update_ids (e.id ∷ []) g s.events; audit_log = log })
update_one-IsOrdered s e g log k o h = record {
  ascending = map-Ascending _ s.events (update-Keeps (e.id ∷ []) g k) o.ascending;
  fresh = map-All_id (λ i. i < s.next_id) _ s.events (update-Keeps (e.id ∷ []) g k) o.fresh;
  in_order = update_one-InOrder s.events e g k o.in_order h;
}

abbrev pub OnSome : {A : Type 0} → (A → Type 0) → Option A → Type 0
OnSome P none = Unit
OnSome P (some a) = P a

abbrev pub settled : Counts → ℕ
settled c = c.delivered + c.failures + c.dead_letters

-- What one turn of the delivery loop does to the store and the counts.
abbrev pub Turn : Event → Store × Counts → Store × Counts → Type 0
Turn e (s, c) (s', c') =
    IsOrdered s'
    × ((d : Event) → e.id ≢ d.id → Held s.events d → Held s'.events d)
    × (c'.claimed ≡ c.claimed)
    × (settled c' ≡ suc (settled c))

pub settle-Turn :
    (now : ℕ) (max_attempts : ℤ) (e : Event) (r : Reply) (s : Store) (c : Counts)
    → IsOrdered s
    → Held s.events e
    → OnSome (Turn e (s, c)) (settle now max_attempts e r (s, c))
unfolding settle
settle-Turn now max_attempts e acked s c o h = (
  update_one-IsOrdered s e delivered_row _ (λ x. (refl, refl, refl)) o h,
  update_one-Held s.events e delivered_row (λ x. (refl, refl, refl)),
  refl,
  omega arith,
)
settle-Turn now max_attempts e (raised exc) s c o h = (
  update_one-IsOrdered s e (failed_row exc now max_attempts) _
      (failed_row-Keeps exc now max_attempts) o h,
  update_one-Held s.events e (failed_row exc now max_attempts)
      (failed_row-Keeps exc now max_attempts),
  ground arith,
  ground arith,
)
settle-Turn now max_attempts e conflict s c o h = tt
