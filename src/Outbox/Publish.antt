-- ===== src/Outbox/Publish.antt =====
-- Publishing an event keeps the order of the outbox.
use menes_pos.Prelude.{
  ℕ, suc, ◌<◌, String, ◌≡◌, refl, ap, ◌∙◌, inl, inr, List, [], ◌∷◌, ◌++◌, arith, Bool-cases, any,
  All, In-append, All-In,
}
use menes_pos.Outbox.Policy.{pending}
use menes_pos.Outbox.Store.{conflicts, new_row, NewEvent, publish, Event, Store}
use menes_pos.Outbox.Ordered.{Ascending, InOrder, IsOrdered}

append-All :
    (P : Event → Type 0) (es : List Event) {r : Event} → All P es → P r → All P (es ++ r ∷ [])
append-All P [] h p = (p, tt)
append-All P (e ∷ es) h p = (h.0, append-All P es h.1 p)

append-Ascending :
    (es : List Event) (r : Event)
    → Ascending es
    → All (λ (e : Event). e.id < r.id) es
    → Ascending (es ++ r ∷ [])
append-Ascending [] r h b = (tt, tt)
append-Ascending (e ∷ es) r h b =
    (append-All (λ (x : Event). e.id < x.id) es h.0 b.0, append-Ascending es r h.1 b.1)

append-InOrder :
    (es : List Event) (r : Event)
    → All (λ (e : Event). e.id < r.id) es
    → r.status ≡ pending
    → InOrder es
    → InOrder (es ++ r ∷ [])
append-InOrder es r b new o p e mp me same lt ne = elim (In-append es (r ∷ []) e me) [
  | inl old ↦ elim (In-append es (r ∷ []) p mp) [
    | inl q ↦ o p e q old same lt ne
    | inr (inl q) ↦
        let below = All-In (λ (x : Event). x.id < r.id) es e b old in
        let id : p.id ≡ r.id = ap (λ (x : Event). x.id) q in absurd (omega arith)
    | inr (inr q) ↦ absurd q
  ]
  | inr (inl q) ↦ absurd (ne (ap (λ (x : Event). x.status) q ∙ new))
  | inr (inr q) ↦ absurd q
]

raise_bound :
    (es : List Event) (n : ℕ)
    → All (λ (e : Event). e.id < n) es
    → All (λ (e : Event). e.id < suc n) es
raise_bound [] n h = tt
raise_bound (e ∷ es) n h = (omega arith, raise_bound es n h.1)

-- Publishing keeps the order.
pub publish-IsOrdered :
    (eid : String) (now : ℕ) (v : NewEvent) (s : Store)
    → IsOrdered s
    → IsOrdered (publish eid now v s).0
unfolding publish
publish-IsOrdered eid now v s o = elim (Bool-cases (any (conflicts row) s.events)) [
  | inl old ↦ rw old (record {
    ascending = o.ascending;
    fresh = raise_bound s.events s.next_id o.fresh;
    in_order = o.in_order;
  })
  | inr new ↦ rw new (record {
    ascending = append-Ascending s.events row o.ascending o.fresh;
    fresh =
        append-All (λ (x : Event). x.id < suc s.next_id) s.events
          (raise_bound s.events s.next_id o.fresh) (omega arith);
    in_order = append-InOrder s.events row o.fresh refl o.in_order;
  })
]
  where
    row : Event
    row = new_row eid now s.next_id v
