-- ===== src/Order/Replay.antt =====
-- Replaying event logs over the order lifecycle.
use menes_pos.Prelude.{
  ◌≡◌, refl, ap, ◌↔◌, ◌⊎◌, inl, inr, Bool, true, false, ◌||◌, none, some, List, [], ◌∷◌, ◌++◌,
  arith, Option-cases,
}
use menes_pos.Order.Fsm.{
  State, Event, Outcome, draft, open_order, held, confirmed, sent, cooking, ready, served, paid,
  closed, cancelled, refunded, archived, close, archive, ok, forbidden, has_state, settled_states,
  apply_event, fold, is_settled, transitions, next_of, allowed_events, same_event, pay_full, cancel,
}

Outcome-cases :
    (r : Outcome State)
    → ((t : State) × (r ≡ ok t)) ⊎ ((t : State) × (a : Event) × (r ≡ forbidden t a))
Outcome-cases (ok t) = inl (t, refl)
Outcome-cases (forbidden t a) = inr (t, a, refl)

abbrev has_event : Event → List Event → Bool
has_event e [] = false
has_event e (a ∷ es) = same_event a e || has_event e es

-- An event is applied exactly when it is among the allowed events of the state.
pub apply_event-allowed :
    (s : State) (e : Event)
    → ((t : State) × (apply_event s e ≡ ok t)) ↔ (has_event e (allowed_events s) ≡ true)
unfolding apply_event allowed_events
apply_event-allowed s e = (applied s e, found s e)
  where
    applied :
        (s : State) (e : Event)
        → (t : State) × (apply_event s e ≡ ok t)
        → has_event e (allowed_events s) ≡ true
    applied s e h = ground arith

    found :
        (s : State) (e : Event)
        → has_event e (allowed_events s) ≡ true
        → (t : State) × (apply_event s e ≡ ok t)
    found s e h = elim (Outcome-cases (apply_event s e)) [
      | inl r ↦ r
      | inr (t, a, r) ↦ absurd (ground arith)
    ]

-- `fold (xs ++ ys)` continues `fold ys` from where `xs` ends.
abbrev pub continue_with : Outcome State → List Event → Outcome State
continue_with (ok t) es = fold es t
continue_with (forbidden t a) es = forbidden t a

-- Replaying a log in two parts is replaying it whole: the second part starts in the state in which
-- the first one ends, and if the first part raises, the whole replay raises the same error.
pub fold-append :
    (xs ys : List Event) (s : State) → fold (xs ++ ys) s ≡ continue_with (fold xs s) ys
unfolding fold
fold-append [] ys s = refl
fold-append (x ∷ xs) ys s = elim (Outcome-cases (apply_event s x)) [
  | inl (t, e) ↦ rw (e, fold) (fold-append xs ys t)
  | inr (t, a, e) ↦ rw (e, fold)
]

-- A replay raises at the first forbidden event: the log splits there, what stands before it leads to
-- the state that the error names, and that state's row has no entry for the event.
pub fold-forbidden :
    (es : List Event) (s : State) {t : State} {a : Event}
    → fold es s ≡ forbidden t a
    → (before : List Event) × (after : List Event) × (es ≡ before ++ a ∷ after)
      × (fold before s ≡ ok t)
      × (next_of (transitions t) a ≡ none)
unfolding fold apply_event
fold-forbidden [] s h = cc
fold-forbidden (e ∷ es) s {t} {a} h = elim (Option-cases (next_of (transitions s) e)) [
  | inl gone ↦ ([], es, ground arith, ground arith, ground arith)
  | inr (u, go) ↦
      let rest = fold-forbidden es u (later u go) in
      (e ∷ rest.0, rest.1, ap (λ l. e ∷ l) rest.2, ground (arith, go, rest.3), rest.4)
]
  where
    later : (u : State) → next_of (transitions s) e ≡ some u → fold es u ≡ forbidden t a
    later u go = ground arith

-- The states after settlement: the settled ones, and `archived`.
abbrev pub after_payment : List State
after_payment = archived ∷ settled_states

apply_event-after_payment :
    (s : State) (e : Event) {t : State}
    → has_state s after_payment ≡ true
    → apply_event s e ≡ ok t
    → has_state t after_payment ≡ true
unfolding apply_event
apply_event-after_payment s e p h = ground arith

fold-after_payment :
    (es : List Event) (s : State) {t : State}
    → has_state s after_payment ≡ true
    → fold es s ≡ ok t
    → has_state t after_payment ≡ true
unfolding fold
fold-after_payment [] s p h = ground arith
fold-after_payment (e ∷ es) s p h = elim (Outcome-cases (apply_event s e)) [
  | inl (u, go) ↦ fold-after_payment es u (apply_event-after_payment s e p go) (rw (go, fold) at h)
  | inr (u, a, stop) ↦ cc (rw (stop, fold) at h)
]

-- A paid order cannot become unpaid: once a log has led to a settled state, every longer log that
-- replays without an error ends in paid, closed, refunded or archived.
pub paid_stays_paid :
    (xs ys : List Event) (s : State) {t u : State}
    → fold xs s ≡ ok t
    → is_settled t ≡ true
    → fold (xs ++ ys) s ≡ ok u
    → has_state u after_payment ≡ true
unfolding is_settled
paid_stays_paid xs ys s {t} {u} h p k =
    fold-after_payment ys t (settled t p) (rw (fold-append xs ys s, h) at k)
  where
    settled : (t : State) → is_settled t ≡ true → has_state t after_payment ≡ true
    settled t p = ground arith

-- A way to the end of the lifecycle from each state.
abbrev closing_log : State → List Event
closing_log draft = cancel ∷ archive ∷ []
closing_log open_order = cancel ∷ archive ∷ []
closing_log held = cancel ∷ archive ∷ []
closing_log confirmed = cancel ∷ archive ∷ []
closing_log sent = cancel ∷ archive ∷ []
closing_log cooking = pay_full ∷ close ∷ archive ∷ []
closing_log ready = pay_full ∷ close ∷ archive ∷ []
closing_log served = cancel ∷ archive ∷ []
closing_log paid = close ∷ archive ∷ []
closing_log closed = archive ∷ []
closing_log cancelled = archive ∷ []
closing_log refunded = archive ∷ []
closing_log archived = []

-- No order is stuck: from every state some log of events leads to `archived`, and from there every
-- event is forbidden.
pub archived_reached :
    (s : State)
    → ((es : List Event) × (fold es s ≡ ok archived))
      × ((e : Event) → apply_event archived e ≡ forbidden archived e)
unfolding fold apply_event
archived_reached s = ((closing_log s, leads s), λ e. refl)
  where
    leads : (s : State) → fold (closing_log s) s ≡ ok archived
    leads s = ground arith
