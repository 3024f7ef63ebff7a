-- ===== src/Order/Reach.antt =====
-- `reachable` of order_fsm.py against the reachability relation of the transition table.
use menes_pos.Prelude.{some-injective}
use menes_pos.Order.Fsm.{
  State, Event, draft, open_order, held, confirmed, sent, cooking, ready, served, paid, closed,
  cancelled, refunded, archived, has_state, ok, apply_event, reachable, search_states, push_all,
  Row, transitions, next_of, same_state,
}
use menes_pos.Prelude.{
  ℕ, zero, suc, ◌≡◌, refl, subst, ◌↔◌, inl, inr, Bool, true, ◌&&◌, Option, none, some, List, [],
  ◌∷◌, arith, Bool-cases, All,
}

-- Some log of events leads from `s` to the state.
pub data Reach (s : State) : State → Type 0 where
  here : Reach s s
  step : {t u : State} (e : Event) → Reach s t → apply_event t e ≡ ok u → Reach s u

same_state_sound : (s t : State) → same_state s t ≡ true → s ≡ t
same_state_sound s t h = ground arith

applied_next :
    (t : State) (e : Event) {u : State}
    → apply_event t e ≡ ok u
    → next_of (transitions t) e ≡ some u
unfolding apply_event
applied_next t e h = ground arith

-- Every entry of a row is a transition of its state.
row_applies : (t : State) → All (λ (p : Event × State). apply_event t p.0 ≡ ok p.1) (transitions t)
unfolding apply_event
row_applies t = ground arith

push_all-Reach :
    (s t : State) (row : Row) (stack : List State)
    → Reach s t
    → All (λ (p : Event × State). apply_event t p.0 ≡ ok p.1) row
    → All (Reach s) stack
    → All (Reach s) (push_all row stack)
push_all-Reach s t [] stack r a h = h
push_all-Reach s t ((e, u) ∷ row) stack r a h =
    push_all-Reach s t row (u ∷ stack) r a.1 (step e r a.0, h)

search_states-Reach :
    (s : State) (fuel : ℕ) (seen stack : List State) {found : List State}
    → All (Reach s) seen
    → All (Reach s) stack
    → search_states fuel seen stack ≡ some found
    → All (Reach s) found
unfolding search_states
search_states-Reach s zero seen [] a h e = subst (All (Reach s)) (some-injective _ _ e) a
search_states-Reach s (suc fuel) seen [] a h e = subst (All (Reach s)) (some-injective _ _ e) a
search_states-Reach s zero seen (t ∷ stack) a h e = cc
search_states-Reach s (suc fuel) seen (t ∷ stack) a h e = elim (Bool-cases (has_state t seen)) [
  | inl old ↦ search_states-Reach s fuel seen stack a h.1 (rw old at e)
  | inr new ↦
      search_states-Reach s fuel (t ∷ seen) (push_all (transitions t) stack) (h.0, a)
        (push_all-Reach s t (transitions t) stack h.0 (row_applies t) h.1) (rw new at e)
]

has_state-Reach :
    (s t : State) (seen : List State) → All (Reach s) seen → has_state t seen ≡ true → Reach s t
has_state-Reach s t [] a h = cc
has_state-Reach s t (u ∷ seen) a h = elim (Bool-cases (same_state u t)) [
  | inl e ↦ subst (Reach s) (same_state_sound u t e) a.0
  | inr e ↦ has_state-Reach s t seen a.1 (rw e at h)
]

-- The states that are reached, and that the rows of the states of a list stay within it.
abbrev targets_in : List State → Row → Bool
targets_in seen [] = true
targets_in seen ((e, t) ∷ row) = has_state t seen && targets_in seen row

abbrev closed_in : List State → List State → Bool
closed_in seen [] = true
closed_in seen (t ∷ ts) = targets_in seen (transitions t) && closed_in seen ts

abbrev Complete : State → Option (List State) → Type 0
Complete s none = ⊥
Complete s (some seen) = (has_state s seen ≡ true) × (closed_in seen seen ≡ true)

reachable-Complete : (s : State) → Complete s (reachable s)
unfolding reachable
reachable-Complete draft = (refl, refl)
reachable-Complete open_order = (refl, refl)
reachable-Complete held = (refl, refl)
reachable-Complete confirmed = (refl, refl)
reachable-Complete sent = (refl, refl)
reachable-Complete cooking = (refl, refl)
reachable-Complete ready = (refl, refl)
reachable-Complete served = (refl, refl)
reachable-Complete paid = (refl, refl)
reachable-Complete closed = (refl, refl)
reachable-Complete cancelled = (refl, refl)
reachable-Complete refunded = (refl, refl)
reachable-Complete archived = (refl, refl)

targets_in-next_of :
    (seen : List State) (row : Row) (e : Event) {u : State}
    → targets_in seen row ≡ true
    → next_of row e ≡ some u
    → has_state u seen ≡ true
targets_in-next_of seen [] e h k = cc
targets_in-next_of seen ((a, t) ∷ row) e {u} h k =
    ground (arith, targets_in-next_of seen row e {u = u})

closed_in-row :
    (seen ts : List State) (t : State)
    → closed_in seen ts ≡ true
    → has_state t ts ≡ true
    → targets_in seen (transitions t) ≡ true
closed_in-row seen [] t h k = cc
closed_in-row seen (u ∷ ts) t h k = elim (Bool-cases (same_state u t)) [
  | inl e ↦
      rw (← same_state_sound u t e) (first (targets_in seen (transitions u)) (closed_in seen ts) h)
  | inr e ↦
      closed_in-row seen ts t (second (targets_in seen (transitions u)) (closed_in seen ts) h)
        (rw e at k)
]
  where
    first : (a b : Bool) → (a && b) ≡ true → a ≡ true
    first a b h = ground arith

    second : (a b : Bool) → (a && b) ≡ true → b ≡ true
    second a b h = ground arith

found_all :
    (s : State) (seen : List State) {t : State}
    → has_state s seen ≡ true
    → closed_in seen seen ≡ true
    → Reach s t
    → has_state t seen ≡ true
unfolding apply_event
found_all s seen h c here = h
found_all s seen h c (step {t} {u} e r k) =
    targets_in-next_of seen (transitions t) e {u = u}
      (closed_in-row seen seen t c (found_all s seen h c r)) (applied_next t e k)

-- `reachable` returns, within its fuel, exactly the states that some log of events leads to.
pub reachable_lem :
    (s : State)
    → (seen : List State) × (reachable s ≡ some seen)
      × ((t : State) → (has_state t seen ≡ true) ↔ Reach s t)
unfolding reachable
reachable_lem s = go (reachable s) refl (reachable-Complete s)
  where
    go :
        (r : Option (List State))
        → reachable s ≡ r
        → Complete s r
        → (seen : List State) × (reachable s ≡ some seen)
          × ((t : State) → (has_state t seen ≡ true) ↔ Reach s t)
    go none e c = absurd c
    go (some seen) e c = (
      seen,
      e,
      λ t. (
        has_state-Reach s t seen (search_states-Reach s 64 [] (s ∷ []) tt (here, tt) e),
        found_all s seen c.0 c.1,
      ),
    )
