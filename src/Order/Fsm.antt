-- ===== src/Order/Fsm.antt =====
-- addons/mezze_bridge/domain/order_fsm.py: the states and events of an order, the transition table
-- and the functions over it. A raised `ForbiddenTransition` is the error value.
use menes_pos.Prelude.{
  ℕ, zero, suc, ◌≡◌, ◌⊎◌, inl, inr, Bool, false, ◌||◌, Option, none, some, List, [], ◌∷◌, map,
  arith, ◌==◌, if◌then◌else◌, Option-cases,
}

pub data State : Type 0 where
  draft open_order held confirmed sent cooking ready served : State
  paid closed cancelled refunded archived : State

pub data Event : Type 0 where
  add_line open_up hold resume confirm send start_cooking mark_ready serve : Event
  pay_partial pay_full close cancel refund archive : Event

pub data Outcome (A : Type 0) : Type 0 where
  ok : A → Outcome A
  forbidden : State → Event → Outcome A

abbrev pub state_code : State → ℕ
state_code draft = 0
state_code open_order = 1
state_code held = 2
state_code confirmed = 3
state_code sent = 4
state_code cooking = 5
state_code ready = 6
state_code served = 7
state_code paid = 8
state_code closed = 9
state_code cancelled = 10
state_code refunded = 11
state_code archived = 12

abbrev pub event_code : Event → ℕ
event_code add_line = 0
event_code open_up = 1
event_code hold = 2
event_code resume = 3
event_code confirm = 4
event_code send = 5
event_code start_cooking = 6
event_code mark_ready = 7
event_code serve = 8
event_code pay_partial = 9
event_code pay_full = 10
event_code close = 11
event_code cancel = 12
event_code refund = 13
event_code archive = 14

-- Members of an enumeration are equal when their codes are.
abbrev pub same_state : State → State → Bool
same_state s t = state_code s == state_code t

abbrev pub same_event : Event → Event → Bool
same_event a b = event_code a == event_code b

abbrev pub has_state : State → List State → Bool
has_state s [] = false
has_state s (t ∷ ts) = same_state t s || has_state s ts

abbrev pub Row : Type 0
Row = List (Event × State)

-- The transition table `_T`.
abbrev pub transitions : State → Row
transitions draft = (add_line, draft) ∷ (open_up, open_order) ∷ (cancel, cancelled) ∷ []
transitions open_order =
    (add_line, open_order)
    ∷ (hold, held)
    ∷ (confirm, confirmed)
    ∷ (send, sent)
    ∷ (pay_partial, open_order)
    ∷ (pay_full, paid)
    ∷ (cancel, cancelled)
    ∷ []
transitions held = (resume, open_order) ∷ (cancel, cancelled) ∷ []
transitions confirmed =
    (send, sent) ∷ (pay_partial, confirmed) ∷ (pay_full, paid) ∷ (cancel, cancelled) ∷ []
transitions sent =
    (start_cooking, cooking) ∷ (pay_partial, sent) ∷ (pay_full, paid) ∷ (cancel, cancelled) ∷ []
transitions cooking = (mark_ready, ready) ∷ (pay_partial, cooking) ∷ (pay_full, paid) ∷ []
transitions ready = (serve, served) ∷ (pay_partial, ready) ∷ (pay_full, paid) ∷ []
transitions served = (pay_partial, served) ∷ (pay_full, paid) ∷ (cancel, cancelled) ∷ []
transitions paid = (close, closed) ∷ (refund, refunded) ∷ []
transitions closed = (refund, refunded) ∷ (archive, archived) ∷ []
transitions cancelled = (archive, archived) ∷ []
transitions refunded = (archive, archived) ∷ []
transitions archived = []

-- `_T[st].get(ev)`
abbrev pub next_of : Row → Event → Option State
next_of [] e = none
next_of ((a, t) ∷ row) e = if same_event a e then some t else next_of row e

abbrev pub settled_states : List State
settled_states = paid ∷ closed ∷ refunded ∷ []

abbrev pub pre_payment_states : List State
pre_payment_states = draft ∷ open_order ∷ held ∷ confirmed ∷ sent ∷ cooking ∷ ready ∷ served ∷ []

abbrev pub terminal_states : List State
terminal_states = archived ∷ []

unfoldable pub allowed_events : State → List Event
allowed_events s = map (λ (p : Event × State). p.0) (transitions s)

unfoldable pub apply_event : State → Event → Outcome State
apply_event s e = elim (next_of (transitions s) e) [ none ↦ forbidden s e | some t ↦ ok t ]

-- The loop of `fold`: the first forbidden event ends it by raising.
unfoldable pub fold : List Event → State → Outcome State
fold [] s = ok s
fold (e ∷ es) s = elim (apply_event s e) [ ok t ↦ fold es t | forbidden t a ↦ forbidden t a ]

unfoldable pub is_settled : State → Bool
is_settled s = has_state s settled_states

-- `frontier` is a stack, its top first: `pop` takes the end of the list, and `extend` puts the row's
-- targets there, the last on top.
abbrev pub push_all : Row → List State → List State
push_all [] stack = stack
push_all ((e, t) ∷ row) stack = push_all row (t ∷ stack)

unfoldable pub search_states : ℕ → List State → List State → Option (List State)
search_states fuel seen [] = some seen
search_states zero seen (s ∷ stack) = none
search_states (suc fuel) seen (s ∷ stack) =
    let skip = search_states fuel seen stack in
    let visit = search_states fuel (s ∷ seen) (push_all (transitions s) stack) in
    if has_state s seen then skip else visit

-- Thirteen states have 38 transitions between them, so 64 rounds are enough for the search.
unfoldable pub reachable : State → Option (List State)
unfolding search_states
reachable s = search_states 64 [] (s ∷ [])

-- An event is applied, or the error names the state and the event themselves.
pub apply_event-cases :
    (s : State) (e : Event)
    → ((t : State) × (apply_event s e ≡ ok t)) ⊎ (apply_event s e ≡ forbidden s e)
unfolding apply_event
apply_event-cases s e = elim (Option-cases (next_of (transitions s) e)) [
  | inl gone ↦ inr (ground arith)
  | inr (t, go) ↦ inl (t, ground arith)
]
