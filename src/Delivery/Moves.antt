-- ===== src/Delivery/Moves.antt =====
-- addons/mezze_bridge/models/delivery.py: what holds of a delivery under every sequence of actions.
use menes_pos.Prelude.{
  ℕ, String, ◌≡◌, refl, sym, ap, ◌∙◌, subst, ◌⊎◌, inl, inr, Bool, true, false, not, ◌&&◌, Option,
  none, some, List, [], ◌∷◌, arith, Bool-cases, All,
}
use menes_pos.Delivery.Dispatch.{
  placed, accepted, preparing, is_ready, cancelled, delivered, rejected, assigned, out_for_delivery,
  freed, is_move, unless_missing, set_status, move, DeliveryError, is_over, available, Desk,
  transition, with_status, DeliveryState, Action, Courier, Delivery, legal_next, or_stay, stamp,
  written, missing,
}

abbrev pub is_set : {A : Type 0} → Option A → Bool
is_set none = false
is_set (some a) = true

-- What the record of a delivery in a state has to show.
abbrev pub shown_in : DeliveryState → Delivery → Bool
shown_in assigned d = is_set d.courier
shown_in out_for_delivery d = is_set d.dispatched_at
shown_in delivered d = is_set d.dispatched_at && is_set d.delivered_at
shown_in cancelled d = is_set d.cancel_reason
shown_in rejected d = is_set d.reject_reason
shown_in _ d = true

unfoldable pub is_shown : Delivery → Bool
is_shown d = shown_in d.state d

shown-written :
    (st : DeliveryState) (a : Action) (c : Option Courier) (actor reason : String) (now : ℕ)
    (d : Delivery)
    → shown_in st d ≡ true
    → missing a c reason ≡ none
    → shown_in (or_stay (legal_next st a) st) (
        written a c actor reason now
          (stamp (legal_next st a) now (record d { state = or_stay (legal_next st a) st })))
      ≡ true
shown-written st a c actor reason now d h m = ground arith

written-state :
    (a : Action) (c : Option Courier) (actor reason : String) (now : ℕ) (d : Delivery)
    → (written a c actor reason now d).state ≡ d.state
written-state a c actor reason now d = ground arith

stamp-state :
    (nxt : Option DeliveryState) (now : ℕ) (d : Delivery) → (stamp nxt now d).state ≡ d.state
stamp-state nxt now d = ground arith

-- A call as the dispatcher makes it.
pub record Order : Type 0 where
  pub action : Action
  pub courier : Option Courier
  pub actor : String
  pub reason : String
  pub override : Bool
  pub now : ℕ

abbrev pub obey : Order → Desk → Desk × Option DeliveryError
obey o desk = transition o.action o.courier o.actor o.reason o.override o.now desk

unfoldable pub obey_all : List Order → Desk → Desk
obey_all [] desk = desk
obey_all (o ∷ os) desk = obey_all os (obey o desk).0

-- A call leaves the desk as it was, or moves the delivery.
pub transition-moves :
    (o : Order) (desk : Desk)
    → ((obey o desk).0 ≡ desk)
      ⊎ ((missing o.action o.courier o.reason ≡ none)
          × ((obey o desk).0
              ≡ move o.action o.courier o.actor o.reason o.now
                  (legal_next desk.delivery.state o.action)
                  desk))
unfolding transition
transition-moves o desk = elim (Bool-cases (is_over desk.delivery.state && not o.override)) [
  | inl over ↦ rw over (inl refl)
  | inr going ↦
      elim (Bool-cases
        (not (is_move (legal_next desk.delivery.state o.action)) && not o.override)) [
          | inl refused ↦ rw (going, refused) (inl refl)
          | inr may ↦ rw (going, may) (checked (missing o.action o.courier o.reason) _)
        ]
]
  where
    checked :
        (m : Option DeliveryError) (moved : Desk)
        → ((unless_missing m desk moved).0 ≡ desk)
          ⊎ ((m ≡ none) × ((unless_missing m desk moved).0 ≡ moved))
    checked none moved = inr (refl, refl)
    checked (some e) moved = inl refl

move-is_shown :
    (o : Order) (desk : Desk)
    → missing o.action o.courier o.reason ≡ none
    → is_shown desk.delivery ≡ true
    → is_shown
        (move o.action o.courier o.actor o.reason o.now
          (legal_next desk.delivery.state o.action)
          desk).delivery
      ≡ true
unfolding is_shown
move-is_shown o desk m h =
    let st = desk.delivery.state in
    let nxt = legal_next st o.action in
    let d = record (desk.delivery) { state = or_stay nxt st } in
    rw
      (
        written-state o.action o.courier o.actor o.reason o.now (stamp nxt o.now d),
        stamp-state nxt o.now d,
      )
      (shown-written st o.action o.courier o.actor o.reason o.now desk.delivery h m)

-- Whatever actions are asked for, with and without an override, these stay true: an assigned delivery
-- has a courier, one on its way has the time it was dispatched, a delivered one that and the time of
-- delivery, a cancelled and a rejected one their reason.
pub obey_all-is_shown :
    (os : List Order) (desk : Desk)
    → is_shown desk.delivery ≡ true
    → is_shown (obey_all os desk).delivery ≡ true
unfolding obey_all
obey_all-is_shown [] desk h = h
obey_all-is_shown (o ∷ os) desk h = obey_all-is_shown os _ (elim (transition-moves o desk) [
  | inl same ↦ rw same h
  | inr (m, moved) ↦ rw moved (move-is_shown o desk m h)
])

over_stays :
    (st : DeliveryState) (a : Action) → is_over st ≡ true → or_stay (legal_next st a) st ≡ st
over_stays st a h = ground arith

-- A delivery that is over keeps its state, whatever actions are asked for, with and without an override.
pub obey_all-over :
    (os : List Order) (desk : Desk)
    → is_over desk.delivery.state ≡ true
    → (obey_all os desk).delivery.state ≡ desk.delivery.state
unfolding obey_all
obey_all-over [] desk h = refl
obey_all-over (o ∷ os) desk h =
    let kept = state_kept in
    obey_all-over os (obey o desk).0 (subst (λ st. is_over st ≡ true) (sym kept) h) ∙ kept
  where
    state_kept : (obey o desk).0.delivery.state ≡ desk.delivery.state
    state_kept = elim (transition-moves o desk) [
      | inl same ↦ rw same refl
      | inr (m, moved) ↦
          let st = desk.delivery.state in
          let nxt = legal_next st o.action in
          let d = record (desk.delivery) { state = or_stay nxt st } in
          ap (λ (k : Desk). k.delivery.state) moved
          ∙ written-state o.action o.courier o.actor o.reason o.now (stamp nxt o.now d)
          ∙ stamp-state nxt o.now d
          ∙ over_stays st o.action h
    ]

-- The delivery's own courier is free.
abbrev Freed : Option ℕ → List Courier → Type 0
Freed held cs = All (λ (c : Courier). (held ≡ some c.id) → c.status ≡ available) cs

with_status-Freed :
    (held : Option ℕ) (cs : List Courier) → Freed held (with_status held available cs)
with_status-Freed none [] = tt
with_status-Freed none (c ∷ cs) = ((λ e. cc), with_status-Freed none cs)
with_status-Freed (some id) [] = tt
with_status-Freed (some id) (c ∷ cs) = (one, with_status-Freed (some id) cs)
  where
    one :
        some id ≡ some (set_status id available c).id
        → (set_status id available c).status ≡ available
    one e = ground arith

freed_over :
    (nxt : Option DeliveryState) (st : DeliveryState) (held : Option ℕ) (cs : List Courier)
    → is_over st ≡ false
    → is_over (or_stay nxt st) ≡ true
    → Freed held (freed nxt held cs)
freed_over none st held cs before after = contradiction (sym before ∙ after)
  where
    contradiction : false ≡ true → Freed held cs
    contradiction h = cc
freed_over (some delivered) st held cs before after = with_status-Freed held cs
freed_over (some cancelled) st held cs before after = with_status-Freed held cs
freed_over (some rejected) st held cs before after = with_status-Freed held cs
freed_over (some placed) st held cs before after = cc
freed_over (some accepted) st held cs before after = cc
freed_over (some preparing) st held cs before after = cc
freed_over (some is_ready) st held cs before after = cc
freed_over (some assigned) st held cs before after = cc
freed_over (some out_for_delivery) st held cs before after = cc

-- A delivery that a call brings to its end leaves its courier available.
pub transition-frees :
    (o : Order) (desk : Desk)
    → is_over desk.delivery.state ≡ false
    → is_over (obey o desk).0.delivery.state ≡ true
    → Freed desk.delivery.courier (obey o desk).0.couriers
transition-frees o desk before after = elim (transition-moves o desk) [
  | inl same ↦ unchanged (subst (λ (k : Desk). is_over k.delivery.state ≡ true) same after)
  | inr (m, moved) ↦
      subst (λ (k : Desk). Freed desk.delivery.courier k.couriers) (sym moved)
        (freed_over nxt st desk.delivery.courier _ before (
          subst (λ s. is_over s ≡ true) (ap (λ (k : Desk). k.delivery.state) moved ∙ moved_state)
            after))
]
  where
    st : DeliveryState
    st = desk.delivery.state

    nxt : Option DeliveryState
    nxt = legal_next st o.action

    unchanged : is_over st ≡ true → Freed desk.delivery.courier (obey o desk).0.couriers
    unchanged h = cc

    moved_state :
        (move o.action o.courier o.actor o.reason o.now nxt desk).delivery.state ≡ or_stay nxt st
    moved_state =
        written-state o.action o.courier o.actor o.reason o.now _ ∙ stamp-state nxt o.now _
