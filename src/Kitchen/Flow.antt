-- ===== src/Kitchen/Flow.antt =====
-- addons/mezze_bridge/models/kds_ticket.py: what the transitions of a ticket do.
use menes_pos.Prelude.{
  ℕ, ◌<◌, String, ◌≡◌, refl, ◌∙◌, subst, ◌≢◌, ◌⊎◌, inl, inr, true, false, Option, none, some, [],
  ◌∷◌, arith, Bool-cases,
}
use menes_pos.Kitchen.Ticket.{
  TicketState, fired, accepted, preparing, ready, served, cancelled, Ticket, ticket_state_of,
  same_state, is_terminal, may_follow, bus_sends, Reason, ok, Board, enter, set_known, set_to,
  set_state, first_time,
}

-- The stamps that are set in one ticket stand in the other.
abbrev Stands : Option ℕ → Option ℕ → Type 0
Stands none q = Unit
Stands (some at) q = q ≡ some at

pub record KeepsStamps (t u : Ticket) : Type 0 where
  pub id : u.id ≡ t.id
  pub fired_at : u.fired_at ≡ t.fired_at
  pub accepted_at : Stands t.accepted_at u.accepted_at
  pub preparing_at : Stands t.preparing_at u.preparing_at
  pub ready_at : Stands t.ready_at u.ready_at
  pub served_at : Stands t.served_at u.served_at

pub Stands-refl : (p : Option ℕ) → Stands p p
Stands-refl none = tt
Stands-refl (some at) = refl

Stands-trans : (p q r : Option ℕ) → Stands p q → Stands q r → Stands p r
Stands-trans none q r h k = tt
Stands-trans (some at) q r h k = subst (λ o. Stands o r) h k

first_time-Stands : (p : Option ℕ) (now : ℕ) → Stands p (first_time p now)
first_time-Stands none now = tt
first_time-Stands (some at) now = refl

pub KeepsStamps-refl : (t : Ticket) → KeepsStamps t t
KeepsStamps-refl t = record {
  id = refl;
  fired_at = refl;
  accepted_at = Stands-refl _;
  preparing_at = Stands-refl _;
  ready_at = Stands-refl _;
  served_at = Stands-refl _;
}

pub KeepsStamps-trans : (t u v : Ticket) → KeepsStamps t u → KeepsStamps u v → KeepsStamps t v
KeepsStamps-trans t u v h k = record {
  id = k.id ∙ h.id;
  fired_at = k.fired_at ∙ h.fired_at;
  accepted_at = Stands-trans t.accepted_at u.accepted_at v.accepted_at h.accepted_at k.accepted_at;
  preparing_at =
      Stands-trans t.preparing_at u.preparing_at v.preparing_at h.preparing_at k.preparing_at;
  ready_at = Stands-trans t.ready_at u.ready_at v.ready_at h.ready_at k.ready_at;
  served_at = Stands-trans t.served_at u.served_at v.served_at h.served_at k.served_at;
}

enter-KeepsStamps :
    (st : TicketState) (now : ℕ) (b : Board) → KeepsStamps b.ticket (enter st now b).ticket
enter-KeepsStamps accepted now b = record {
  id = refl;
  fired_at = refl;
  accepted_at = first_time-Stands _ now;
  preparing_at = Stands-refl _;
  ready_at = Stands-refl _;
  served_at = Stands-refl _;
}
enter-KeepsStamps preparing now b = record {
  id = refl;
  fired_at = refl;
  accepted_at = Stands-refl _;
  preparing_at = first_time-Stands _ now;
  ready_at = Stands-refl _;
  served_at = Stands-refl _;
}
enter-KeepsStamps ready now b = record {
  id = refl;
  fired_at = refl;
  accepted_at = Stands-refl _;
  preparing_at = Stands-refl _;
  ready_at = first_time-Stands _ now;
  served_at = Stands-refl _;
}
enter-KeepsStamps served now b = record {
  id = refl;
  fired_at = refl;
  accepted_at = Stands-refl _;
  preparing_at = Stands-refl _;
  ready_at = Stands-refl _;
  served_at = first_time-Stands _ now;
}
enter-KeepsStamps fired now b = record {
  id = refl;
  fired_at = refl;
  accepted_at = Stands-refl _;
  preparing_at = Stands-refl _;
  ready_at = Stands-refl _;
  served_at = Stands-refl _;
}
enter-KeepsStamps cancelled now b = record {
  id = refl;
  fired_at = refl;
  accepted_at = Stands-refl _;
  preparing_at = Stands-refl _;
  ready_at = Stands-refl _;
  served_at = Stands-refl _;
}

-- How far a ticket has come; a cancelled one comes last.
abbrev pub rank : TicketState → ℕ
rank fired = 0
rank accepted = 1
rank preparing = 2
rank ready = 3
rank served = 4
rank cancelled = 5

-- The ticket advanced to the state that the text names, with a broadcast of it.
pub record Advanced (text : String) (b c : Board) : Type 0 where
  pub named : ticket_state_of text ≡ some c.ticket.state
  pub left_live : is_terminal b.ticket.state ≡ false
  pub further : rank b.ticket.state < rank c.ticket.state
  pub stamps : KeepsStamps b.ticket c.ticket
  pub told : c.sent ≡ bus_sends (c.ticket ∷ []) ∷ b.sent

may_follow-rank :
    (cur st : TicketState) → is_terminal cur ≡ false → may_follow cur st ≡ true → rank cur < rank st
may_follow-rank cur st live h = ground arith

enter-state : (st : TicketState) (now : ℕ) (b : Board) → (enter st now b).ticket.state ≡ st
enter-state fired now b = refl
enter-state accepted now b = refl
enter-state preparing now b = refl
enter-state ready now b = refl
enter-state served now b = refl
enter-state cancelled now b = refl

-- A call that ended well has advanced the ticket, and another one has left it.
Outcome : String → Board → Board × Reason → Type 0
Outcome text b r = ((r.1 ≡ ok) × Advanced text b r.0) ⊎ ((r.1 ≢ ok) × (r.0 ≡ b))

set_known-Outcome :
    (text : String) (cur st : TicketState) (now : ℕ) (b : Board)
    → ticket_state_of text ≡ some st
    → b.ticket.state ≡ cur
    → Outcome text b (set_known cur st now b)
unfolding Outcome
set_known-Outcome text cur st now b named here = elim (Bool-cases (same_state cur st)) [
  | inl same ↦ rw same (inr (λ e. cc, refl))
  | inr other ↦ elim (Bool-cases (is_terminal cur)) [
    | inl over ↦ rw (other, over) (inr (λ e. cc, refl))
    | inr live ↦ elim (Bool-cases (may_follow cur st)) [
      | inr behind ↦ rw (other, live, behind) (inr (λ e. cc, refl))
      | inl ahead ↦ rw (other, live, ahead) (inl (refl, advanced live ahead))
    ]
  ]
]
  where
    advanced : is_terminal cur ≡ false → may_follow cur st ≡ true → Advanced text b (enter st now b)
    advanced live ahead = record {
      named = rw (enter-state st now b) named;
      left_live = rw here live;
      further = rw (enter-state st now b, here) (may_follow-rank cur st live ahead);
      stamps = enter-KeepsStamps st now b;
      told = refl;
    }

set_to-Outcome :
    (text : String) (found : Option TicketState) (now : ℕ) (b : Board)
    → ticket_state_of text ≡ found
    → Outcome text b (set_to b.ticket.state found now b)
unfolding Outcome
set_to-Outcome text (some st) now b e = set_known-Outcome text b.ticket.state st now b e refl
set_to-Outcome text none now b e = elim (Bool-cases (is_terminal b.ticket.state)) [
  | inl over ↦ rw over (inr (λ e. cc, refl))
  | inr live ↦ rw live (inr (λ e. cc, refl))
]

-- A call either advances the ticket to a strictly later state, the one it names, out of a live one,
-- keeping the stamps that are set and broadcasting the ticket, or it changes nothing and says why.
pub set_state-cases :
    (text : String) (now : ℕ) (b : Board)
    → (((set_state text now b).1 ≡ ok) × Advanced text b (set_state text now b).0)
      ⊎ (((set_state text now b).1 ≢ ok) × ((set_state text now b).0 ≡ b))
unfolding set_state Outcome
set_state-cases text now b = set_to-Outcome text _ now b refl
