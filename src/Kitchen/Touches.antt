-- ===== src/Kitchen/Touches.antt =====
-- addons/mezze_bridge/models/kds_ticket.py: what holds of a ticket under every sequence of bumps and
-- recalls, and what is sent.
use menes_pos.Prelude.{
  ℕ, suc, ◌+◌, String, ◌≡◌, refl, sym, subst, ◌≢◌, inl, inr, true, false, Option, none, some, List,
  [], ◌∷◌, arith, if◌then◌else◌, length, keep,
}
use menes_pos.Kitchen.Ticket.{
  sends_in, TicketState, fired, accepted, preparing, ready, served, cancelled, Ticket, same_state,
  is_terminal, bus_sends, ok, Board, set_state, previous, recall_to, recall,
}
use menes_pos.Kitchen.Flow.{
  Stands-refl, KeepsStamps, KeepsStamps-refl, KeepsStamps-trans, rank, set_state-cases,
}

pub data Touch : Type 0 where
  bump : String → ℕ → Touch
  step_back : Touch

unfoldable pub touches : List Touch → Board → Board
touches [] b = b
touches (bump text now ∷ ts) b = touches ts (set_state text now b).0
touches (step_back ∷ ts) b = touches ts (recall b).0

recall_to-KeepsStamps :
    (o : Option TicketState) (b : Board) → KeepsStamps b.ticket (recall_to o b).0.ticket
recall_to-KeepsStamps none b = KeepsStamps-refl b.ticket
recall_to-KeepsStamps (some st) b = record {
  id = refl;
  fired_at = refl;
  accepted_at = Stands-refl _;
  preparing_at = Stands-refl _;
  ready_at = Stands-refl _;
  served_at = Stands-refl _;
}

set_state-KeepsStamps :
    (text : String) (now : ℕ) (b : Board) → KeepsStamps b.ticket (set_state text now b).0.ticket
set_state-KeepsStamps text now b = elim (set_state-cases text now b) [
  | inl (e, a) ↦ a.stamps
  | inr (e, same) ↦ rw same (KeepsStamps-refl b.ticket)
]

-- A time that is stamped on a ticket is never overwritten, whatever bumps and recalls follow.
pub touches-KeepsStamps : (ts : List Touch) (b : Board) → KeepsStamps b.ticket (touches ts b).ticket
unfolding touches recall
touches-KeepsStamps [] b = KeepsStamps-refl b.ticket
touches-KeepsStamps (bump text now ∷ ts) b =
    KeepsStamps-trans _ _ _ (set_state-KeepsStamps text now b) (touches-KeepsStamps ts _)
touches-KeepsStamps (step_back ∷ ts) b =
    KeepsStamps-trans _ _ _ (recall_to-KeepsStamps (previous b.ticket.state) b)
      (touches-KeepsStamps ts _)

cancelled_once :
    (text : String) (now : ℕ) (b : Board)
    → b.ticket.state ≡ cancelled
    → (set_state text now b).0 ≡ b
cancelled_once text now b e = elim (set_state-cases text now b) [
  | inl (end, a) ↦ absurd_live a.left_live
  | inr (end, same) ↦ same
]
  where
    contradiction : true ≡ false → (set_state text now b).0 ≡ b
    contradiction h = cc

    absurd_live : is_terminal b.ticket.state ≡ false → (set_state text now b).0 ≡ b
    absurd_live live = contradiction (subst (λ st. is_terminal st ≡ false) e live)

-- A cancelled ticket stays as it is, and nothing more is sent about it.
pub touches-cancelled :
    (ts : List Touch) (b : Board) → b.ticket.state ≡ cancelled → touches ts b ≡ b
unfolding touches recall
touches-cancelled [] b e = refl
touches-cancelled (bump text now ∷ ts) b e =
    rw (cancelled_once text now b e) (touches-cancelled ts b e)
touches-cancelled (step_back ∷ ts) b e =
    subst (λ (c : Board). touches ts c ≡ b) (sym (recall_cancelled b.ticket.state e))
      (touches-cancelled ts b e)
  where
    recall_cancelled : (st : TicketState) → st ≡ cancelled → (recall_to (previous st) b).0 ≡ b
    recall_cancelled st h = subst (λ s. (recall_to (previous s) b).0 ≡ b) (sym h) refl

-- A recall takes back the bump to the next state: the ticket is in the state it was in.
pub recall-set_state :
    (text : String) (now : ℕ) (b : Board)
    → (set_state text now b).1 ≡ ok
    → rank (set_state text now b).0.ticket.state ≡ suc (rank b.ticket.state)
    → (set_state text now b).0.ticket.state ≢ cancelled
    → (recall (set_state text now b).0).0.ticket.state ≡ b.ticket.state
unfolding recall
recall-set_state text now b e next live =
    step_back_from (set_state text now b).0.ticket.state b.ticket.state _ next live
  where
    before :
        (st cur : TicketState) → rank st ≡ suc (rank cur) → st ≢ cancelled → previous st ≡ some cur
    before st cur next live = ground arith

    step_back_from :
        (st cur : TicketState) (c : Board)
        → rank st ≡ suc (rank cur)
        → st ≢ cancelled
        → (recall_to (previous st) c).0.ticket.state ≡ cur
    step_back_from st cur c next live =
        subst (λ p. (recall_to p c).0.ticket.state ≡ cur) (sym (before st cur next live)) refl

-- Every ticket is told to its kitchen display once, and to its waiters once more exactly when it is
-- ready.
pub bus_sends-length :
    (ts : List Ticket)
    → length (bus_sends ts)
      ≡ length ts + length (keep (λ (t : Ticket). same_state t.state ready) ts)
unfolding bus_sends
bus_sends-length [] = refl
bus_sends-length (t ∷ ts) = one t.state t ts (bus_sends-length ts)
  where
    one :
        (st : TicketState) (t : Ticket) (ts : List Ticket)
        → length (bus_sends ts)
          ≡ length ts + length (keep (λ (t : Ticket). same_state t.state ready) ts)
        → length (sends_in st t (bus_sends ts))
          ≡ suc (length ts)
            + length (
                if same_state st ready
                then t ∷ keep (λ (t : Ticket). same_state t.state ready) ts
                else keep (λ (t : Ticket). same_state t.state ready) ts)
    one fired t ts h = omega (arith, h)
    one accepted t ts h = omega (arith, h)
    one preparing t ts h = omega (arith, h)
    one ready t ts h = omega (arith, h)
    one served t ts h = omega (arith, h)
    one cancelled t ts h = omega (arith, h)
