-- ===== src/Kitchen/Cascade.antt =====
-- addons/mezze_bridge/models/kds_ticket.py: the void of an order on the kitchen's tickets.
use menes_pos.Prelude.{
  ℕ, ◌≡◌, refl, subst, inl, inr, true, false, List, [], ◌∷◌, map, arith, Bool-cases, keep, All, In,
  In-map, In-keep, All-intro,
}
use menes_pos.Kitchen.Ticket.{cancelled, Ticket, is_hit, void, cancel_for_order}

-- No live ticket of the order.
abbrev Quiet : ℕ → Ticket → Type 0
Quiet order t = is_hit order t ≡ false

void-Quiet : (order : ℕ) (t : Ticket) → Quiet order (void order t)
void-Quiet order t = elim (Bool-cases (is_hit order t)) [
  | inl hit ↦ rw hit (ground arith)
  | inr miss ↦ rw miss miss
]

-- After a void no ticket of the order is live.
pub cancel_for_order-Quiet :
    (order : ℕ) (ts : List Ticket) → All (Quiet order) (cancel_for_order order ts).0
unfolding cancel_for_order
cancel_for_order-Quiet order [] = tt
cancel_for_order-Quiet order (t ∷ ts) = (void-Quiet order t, cancel_for_order-Quiet order ts)

nothing_to_void :
    (order : ℕ) (ts : List Ticket)
    → All (Quiet order) ts
    → (map (void order) ts ≡ ts) × (keep (is_hit order) ts ≡ [])
nothing_to_void order [] h = (refl, refl)
nothing_to_void order (t ∷ ts) (h, hs) =
    let (same, nothing) = nothing_to_void order ts hs in (rw (h, same) refl, rw (h, nothing) refl)

-- A repeated void changes no ticket and reports none.
pub cancel_for_order_twice :
    (order : ℕ) (ts : List Ticket)
    → cancel_for_order order (cancel_for_order order ts).0 ≡ ((cancel_for_order order ts).0, [])
unfolding cancel_for_order
cancel_for_order_twice order ts =
    let (same, nothing) = nothing_to_void order _ (cancel_for_order-Quiet order ts) in
    rw (same, nothing) refl

-- A served ticket, a cancelled one and one of another order come out of a void as they were, and every
-- ticket that a void reports is a cancelled one of the order.
pub cancel_for_order-changed :
    (order : ℕ) (ts : List Ticket)
    → ((t : Ticket) → In t ts → is_hit order t ≡ false → In t (cancel_for_order order ts).0)
      × All
          (λ (t : Ticket). (t.order ≡ order) × (t.state ≡ cancelled))
          (cancel_for_order order ts).1
unfolding cancel_for_order
cancel_for_order-changed order ts = (kept ts, All-intro _ _ reported)
  where
    void_miss : (t u : Ticket) → t ≡ u → is_hit order t ≡ false → t ≡ void order u
    void_miss t u e miss = subst (λ v. t ≡ void order v) e (rw miss refl)

    kept :
        (us : List Ticket) (t : Ticket)
        → In t us
        → is_hit order t ≡ false
        → In t (map (void order) us)
    kept [] t m miss = absurd m
    kept (u ∷ us) t (inl e) miss = inl (void_miss t u e miss)
    kept (u ∷ us) t (inr m) miss = inr (kept us t m miss)

    hit_order : (u : Ticket) → is_hit order u ≡ true → u.order ≡ order
    hit_order u h = ground arith

    void_hit :
        (t u : Ticket)
        → t ≡ void order u
        → is_hit order u ≡ true
        → (t.order ≡ order) × (t.state ≡ cancelled)
    void_hit t u e hit = rw e (rw hit (hit_order u hit, refl))

    reported :
        (t : Ticket)
        → In t (map (void order) (keep (is_hit order) ts))
        → (t.order ≡ order) × (t.state ≡ cancelled)
    reported t m =
        let (u, mu, e) = In-map (void order) (keep (is_hit order) ts) m in
        void_hit t u e (In-keep (is_hit order) ts u mu).1
