-- ===== src/Order/Tests.antt =====
-- Runs of the order lifecycle and its guard.
use menes_pos.Prelude.{◌≡◌, refl, ◌↔◌, true, some, List, [], ◌∷◌}
use menes_pos.Order.Fsm.{
  State, Event, draft, paid, refunded, forbidden, open_up, pay_full, close, refund, fold,
  is_settled, apply_event, has_state, reachable,
}
use menes_pos.Order.Replay.{paid_stays_paid, after_payment}
use menes_pos.Order.Reach.{Reach, reachable_lem}
use menes_pos.Order.Guard.{evaluate_enforce, evaluate, state_of, event_of}

paid_stays_paid_example : has_state refunded after_payment ≡ true
unfolding fold apply_event is_settled
paid_stays_paid_example =
    paid_stays_paid (open_up ∷ pay_full ∷ []) (close ∷ refund ∷ []) draft {t = paid} {u = refunded}
      refl refl refl

reachable_lem_example :
    (seen : List State) × (reachable paid ≡ some seen)
    × ((t : State) → (has_state t seen ≡ true) ↔ Reach paid t)
reachable_lem_example = reachable_lem paid

evaluate_enforce_example : ((evaluate "paid" "comp" "enforce" []).blocked ≡ true) ↔ (
    (s : State) × (e : Event) × (state_of "paid" ≡ some s)
    × (event_of "comp" ≡ some e)
    × (apply_event s e ≡ forbidden s e))
evaluate_enforce_example = evaluate_enforce "paid" "comp" []
