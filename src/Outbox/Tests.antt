-- ===== src/Outbox/Tests.antt =====
-- Runs of the outbox.
use menes_pos.Prelude.{
  ℕ, String, ◌≡◌, refl, ◌≢◌, inl, inr, false, none, some, List, [], ◌∷◌, arith, pos,
}
use menes_pos.Outbox.Policy.{pending, done}
use menes_pos.Outbox.Store.{
  consume, settle, deliver_all, Event, Store, NewEvent, publish, claim, claimed_row, acked, Try,
  try_batch, dispatch_batch,
}
use menes_pos.Outbox.Claim.{claim_exclusive}
use menes_pos.Outbox.Dispatch.{dispatch_batch-IsOrdered, DispatchEnd}
use menes_pos.Outbox.Traces.{
  empty_store, published, dispatched, History, start, more, History-IsOrdered, delivered_first,
  publish_twice,
}

abbrev order_event : String → NewEvent
order_event key = record {
  event_type = "order.paid";
  aggregate_type = some "pos.order";
  aggregate_id = some "7";
  payload = some "{}";
  idempotency_key = some key;
  visible_after = none;
}

abbrev one : Store
one = (publish "e1" 100 (order_event "pay-7") empty_store).0

abbrev two : Store
two = (publish "e2" 101 (order_event "refund-7") one).0

abbrev all_well : Try
all_well = record {
  now = 110;
  later = 111;
  locked = λ i. false;
  consumers = ("order.paid", λ e. acked) ∷ [];
}

abbrev sent : Store
sent = (dispatch_batch "w1" 10 (pos 5) 60 (all_well ∷ []) two).0

two_History : History two
two_History =
    more (more start (published "e1" 100 (order_event "pay-7") empty_store))
      (published "e2" 101 (order_event "refund-7") one)

sent_History : History sent
sent_History = more two_History (dispatched "w1" 10 (pos 5) 60 (all_well ∷ []) two)

again : Store
again = (dispatch_batch "w1" 10 (pos 5) 60 (all_well ∷ []) sent).0

again_History : History again
unfolding dispatch_batch again
again_History = more sent_History (dispatched "w1" 10 (pos 5) 60 (all_well ∷ []) sent)

abbrev row : ℕ → String → String → ℕ → Event
row id eid key visible = record {
  id = id;
  event_id = eid;
  event_type = "order.paid";
  aggregate_type = some "pos.order";
  aggregate_id = some "7";
  payload = some "{}";
  idempotency_key = key;
  visible_after = visible;
  attempt_count = 1;
  status = done;
  last_error = none;
  next_retry = none;
  locked_until = none;
  worker_id = some "w1";
}

delivered_first_example : (row 1 "e1" "pay-7" 100).status ≡ done
unfolding again dispatch_batch try_batch deliver_all publish settle consume
delivered_first_example =
    delivered_first (row 1 "e1" "pay-7" 100) (row 2 "e2" "refund-7" 101) again_History (inl refl)
      (inr (inl refl)) refl (omega arith) (λ e. cc)

dispatch_batch-IsOrdered_example :
    DispatchEnd
      (λ t. try_batch "w1" 10 (pos 5) 60 t two ≡ none)
      (all_well ∷ [])
      two
      (dispatch_batch "w1" 10 (pos 5) 60 (all_well ∷ []) two)
dispatch_batch-IsOrdered_example =
    dispatch_batch-IsOrdered "w1" 10 (pos 5) 60 (all_well ∷ []) two (History-IsOrdered two_History)

abbrev new_row_1 : Event
new_row_1 = record (row 1 "e1" "pay-7" 100) {
  status = pending;
  attempt_count = 0;
  worker_id = none;
}

abbrev new_row_2 : Event
new_row_2 = record (row 2 "e2" "pay-8" 100) {
  status = pending;
  attempt_count = 0;
  worker_id = none;
  aggregate_id = some "8";
}

abbrev batch_events : List Event
batch_events = new_row_1 ∷ new_row_2 ∷ []

claim_exclusive_example : new_row_1.id ≢ new_row_2.id
unfolding claim
claim_exclusive_example =
    claim_exclusive "w1" "w2" 110 110 120 120 (λ i. false) (λ i. false) 1 5 60 60 batch_events
      (claimed_row "w1" 170 new_row_1) (claimed_row "w2" 180 new_row_2) (inl refl) (inl refl)
      (omega arith)

publish_twice_example :
    let (s1, first) = publish "e1" 100 (order_event "pay-7") empty_store in
    let (s2, second) = publish "e9" 105 (order_event "pay-7") s1 in
    (s2.events ≡ s1.events) × (second ≡ first) × ((r : Event) × (first ≡ some r))
publish_twice_example =
    publish_twice "e1" "e9" "pay-7" 100 105 (order_event "pay-7") (order_event "pay-7") empty_store
      refl refl refl
