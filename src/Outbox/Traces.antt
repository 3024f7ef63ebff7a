-- ===== src/Outbox/Traces.antt =====
-- What holds of the outbox over every history of publishes and batches, a duplicate publish, and a
-- failed delivery.
use menes_pos.Prelude.{
  ℕ, ◌+◌, ◌≤◌, ◌<◌, String, ◌≡◌, refl, sym, ◌∙◌, ◌≢◌, ◌⊎◌, inl, inr, Bool, true, false, none, some,
  List, [], ◌∷◌, ◌++◌, arith, str_eq, str_eq_iff, Bool-cases, any, In, ℤ, pos, ◌≤ℤ◌, ◌<ℤ◌,
}
use menes_pos.Outbox.Policy.{pending, done, failed, dead, classify, is_retryable}
use menes_pos.Outbox.Store.{
  Event, Store, same_aggregate, NewEvent, new_row, publish, conflicts, find_key, key_or, failed_row,
  Try, dispatch_batch,
}
use menes_pos.Outbox.Backoff.{decide_lem}
use menes_pos.Outbox.Ordered.{IsOrdered}
use menes_pos.Outbox.Dispatch.{dispatch_batch-IsOrdered}
use menes_pos.Outbox.Publish.{publish-IsOrdered}

abbrev pub empty_store : Store
empty_store = record { events = []; next_id = 1; audit_log = [] }

-- A publish, or a batch of any worker with any settings, tries and replies.
pub data Step : Store → Store → Type 0 where
  published : (eid : String) (now : ℕ) (v : NewEvent) (s : Store) → Step s (publish eid now v s).0
  dispatched :
      (worker : String) (batch_size : ℕ) (max_attempts : ℤ) (visibility : ℕ) (tries : List Try)
      (s : Store)
      → Step s (dispatch_batch worker batch_size max_attempts visibility tries s).0

pub data History : Store → Type 0 where
  start : History empty_store
  more : {s t : Store} → History s → Step s t → History t

Step-IsOrdered : {s t : Store} → Step s t → IsOrdered s → IsOrdered t
Step-IsOrdered (published eid now v s) o = publish-IsOrdered eid now v s o
Step-IsOrdered (dispatched worker batch_size max_attempts visibility tries s) o =
    (dispatch_batch-IsOrdered worker batch_size max_attempts visibility tries s o).0

pub History-IsOrdered : {s : Store} → History s → IsOrdered s
History-IsOrdered start = record { ascending = tt; fresh = tt; in_order = λ p e m. absurd m }
History-IsOrdered (more h st) = Step-IsOrdered st (History-IsOrdered h)

-- Delivery is in order within an aggregate: after any history of publishes and batches from the empty
-- table, an event that is in flight, delivered, failed or dead has only delivered events of its
-- aggregate before it.
pub delivered_first :
    {s : Store} (p e : Event)
    → History s
    → In p s.events
    → In e s.events
    → same_aggregate p e ≡ true
    → p.id < e.id
    → e.status ≢ pending
    → p.status ≡ done
delivered_first p e h = (History-IsOrdered h).in_order p e

-- After a failed delivery an event is to be retried exactly if its failure is retryable and its
-- attempts, the failed one counted, are fewer than the limit; then the retry is due two seconds to an
-- hour later. Otherwise it is dead. In both cases it is unlocked and keeps its identity and payload.
pub failed_row_lem :
    (exc : String) (now : ℕ) (max_attempts : ℤ) (e : Event)
    → let r = failed_row exc now max_attempts e in
      (r.locked_until ≡ none)
      × (r.id ≡ e.id)
      × (r.event_id ≡ e.event_id)
      × (r.payload ≡ e.payload)
      × (r.attempt_count ≡ e.attempt_count)
      × (((is_retryable (classify exc) ≡ true)
            × (pos e.attempt_count <ℤ max_attempts)
            × (r.status ≡ failed)
            × ((delay : ℕ) × (r.next_retry ≡ some (now + delay)) × (2 ≤ delay) × (delay ≤ 3600)))
          ⊎ (((is_retryable (classify exc) ≡ false) ⊎ (max_attempts ≤ℤ pos e.attempt_count))
              × (r.status ≡ dead)))
unfolding failed_row
failed_row_lem exc now max_attempts e = (refl, refl, refl, refl, refl, outcome)
  where
    outcome :
        ((is_retryable (classify exc) ≡ true)
          × (pos e.attempt_count <ℤ max_attempts)
          × ((failed_row exc now max_attempts e).status ≡ failed)
          × ((delay : ℕ) × ((failed_row exc now max_attempts e).next_retry ≡ some (now + delay))
              × (2 ≤ delay)
              × (delay ≤ 3600)))
        ⊎ (((is_retryable (classify exc) ≡ false) ⊎ (max_attempts ≤ℤ pos e.attempt_count))
            × ((failed_row exc now max_attempts e).status ≡ dead))
    outcome = elim (decide_lem (classify exc) e.attempt_count max_attempts) [
      | inl (t, l, (delay, eq, lo, hi)) ↦ inl (t, l, rw eq, (delay, rw eq, lo, hi))
      | inr (why, eq) ↦ inr (why, rw eq)
    ]

find_key-none :
    (row : Event) (es : List Event)
    → any (conflicts row) es ≡ false
    → find_key row.idempotency_key es ≡ none
find_key-none row [] h = refl
find_key-none row (e ∷ es) h = ground (arith, find_key-none row es)

find_key-conflicts :
    (row : Event) (es : List Event) {r : Event}
    → find_key row.idempotency_key es ≡ some r
    → any (conflicts row) es ≡ true
find_key-conflicts row [] h = cc
find_key-conflicts row (e ∷ es) {r} h = ground (arith, find_key-conflicts row es {r = r})

abbrev has_event_id : String → List Event → Bool
has_event_id eid es = any (λ (e : Event). str_eq e.event_id eid) es

conflicts-find_key :
    (row : Event) (es : List Event)
    → has_event_id row.event_id es ≡ false
    → any (conflicts row) es ≡ true
    → (r : Event) × (find_key row.idempotency_key es ≡ some r)
conflicts-find_key row [] f h = cc
conflicts-find_key row (e ∷ es) f h =
    elim (Bool-cases (str_eq e.idempotency_key row.idempotency_key)) [
      | inl t ↦ (e, ground arith)
      | inr t ↦ let r = conflicts-find_key row es (ground arith) (ground arith) in (r.0, rw t r.1)
    ]

find_key-append :
    (k : String) (es : List Event) (row : Event)
    → find_key k es ≡ none
    → row.idempotency_key ≡ k
    → find_key k (es ++ row ∷ []) ≡ some row
find_key-append k [] row h e = rw ((str_eq_iff row.idempotency_key k).1 e)
find_key-append k (x ∷ es) row h e = ground (arith, find_key-append k es row)

publish_again :
    (eid : String) (now : ℕ) (v : NewEvent) (s : Store) {r : Event}
    → find_key (key_or v.idempotency_key eid) s.events ≡ some r
    → ((publish eid now v s).0.events ≡ s.events) × ((publish eid now v s).1 ≡ some r)
unfolding publish
publish_again eid now v s {r} h =
    let old = find_key-conflicts (new_row eid now s.next_id v) s.events {r = r} h in
    rw old (refl, h)

publish_found :
    (eid : String) (now : ℕ) (v : NewEvent) (s : Store)
    → has_event_id eid s.events ≡ false
    → (r : Event) × ((publish eid now v s).1 ≡ some r)
      × (find_key (key_or v.idempotency_key eid) (publish eid now v s).0.events ≡ some r)
unfolding publish
publish_found eid now v s fresh = elim (Bool-cases (any (conflicts row) s.events)) [
  | inl old ↦
      let (r, found) = conflicts-find_key row s.events fresh old in (r, rw old found, rw old found)
  | inr new ↦ (
    row,
    rw new refl,
    rw new (
        find_key-append (key_or v.idempotency_key eid) s.events row (find_key-none row s.events new)
          refl),
  )
]
  where
    row : Event
    row = new_row eid now s.next_id v

-- A business operation that is retried with its idempotency key publishes once: with fresh event
-- ids, the second call stores nothing and returns the event that the first one returned.
pub publish_twice :
    (eid eid' k : String) (now now' : ℕ) (v v' : NewEvent) (s : Store)
    → has_event_id eid s.events ≡ false
    → key_or v.idempotency_key eid ≡ k
    → key_or v'.idempotency_key eid' ≡ k
    → let (s1, first) = publish eid now v s in
      let (s2, second) = publish eid' now' v' s1 in
      (s2.events ≡ s1.events) × (second ≡ first) × ((r : Event) × (first ≡ some r))
publish_twice eid eid' k now now' v v' s fresh hk hk' =
    let (r, first, found) = publish_found eid now v s fresh in
    let again =
      publish_again eid' now' v' (publish eid now v s).0 {r = r} (rw (hk' ∙ sym hk) found) in
    (again.0, again.1 ∙ sym first, (r, first))
