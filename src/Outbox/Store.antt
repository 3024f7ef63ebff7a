-- ===== src/Outbox/Store.antt =====
-- addons/mezze_bridge/models/outbox_event.py: the event table, publishing, claiming, the delivery of
-- one batch, and replay. Times are numbers of seconds. The store is what the transaction sees; a
-- rollback gives back the store from which the batch began. Rows are kept in the order of their ids.
use menes_pos.Prelude.{
  ℕ, suc, ◌+◌, String, Bool, true, false, not, ◌&&◌, ◌||◌, Option, none, some, List, [], ◌∷◌, ◌++◌,
  map, ltb, leb, ◌==◌, if◌then◌else◌, str_eq, length, any, keep, take, get, ℤ,
}
use menes_pos.Outbox.Policy.{
  Status, pending, inflight, done, failed, dead, FailureClass, classify, decide,
}

pub record Event : Type 0 where
  pub id : ℕ
  pub event_id : String
  pub event_type : String
  pub aggregate_type : Option String
  pub aggregate_id : Option String
  pub payload : Option String
  pub idempotency_key : String
  pub visible_after : ℕ
  pub attempt_count : ℕ
  pub status : Status
  pub last_error : Option (FailureClass × String)
  pub next_retry : Option ℕ
  pub locked_until : Option ℕ
  pub worker_id : Option String

pub data Audit : Type 0 where
  event_created dispatch_started dispatch_succeeded dead_letter : Audit
  dispatch_failed manual_replay : Audit

-- The table, the next value of its id sequence, and the audit trail with its newest entry first.
pub record Store : Type 0 where
  pub events : List Event
  pub next_id : ℕ
  pub audit_log : List (Audit × ℕ)

abbrev pub option_eq : Option String → Option String → Bool
option_eq none none = true
option_eq (some a) (some b) = str_eq a b
option_eq _ _ = false

-- `IS NOT DISTINCT FROM` on both columns.
abbrev pub same_aggregate : Event → Event → Bool
same_aggregate p e =
    option_eq p.aggregate_type e.aggregate_type && option_eq p.aggregate_id e.aggregate_id

abbrev pub is_done : Status → Bool
is_done done = true
is_done _ = false

abbrev pub audit : Audit → ℕ → Store → Store
audit what id s = record s { audit_log = (what, id) ∷ s.audit_log }

-- ## publish

pub record NewEvent : Type 0 where
  pub event_type : String
  pub aggregate_type : Option String
  pub aggregate_id : Option String
  pub payload : Option String
  pub idempotency_key : Option String
  pub visible_after : Option ℕ

abbrev pub key_or : Option String → String → String
key_or none eid = eid
key_or (some k) eid = if str_eq k "" then eid else k

abbrev pub time_or : Option ℕ → ℕ → ℕ
time_or none now = now
time_or (some t) now = t

unfoldable pub new_row : String → ℕ → ℕ → NewEvent → Event
new_row eid now id v = record {
  id = id;
  event_id = eid;
  event_type = v.event_type;
  aggregate_type = v.aggregate_type;
  aggregate_id = v.aggregate_id;
  payload = v.payload;
  idempotency_key = key_or v.idempotency_key eid;
  visible_after = time_or v.visible_after now;
  attempt_count = 0;
  status = pending;
  last_error = none;
  next_retry = none;
  locked_until = none;
  worker_id = none;
}

-- The two unique constraints of the table.
abbrev pub conflicts : Event → Event → Bool
conflicts r e = str_eq e.event_id r.event_id || str_eq e.idempotency_key r.idempotency_key

abbrev pub find_key : String → List Event → Option Event
find_key k [] = none
find_key k (e ∷ es) = if str_eq e.idempotency_key k then some e else find_key k es

-- `eid` is the fresh uuid. The sequence advances also when the insert fails.
unfoldable pub publish : String → ℕ → NewEvent → Store → Store × Option Event
unfolding new_row
publish eid now v s =
    let row = new_row eid now s.next_id v in
    if any (conflicts row) s.events
    then (record s { next_id = suc s.next_id }, find_key row.idempotency_key s.events)
    else (
      audit event_created row.id
          (record s { events = s.events ++ row ∷ []; next_id = suc s.next_id }),
      some row,
    )

-- ## _claim

abbrev pub before : Option ℕ → ℕ → Bool
before none now = false
before (some t) now = ltb t now

abbrev pub due : Option ℕ → ℕ → Bool
due none now = true
due (some t) now = leb t now

abbrev pub claimable_status : ℕ → Event → Status → Bool
claimable_status now e pending = true
claimable_status now e failed = true
claimable_status now e inflight = before e.locked_until now
claimable_status now e done = false
claimable_status now e dead = false

abbrev pub blocks : Event → Event → Bool
blocks e p = same_aggregate p e && ltb p.id e.id && not (is_done p.status)

-- The `WHERE` clause, over the whole table.
unfoldable pub eligible : ℕ → List Event → Event → Bool
eligible now events e =
    claimable_status now e e.status
    && leb e.visible_after now
    && due e.next_retry now
    && not (any (blocks e) events)

-- The rows that no other transaction has locked, up to the limit, in the order of their ids.
unfoldable pub select_rows : ℕ → (ℕ → Bool) → ℕ → List Event → List Event
select_rows now locked batch_size events =
    take batch_size (keep (λ e. eligible now events e && not (locked e.id)) events)

abbrev pub mem_id : ℕ → List ℕ → Bool
mem_id i [] = false
mem_id i (j ∷ js) = j == i || mem_id i js

abbrev pub claimed_row : String → ℕ → Event → Event
claimed_row worker until e = record e {
  status = inflight;
  locked_until = some until;
  worker_id = some worker;
  attempt_count = suc e.attempt_count;
}

abbrev pub update_ids : List ℕ → (Event → Event) → List Event → List Event
update_ids ids f = map (λ e. if mem_id e.id ids then f e else e)

-- The clock is read again for the lock, at `later`.
unfoldable pub claim : String → ℕ → (ℕ → Bool) → ℕ → ℕ → ℕ → List Event → List Event × List Event
unfolding select_rows eligible
claim worker now locked later batch_size visibility events =
    let chosen = select_rows now locked batch_size events in
    let ids = map (λ (e : Event). e.id) chosen in
    let f = claimed_row worker (later + visibility) in (update_ids ids f events, map f chosen)

-- ## _consume and _dispatch_batch

-- What a handler does with an event: it returns, raises an exception of a type that is named, or
-- raises one of the database's concurrency errors.
pub data Reply : Type 0 where
  acked : Reply
  raised : String → Reply
  conflict : Reply

abbrev pub Consumers : Type 0
Consumers = List (String × (Event → Reply))

unfoldable pub consume : Consumers → Event → Reply
consume consumers e = elim (get consumers e.event_type) [
  | none ↦ raised "OutboxNoConsumer"
  | some handler ↦ handler e
]

pub record Counts : Type 0 where
  pub claimed : ℕ
  pub delivered : ℕ
  pub failures : ℕ
  pub dead_letters : ℕ

abbrev pub delivered_row : Event → Event
delivered_row e = record e { status = done; locked_until = none; last_error = none }

abbrev pub retry_at : Option ℕ → ℕ → Option ℕ → Option ℕ
retry_at none now old = old
retry_at (some delay) now old = some (now + delay)

unfoldable pub failed_row : String → ℕ → ℤ → Event → Event
failed_row exc now max_attempts e =
    let fclass = classify exc in
    let (next, backoff) = decide fclass e.attempt_count max_attempts in
    record e {
      status = next;
      locked_until = none;
      last_error = some (fclass, exc);
      next_retry = retry_at backoff now e.next_retry;
    }

abbrev pub count_failure : Status → Counts → Counts
count_failure dead c = record c { dead_letters = suc c.dead_letters }
count_failure _ c = record c { failures = suc c.failures }

abbrev pub failure_audit : Status → Audit
failure_audit dead = dead_letter
failure_audit _ = dispatch_failed

-- One turn of the loop over the claimed events; `none` is the concurrency error, which is raised
-- again. The clock stands at `now` for the whole batch.
unfoldable pub settle : ℕ → ℤ → Event → Reply → Store × Counts → Option (Store × Counts)
unfolding failed_row
settle now max_attempts e acked (s, c) = some (
  audit dispatch_succeeded e.id (record (audit dispatch_started e.id s) {
    events = update_ids (e.id ∷ []) delivered_row s.events;
  }),
  record c { delivered = suc c.delivered },
)
settle now max_attempts e (raised exc) (s, c) =
    let next = (failed_row exc now max_attempts e).status in
    some (
      audit (failure_audit next) e.id (record (audit dispatch_started e.id s) {
        events = update_ids (e.id ∷ []) (failed_row exc now max_attempts) s.events;
      }),
      count_failure next c,
    )
settle now max_attempts e conflict (s, c) = none

unfoldable pub deliver_all :
    Consumers → ℕ → ℤ → List Event → Store × Counts → Option (Store × Counts)
deliver_all consumers now max_attempts [] acc = some acc
deliver_all consumers now max_attempts (e ∷ es) acc =
    elim (settle now max_attempts e (consume consumers e) acc) [
      | none ↦ none
      | some acc' ↦ deliver_all consumers now max_attempts es acc'
    ]

-- What one try of a batch is run with: the clock at its reads, the rows that others hold, and the
-- consumers, whose replies may differ from one try to the next.
pub record Try : Type 0 where
  pub now : ℕ
  pub later : ℕ
  pub locked : ℕ → Bool
  pub consumers : Consumers

unfoldable pub try_batch : String → ℕ → ℤ → ℕ → Try → Store → Option (Store × Counts)
unfolding claim
try_batch worker batch_size max_attempts visibility t s =
    let (events, chosen) = claim worker t.now t.locked t.later batch_size visibility s.events in
    deliver_all t.consumers t.later max_attempts chosen (
      record s { events = events },
      record { claimed = length chosen; delivered = 0; failures = 0; dead_letters = 0 },
    )

abbrev pub no_counts : Counts
no_counts = record { claimed = 0; delivered = 0; failures = 0; dead_letters = 0 }

-- The tries in turn; a concurrency error rolls the store back and goes on with the next. The code
-- makes five, so five are given.
unfoldable pub dispatch_batch : String → ℕ → ℤ → ℕ → List Try → Store → Store × Counts
dispatch_batch worker batch_size max_attempts visibility [] s = (s, no_counts)
dispatch_batch worker batch_size max_attempts visibility (t ∷ ts) s =
    let again = dispatch_batch worker batch_size max_attempts visibility ts s in
    elim (try_batch worker batch_size max_attempts visibility t s) [ none ↦ again | some r ↦ r ]

-- ## replay

abbrev pub replayed_row : Event → Event
replayed_row e = record e {
  status = pending;
  attempt_count = 0;
  next_retry = none;
  locked_until = none;
  worker_id = none;
  last_error = none;
}

unfoldable pub replay : List ℕ → Store → Store
replay [] s = s
replay (i ∷ ids) s =
    replay ids
      (audit manual_replay i (record s { events = update_ids (i ∷ []) replayed_row s.events }))
