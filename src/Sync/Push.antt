-- ===== src/Sync/Push.antt =====
-- addons/mezze_bridge/controllers/sync.py: `push`, over the ledger of models/mezze_sync_applied.py.
-- What an event does to the rest of the database is an argument, `apply_event`. The raw payload that
-- the ledger keeps for a failed event and the time of the last contact are not modelled.
use menes_pos.Prelude.{
  ℕ, suc, String, Bool, ◌&&◌, Option, none, some, List, [], ◌∷◌, ◌++◌, ◌==◌, if◌then◌else◌, str_eq,
  any, ℤ, ltb_ℤ, leb_ℤ, and_then,
}

pub record Event : Type 0 where
  pub seq : ℤ
  pub res_uuid : Option String
  pub model : String
  pub op : Option String

pub data Mark : Type 0 where
  applied skipped flagged failed : Mark

pub record Row : Type 0 where
  pub terminal : ℕ
  pub seq : ℤ
  pub res_uuid : String
  pub model : String
  pub op : Option String
  pub state : Mark
  pub note : Option String
  pub pos_order : Option ℕ
  pub error : Option String

-- What `_apply_event` comes to: a result with the changed database, an exception that is an error of
-- the event, or a concurrency error of the database, which `_reraise_if_retryable` raises again.
pub data Reply (W : Type 0) : Type 0 where
  result : Mark → Option String → Option ℕ → W → Reply W
  raised : String → Reply W
  retry : Reply W

pub record Counts : Type 0 where
  pub applied_count : ℕ
  pub skipped_count : ℕ
  pub flagged_count : ℕ
  pub failed_count : ℕ

abbrev pub no_counts : Counts
no_counts = record { applied_count = 0; skipped_count = 0; flagged_count = 0; failed_count = 0 }

-- The database as the loop of `push` changes it, and the cursor it collects.
pub record Batch (W : Type 0) : Type 0 where
  pub world : W
  pub ledger : List Row
  pub acked : ℤ
  pub counts : Counts

-- The database before a request and after it, with the terminal's cursor.
pub record Cloud (W : Type 0) : Type 0 where
  pub world : W
  pub ledger : List Row
  pub last_acked_seq : ℤ

abbrev pub max_ℤ : ℤ → ℤ → ℤ
max_ℤ a b = if leb_ℤ a b then b else a

-- `if not res_uuid`
abbrev pub uuid_of : Event → Option String
uuid_of e = elim e.res_uuid [ none ↦ none | some u ↦ if str_eq u "" then none else some u ]

abbrev pub is_row_of : ℕ → String → Row → Bool
is_row_of t u r = r.terminal == t && str_eq r.res_uuid u

-- `Applied.create`, which raises where `unique(terminal_id, res_uuid)` is broken.
unfoldable pub create : Row → List Row → Option (List Row)
create r rows = if any (is_row_of r.terminal r.res_uuid) rows then none else some (rows ++ r ∷ [])

abbrev pub count_mark : Mark → Counts → Counts
count_mark applied c = record c { applied_count = suc c.applied_count }
count_mark skipped c = record c { skipped_count = suc c.skipped_count }
count_mark flagged c = record c {
  flagged_count = suc c.flagged_count;
  applied_count = suc c.applied_count;
}
count_mark failed c = record c { applied_count = suc c.applied_count }

abbrev pub count_failed : Counts → Counts
count_failed c = record c { failed_count = suc c.failed_count }

abbrev pub row_of : ℕ → Event → String → Mark → Option String → Option ℕ → Option String → Row
row_of t e u st note order err = record {
  terminal = t;
  seq = e.seq;
  res_uuid = u;
  model = e.model;
  op = e.op;
  state = st;
  note = note;
  pos_order = order;
  error = err;
}

-- `sorted(events, key=lambda e: int(e.get('seq', 0)))`, which is stable.
abbrev pub insert_by_seq : Event → List Event → List Event
insert_by_seq e [] = e ∷ []
insert_by_seq e (f ∷ fs) =
    let rest = insert_by_seq e fs in if leb_ℤ e.seq f.seq then e ∷ f ∷ fs else f ∷ rest

unfoldable pub sort_by_seq : List Event → List Event
sort_by_seq [] = []
sort_by_seq (e ∷ es) = insert_by_seq e (sort_by_seq es)

module _ {W : Type 0} where
  abbrev pub with_row :
      Event → (Counts → Counts) → W → Batch W → Option (List Row) → Option (Batch W)
  with_row e count w b none = none
  with_row e count w b (some rows) =
      some
        (record { world = w; ledger = rows; acked = max_ℤ b.acked e.seq; counts = count b.counts })

  -- The ledger row is written, the counter and the cursor advance; without the row the request fails.
  abbrev pub record_row : Event → Row → (Counts → Counts) → W → Batch W → Option (Batch W)
  record_row e r count w b = with_row e count w b (create r b.ledger)

  -- The savepoint drops what an event did that raised. `none`: the request fails, and nothing of its
  -- batch stays.
  abbrev pub record_reply : ℕ → Event → String → Reply W → Batch W → Option (Batch W)
  record_reply t e u (result st note order w) b =
      record_row e (row_of t e u st note order none) (count_mark st) w b
  record_reply t e u (raised err) b =
      record_row e (row_of t e u failed none none (some err)) count_failed b.world b
  record_reply t e u retry b = none

  abbrev pub skip_known : Event → Batch W → Batch W
  skip_known e b = record b { acked = max_ℤ b.acked e.seq; counts = count_mark skipped b.counts }

  abbrev pub ingest_keyed :
      (Event → W → Reply W) → ℕ → Event → Option String → Batch W → Option (Batch W)
  ingest_keyed apply_event t e none b =
      record_row e (row_of t e "(none)" failed none none (some "missing res_uuid")) count_failed
        b.world b
  ingest_keyed apply_event t e (some u) b =
      if any (is_row_of t u) b.ledger
      then some (skip_known e b)
      else record_reply t e u (apply_event e b.world) b

  -- One round of the loop; `cursor` is the terminal's `last_acked_seq`, which the loop does not change.
  unfoldable pub ingest : (Event → W → Reply W) → ℕ → ℤ → Event → Batch W → Option (Batch W)
  ingest apply_event t cursor e b =
      if leb_ℤ e.seq cursor then some b else ingest_keyed apply_event t e (uuid_of e) b

  abbrev pub ingest_all : (Event → W → Reply W) → ℕ → ℤ → List Event → Batch W → Option (Batch W)
  ingest_all apply_event t cursor [] b = some b
  ingest_all apply_event t cursor (e ∷ es) b =
      and_then (ingest apply_event t cursor e b) (λ next. ingest_all apply_event t cursor es next)

  abbrev pub opened : Cloud W → Batch W
  opened c = record {
    world = c.world;
    ledger = c.ledger;
    acked = c.last_acked_seq;
    counts = no_counts;
  }

  abbrev pub closed : Cloud W → Batch W → Cloud W
  closed c b = record {
    world = b.world;
    ledger = b.ledger;
    last_acked_seq = if ltb_ℤ c.last_acked_seq b.acked then b.acked else c.last_acked_seq;
  }

  abbrev pub answer : Cloud W → Option (Batch W) → Cloud W × Option (ℤ × Counts)
  answer c none = (c, none)
  answer c (some b) = (closed c b, some (b.acked, b.counts))

  -- The answer is `up_to_seq` with the counts; there is none when the request fails.
  unfoldable pub push :
      (Event → W → Reply W) → ℕ → List Event → Cloud W → Cloud W × Option (ℤ × Counts)
  push apply_event t events c =
      answer c (ingest_all apply_event t c.last_acked_seq (sort_by_seq events) (opened c))
