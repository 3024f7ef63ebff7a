-- ===== src/Sync/Once.antt =====
-- What the terminals push takes effect once: the database is watched through the list of the events
-- whose handler ended without an exception.
use menes_pos.Prelude.{
  ℕ, suc, ◌≤◌, String, ◌≡◌, refl, subst, inl, inr, true, false, Option, none, some, List, [], ◌∷◌,
  ◌++◌, arith, if◌then◌else◌, str_eq, str_eq_iff, Bool-cases, any, ℤ, leb_ℤ, and_then,
}
use menes_pos.Sync.Ledger.{any-append, create-made}
use menes_pos.Sync.Push.{
  with_row, answer, Event, Row, Reply, result, raised, retry, Counts, Batch, uuid_of, is_row_of,
  create, row_of, record_row, record_reply, count_mark, count_failed, ingest_keyed, ingest,
  ingest_all, Cloud, opened, sort_by_seq, push, failed,
}

abbrev pub times : String → List String → ℕ
times u [] = 0
times u (v ∷ vs) = let rest = times u vs in if str_eq v u then suc rest else rest

-- No key takes effect twice, and none without a row of the ledger.
abbrev Recorded : ℕ → List String → List Row → Type 0
Recorded t seen rows = (u : String) → times u seen ≤ (if any (is_row_of t u) rows then 1 else 0)

is_row_of_self :
    (r : Row) (u : String) → str_eq r.res_uuid u ≡ true → is_row_of r.terminal u r ≡ true
is_row_of_self r u h = ground arith

kept :
    (t : ℕ) (seen : List String) (r : Row) (rows : List Row)
    → Recorded t seen rows
    → Recorded t seen (rows ++ r ∷ [])
kept t seen r rows rec u = rw (any-append (is_row_of t u) rows r) (ground (arith, rec u))

added :
    (r : Row) (seen : List String) (rows : List Row)
    → any (is_row_of r.terminal r.res_uuid) rows ≡ false
    → Recorded r.terminal seen rows
    → Recorded r.terminal (r.res_uuid ∷ seen) (rows ++ r ∷ [])
added r seen rows new rec u =
    rw (any-append (is_row_of r.terminal u) rows r) (elim (Bool-cases (str_eq r.res_uuid u)) [
      | inl same ↦ ground (
        arith,
        rec u,
        is_row_of_self r u same,
        subst (λ v. any (is_row_of r.terminal v) rows ≡ false) ((str_eq_iff r.res_uuid u).0 same)
            new,
      )
      | inr other ↦ ground (arith, rec u)
    ])

module _ {W : Type 0} (apply_event : Event → W → Reply W) (t : ℕ) where
  abbrev pub note_effect : Event → List String → Reply W → Reply (W × List String)
  note_effect e seen (result st note order w) =
      result st note order (w, (elim (uuid_of e) [ none ↦ "" | some u ↦ u ]) ∷ seen)
  note_effect e seen (raised err) = raised err
  note_effect e seen retry = retry

  -- `apply_event` that adds the key of an event to a list when the event takes effect.
  abbrev pub traced : Event → W × List String → Reply (W × List String)
  traced e w = note_effect e w.1 (apply_event e w.0)

  abbrev pub pushes : List (List Event) → Cloud (W × List String) → Cloud (W × List String)
  pushes [] c = c
  pushes (es ∷ rest) c = pushes rest (push traced t es c).0

  abbrev Fits : Option (Batch (W × List String)) → Type 0
  Fits none = Unit
  Fits (some b) = Recorded t b.world.1 b.ledger

  record_row_kept :
      (e : Event) (r : Row) (count : Counts → Counts) (b : Batch (W × List String))
      (seen : List String) (w : W)
      → ((rows : List Row) → create r b.ledger ≡ some rows → Recorded t seen rows)
      → Fits (record_row e r count (w, seen) b)
  record_row_kept e r count b seen w h = go (create r b.ledger) h
    where
      go :
          (o : Option (List Row))
          → ((rows : List Row) → o ≡ some rows → Recorded t seen rows)
          → Fits (with_row e count (w, seen) b o)
      go none h = tt
      go (some rows) h = h rows refl

  reply-Fits :
      (e : Event) (u : String) (b : Batch (W × List String)) (reply : Reply W)
      → uuid_of e ≡ some u
      → any (is_row_of t u) b.ledger ≡ false
      → Recorded t b.world.1 b.ledger
      → Fits (record_reply t e u (note_effect e b.world.1 reply) b)
  reply-Fits e u b (result st note order w) keyed new rec = rw keyed (
      record_row_kept e (row_of t e u st note order none) (count_mark st) b (u ∷ b.world.1) w
        (λ rows made.
          rw ((create-made _ b.ledger rows made).1)
            (added (row_of t e u st note order none) b.world.1 b.ledger new rec)))
  reply-Fits e u b (raised err) keyed new rec =
      record_row_kept e (row_of t e u failed none none (some err)) count_failed b b.world.1
        b.world.0
        (λ rows made. rw ((create-made _ b.ledger rows made).1) (kept t b.world.1 _ b.ledger rec))
  reply-Fits e u b retry keyed new rec = tt

  keyed-Fits :
      (e : Event) (o : Option String) (b : Batch (W × List String))
      → uuid_of e ≡ o
      → Recorded t b.world.1 b.ledger
      → Fits (ingest_keyed traced t e o b)
  keyed-Fits e none b keyed rec =
      record_row_kept e (row_of t e "(none)" failed none none (some "missing res_uuid"))
        count_failed b b.world.1 b.world.0
        (λ rows made. rw ((create-made _ b.ledger rows made).1) (kept t b.world.1 _ b.ledger rec))
  keyed-Fits e (some u) b keyed rec = elim (Bool-cases (any (is_row_of t u) b.ledger)) [
    | inl known ↦ rw known rec
    | inr new ↦ rw new (reply-Fits e u b (apply_event e b.world.0) keyed new rec)
  ]

  ingest-Fits :
      (cursor : ℤ) (e : Event) (b : Batch (W × List String))
      → Recorded t b.world.1 b.ledger
      → Fits (ingest traced t cursor e b)
  unfolding ingest
  ingest-Fits cursor e b rec = elim (Bool-cases (leb_ℤ e.seq cursor)) [
    | inl old ↦ rw old rec
    | inr due ↦ rw due (keyed-Fits e (uuid_of e) b refl rec)
  ]

  Fits-and_then :
      (o : Option (Batch (W × List String)))
      (f : Batch (W × List String) → Option (Batch (W × List String)))
      → Fits o
      → ((b : Batch (W × List String)) → Recorded t b.world.1 b.ledger → Fits (f b))
      → Fits (and_then o f)
  Fits-and_then none f fits h = tt
  Fits-and_then (some b) f fits h = h b fits

  ingest_all-Fits :
      (cursor : ℤ) (es : List Event) (b : Batch (W × List String))
      → Recorded t b.world.1 b.ledger
      → Fits (ingest_all traced t cursor es b)
  ingest_all-Fits cursor [] b rec = rec
  ingest_all-Fits cursor (e ∷ es) b rec =
      Fits-and_then (ingest traced t cursor e b) (λ next. ingest_all traced t cursor es next)
        (ingest-Fits cursor e b rec) (λ next fits. ingest_all-Fits cursor es next fits)

  push-Recorded :
      (es : List Event) (c : Cloud (W × List String))
      → Recorded t c.world.1 c.ledger
      → Recorded t (push traced t es c).0.world.1 (push traced t es c).0.ledger
  unfolding push
  push-Recorded es c rec =
      ended (ingest_all traced t c.last_acked_seq (sort_by_seq es) (opened c))
        (ingest_all-Fits c.last_acked_seq (sort_by_seq es) (opened c) rec)
    where
      ended :
          (o : Option (Batch (W × List String)))
          → Fits o
          → Recorded t (answer c o).0.world.1 (answer c o).0.ledger
      ended none fits = rec
      ended (some b) fits = fits

  pushes-Recorded :
      (batches : List (List Event)) (c : Cloud (W × List String))
      → Recorded t c.world.1 c.ledger
      → Recorded t (pushes batches c).world.1 (pushes batches c).ledger
  pushes-Recorded [] c rec = rec
  pushes-Recorded (es ∷ rest) c rec =
      pushes-Recorded rest (push traced t es c).0 (push-Recorded es c rec)

  -- From any database in which no effect of the terminal was seen yet, whatever batches the terminal
  -- pushes, in whole, in part, again or in another order, and whatever its events do, fail with or are
  -- broken off by: an event of one key takes effect at most once, and one that the ledger of the
  -- terminal does not hold, never.
  pub pushes-once :
      (batches : List (List Event)) (c : Cloud (W × List String)) (u : String)
      → c.world.1 ≡ []
      → times u (pushes batches c).world.1
        ≤ (if any (is_row_of t u) (pushes batches c).ledger then 1 else 0)
  pushes-once batches c u h = pushes-Recorded batches c (λ v. rw h (omega arith)) u
