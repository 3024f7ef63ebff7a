-- ===== src/Sync/Progress.antt =====
-- A batch that was answered is answered again without effect, and an event that cannot be applied
-- does not hold back the others.
use menes_pos.Prelude.{
  ℕ, String, ◌≡◌, refl, sym, ap, ◌∙◌, subst, inl, inr, Bool, true, false, ◌&&◌, Option, none, some,
  some-injective, List, [], ◌∷◌, arith, Bool-cases, any, all, ℤ, ◌≤ℤ◌, leb_ℤ, eq_of_parts,
  and_then-some,
}
use menes_pos.Sync.Ledger.{record_row-made}
use menes_pos.Sync.Push.{
  Event, Reply, result, raised, retry, Counts, Batch, uuid_of, is_row_of, create, record_reply,
  count_mark, count_failed, ingest_keyed, ingest, ingest_all, answer, Cloud, opened, closed,
  insert_by_seq, sort_by_seq, push, no_counts, max_ℤ,
}

-- Every event at or below the cursor.
abbrev pub all_upto : ℤ → List Event → Bool
all_upto n es = all (λ e. leb_ℤ e.seq n) es

all-insert :
    (p : Event → Bool) (e : Event) (es : List Event)
    → all p (insert_by_seq e es) ≡ (p e && all p es)
all-insert p e [] = refl
all-insert p e (f ∷ fs) = ground (arith, all-insert p e fs)

all-sort : (p : Event → Bool) (es : List Event) → all p (sort_by_seq es) ≡ all p es
unfolding sort_by_seq
all-sort p [] = refl
all-sort p (e ∷ es) = rw (all-insert p e (sort_by_seq es), all-sort p es) refl

all_upto_mono : (m n : ℤ) (es : List Event) → m ≤ℤ n → all_upto m es ≡ true → all_upto n es ≡ true
all_upto_mono m n [] le h = refl
all_upto_mono m n (e ∷ es) le h = ground (arith, all_upto_mono m n es le)

module _ {W : Type 0} (apply_event : Event → W → Reply W) (t : ℕ) where
  reply-acked :
      (e : Event) (u : String) (reply : Reply W) (b b' : Batch W)
      → record_reply t e u reply b ≡ some b'
      → b'.acked ≡ max_ℤ b.acked e.seq
  reply-acked e u (result st text order w) b b' h = (record_row-made e _ (count_mark st) w b b' h).2
  reply-acked e u (raised err) b b' h = (record_row-made e _ count_failed b.world b b' h).2
  reply-acked e u retry b b' h = cc

  keyed-acked :
      (e : Event) (o : Option String) (b b' : Batch W)
      → ingest_keyed apply_event t e o b ≡ some b'
      → b'.acked ≡ max_ℤ b.acked e.seq
  keyed-acked e none b b' h = (record_row-made e _ count_failed b.world b b' h).2
  keyed-acked e (some u) b b' h = elim (Bool-cases (any (is_row_of t u) b.ledger)) [
    | inl known ↦ sym (ap (λ (x : Batch W). x.acked) (some-injective _ _ (rw known at h)))
    | inr new ↦ reply-acked e u (apply_event e b.world) b b' (rw new at h)
  ]

  ingest-acked :
      (cursor : ℤ) (e : Event) (b b' : Batch W)
      → cursor ≤ℤ b.acked
      → ingest apply_event t cursor e b ≡ some b'
      → (b.acked ≤ℤ b'.acked) × (leb_ℤ e.seq b'.acked ≡ true)
  unfolding ingest
  ingest-acked cursor e b b' le h = elim (Bool-cases (leb_ℤ e.seq cursor)) [
    | inl old ↦ rw (sym (some-injective _ _ (rw old at h))) (ground arith)
    | inr due ↦ rw (keyed-acked e (uuid_of e) b b' (rw due at h)) (ground arith)
  ]

  ingest_all-acked :
      (cursor : ℤ) (es : List Event) (b b' : Batch W)
      → cursor ≤ℤ b.acked
      → ingest_all apply_event t cursor es b ≡ some b'
      → (b.acked ≤ℤ b'.acked) × (all_upto b'.acked es ≡ true)
  ingest_all-acked cursor [] b b' le h = rw (some-injective _ _ h) (omega arith, refl)
  ingest_all-acked cursor (e ∷ es) b b' le h =
      let (next, q, rest) = and_then-some (ingest apply_event t cursor e b) _ h in
      let (low, here) = ingest-acked cursor e b next le q in
      let (up, covered) = ingest_all-acked cursor es next b' (omega arith) rest in
      (omega arith, ground arith)

  ingest_all-known :
      (cursor : ℤ) (es : List Event) (b : Batch W)
      → all_upto cursor es ≡ true
      → ingest_all apply_event t cursor es b ≡ some b
  unfolding ingest
  ingest_all-known cursor [] b h = refl
  ingest_all-known cursor (e ∷ es) b h = ground (arith, ingest_all-known cursor es b)

  closed-acked :
      (c : Cloud W) (b : Batch W)
      → c.last_acked_seq ≤ℤ b.acked
      → (closed c b).last_acked_seq ≡ b.acked
  closed-acked c b le = ground (arith, eq_of_parts c.last_acked_seq b.acked)

  answer-known :
      (c : Cloud W) (es : List Event)
      → all_upto c.last_acked_seq es ≡ true
      → answer c (ingest_all apply_event t c.last_acked_seq es (opened c))
        ≡ (c, some (c.last_acked_seq, no_counts))
  answer-known c es h = rw (ingest_all-known c.last_acked_seq es (opened c) h) (
      ap (λ n. (record c { last_acked_seq = n }, some (c.last_acked_seq, no_counts)))
        (closed-acked c (opened c) (omega arith)))

  -- When a batch was answered, pushing it again changes nothing, and answers the same cursor with no
  -- event counted; whatever the events did.
  pub push_again :
      (es : List Event) (c : Cloud W) {a : ℤ × Counts}
      → (push apply_event t es c).1 ≡ some a
      → push apply_event t es (push apply_event t es c).0
        ≡ ((push apply_event t es c).0, some (a.0, no_counts))
  unfolding push
  push_again es c {a} h =
      go (ingest_all apply_event t c.last_acked_seq (sort_by_seq es) (opened c)) refl h
    where
      go :
          (o : Option (Batch W))
          → ingest_all apply_event t c.last_acked_seq (sort_by_seq es) (opened c) ≡ o
          → (answer c o).1 ≡ some a
          → answer (answer c o).0 (
              ingest_all apply_event t
                (answer c o).0.last_acked_seq
                (sort_by_seq es)
                (opened (answer c o).0))
            ≡ ((answer c o).0, some (a.0, no_counts))
      go none q h = cc
      go (some b) q h =
          let (up, covered) =
            ingest_all-acked c.last_acked_seq (sort_by_seq es) (opened c) b (omega arith) q in
          let same = closed-acked c b up in
          answer-known (closed c b) (sort_by_seq es)
            (subst (λ n. all_upto n (sort_by_seq es) ≡ true) (sym same) covered)
          ∙ ap (λ n. (closed c b, some (n, no_counts)))
              (same ∙ ap (λ (x : ℤ × Counts). x.0) (some-injective _ _ h))

  abbrev pub is_keyed : Event → Bool
  is_keyed e = elim (uuid_of e) [ none ↦ false | some u ↦ true ]

  abbrev pub is_retry : Reply W → Bool
  is_retry retry = true
  is_retry _ = false

  reply_goes_on :
      (e : Event) (u : String) (reply : Reply W) (b : Batch W)
      → is_retry reply ≡ false
      → any (is_row_of t u) b.ledger ≡ false
      → (b' : Batch W) × (record_reply t e u reply b ≡ some b')
  unfolding create
  reply_goes_on e u (result st text order w) b h new = rw new (_, refl)
  reply_goes_on e u (raised err) b h new = rw new (_, refl)
  reply_goes_on e u retry b h new = cc

  keyed_goes_on :
      (e : Event) (o : Option String) (b : Batch W)
      → (elim o [ none ↦ false | some u ↦ true ]) ≡ true
      → is_retry (apply_event e b.world) ≡ false
      → (b' : Batch W) × (ingest_keyed apply_event t e o b ≡ some b')
  keyed_goes_on e none b keyed h = cc
  keyed_goes_on e (some u) b keyed h = elim (Bool-cases (any (is_row_of t u) b.ledger)) [
    | inl known ↦ rw known (_, refl)
    | inr new ↦ rw new (reply_goes_on e u (apply_event e b.world) b h new)
  ]

  ingest_goes_on :
      (cursor : ℤ) (e : Event) (b : Batch W)
      → is_keyed e ≡ true
      → is_retry (apply_event e b.world) ≡ false
      → (b' : Batch W) × (ingest apply_event t cursor e b ≡ some b')
  unfolding ingest
  ingest_goes_on cursor e b keyed h = elim (Bool-cases (leb_ℤ e.seq cursor)) [
    | inl old ↦ rw old (_, refl)
    | inr due ↦ rw due (keyed_goes_on e (uuid_of e) b keyed h)
  ]

  ingest_all_goes_on :
      (cursor : ℤ) (es : List Event) (b : Batch W)
      → all is_keyed es ≡ true
      → ((e : Event) (w : W) → is_retry (apply_event e w) ≡ false)
      → (b' : Batch W) × (ingest_all apply_event t cursor es b ≡ some b')
  ingest_all_goes_on cursor [] b keyed h = (b, refl)
  ingest_all_goes_on cursor (e ∷ es) b keyed h =
      let (next, q) = ingest_goes_on cursor e b (ground arith) (h e b.world) in
      rw q (ingest_all_goes_on cursor es next (ground arith) h)

  -- When every event of a batch has a key and the database has no concurrency error, the batch is
  -- answered, however many of its events fail: the cursor that is answered is the one the terminal
  -- keeps, not below its old one, and every event of the batch is at or below it.
  pub push-answers :
      (es : List Event) (c : Cloud W)
      → all is_keyed es ≡ true
      → ((e : Event) (w : W) → is_retry (apply_event e w) ≡ false)
      → (n : ℤ) × (counts : Counts) × ((push apply_event t es c).1 ≡ some (n, counts))
        × ((push apply_event t es c).0.last_acked_seq ≡ n)
        × (c.last_acked_seq ≤ℤ n)
        × (all_upto n es ≡ true)
  unfolding push
  push-answers es c keyed h =
      let (b, q) =
        ingest_all_goes_on c.last_acked_seq (sort_by_seq es) (opened c)
          (all-sort is_keyed es ∙ keyed) h in
      let (up, covered) =
        ingest_all-acked c.last_acked_seq (sort_by_seq es) (opened c) b (omega arith) q in
      rw q (
        b.acked,
        b.counts,
        refl,
        closed-acked c b up,
        up,
        sym (all-sort (λ e. leb_ℤ e.seq b.acked) es) ∙ covered,
      )
