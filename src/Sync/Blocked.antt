-- ===== src/Sync/Blocked.antt =====
-- The key that `push` gives to events without one, "(none)", is as unique in the ledger as any other:
-- a second such event makes the whole request fail.
use menes_pos.Prelude.{
  ℕ, String, ◌≡◌, refl, sym, ◌∙◌, inl, inr, Bool, true, false, not, ◌&&◌, ◌||◌, Option, none, some,
  some-injective, List, [], ◌∷◌, arith, if◌then◌else◌, Bool-cases, any, ℤ, leb_ℤ, and_then,
}
use menes_pos.Sync.Ledger.{record_row-made, create-made, any-append}
use menes_pos.Sync.Push.{
  Event, Row, Reply, result, raised, retry, Counts, Batch, uuid_of, is_row_of, create, record_row,
  record_reply, count_mark, count_failed, ingest_keyed, ingest, ingest_all, Cloud, opened,
  insert_by_seq, sort_by_seq, push,
}

any-insert :
    (p : Event → Bool) (e : Event) (es : List Event)
    → any p (insert_by_seq e es) ≡ (p e || any p es)
any-insert p e [] = refl
any-insert p e (f ∷ fs) = ground (arith, any-insert p e fs)

any-sort : (p : Event → Bool) (es : List Event) → any p (sort_by_seq es) ≡ any p es
unfolding sort_by_seq
any-sort p [] = refl
any-sort p (e ∷ es) = rw (any-insert p e (sort_by_seq es), any-sort p es) refl

-- An event that the cursor does not cover and that has no key.
abbrev pub is_keyless : ℤ → Event → Bool
is_keyless cursor e = not (leb_ℤ e.seq cursor) && elim (uuid_of e) [ none ↦ true | some u ↦ false ]

module _ {W : Type 0} (apply_event : Event → W → Reply W) (t : ℕ) where
  row-kept :
      (p : Row → Bool) (e : Event) (r : Row) (count : Counts → Counts) (w : W) (b b' : Batch W)
      → record_row e r count w b ≡ some b'
      → any p b.ledger ≡ true
      → any p b'.ledger ≡ true
  row-kept p e r count w b b' h m =
      rw
        (
          (create-made r b.ledger b'.ledger (record_row-made e r count w b b' h).1).1,
          any-append p b.ledger r,
        )
        (ground arith)

  reply-kept :
      (p : Row → Bool) (e : Event) (u : String) (reply : Reply W) (b b' : Batch W)
      → record_reply t e u reply b ≡ some b'
      → any p b.ledger ≡ true
      → any p b'.ledger ≡ true
  reply-kept p e u (result st text order w) b b' h = row-kept p e _ (count_mark st) w b b' h
  reply-kept p e u (raised err) b b' h = row-kept p e _ count_failed b.world b b' h
  reply-kept p e u retry b b' h = cc

  keyed-kept :
      (p : Row → Bool) (e : Event) (o : Option String) (b b' : Batch W)
      → ingest_keyed apply_event t e o b ≡ some b'
      → any p b.ledger ≡ true
      → any p b'.ledger ≡ true
  keyed-kept p e none b b' h m = row-kept p e _ count_failed b.world b b' h m
  keyed-kept p e (some u) b b' h m = elim (Bool-cases (any (is_row_of t u) b.ledger)) [
    | inl known ↦ rw (sym (some-injective _ _ (rw known at h))) m
    | inr new ↦ reply-kept p e u (apply_event e b.world) b b' (rw new at h) m
  ]

  ingest-kept :
      (p : Row → Bool) (cursor : ℤ) (e : Event) (b b' : Batch W)
      → ingest apply_event t cursor e b ≡ some b'
      → any p b.ledger ≡ true
      → any p b'.ledger ≡ true
  unfolding ingest
  ingest-kept p cursor e b b' h m = elim (Bool-cases (leb_ℤ e.seq cursor)) [
    | inl old ↦ rw (sym (some-injective _ _ (rw old at h))) m
    | inr due ↦ keyed-kept p e (uuid_of e) b b' (rw due at h) m
  ]

  keyless_fails :
      (cursor : ℤ) (e : Event) (b : Batch W)
      → is_keyless cursor e ≡ true
      → any (is_row_of t "(none)") b.ledger ≡ true
      → ingest apply_event t cursor e b ≡ none
  unfolding ingest create
  keyless_fails cursor e b h m = go (uuid_of e) h
    where
      go :
          (o : Option String)
          → (not (leb_ℤ e.seq cursor) && elim o [ none ↦ true | some u ↦ false ]) ≡ true
          → (if leb_ℤ e.seq cursor then some b else ingest_keyed apply_event t e o b) ≡ none
      go none h = ground arith
      go (some u) h = ground arith

  blocked :
      (cursor : ℤ) (es : List Event) (b : Batch W)
      → any (is_keyless cursor) es ≡ true
      → any (is_row_of t "(none)") b.ledger ≡ true
      → ingest_all apply_event t cursor es b ≡ none
  blocked cursor [] b h m = cc
  blocked cursor (e ∷ es) b h m = elim (Bool-cases (is_keyless cursor e)) [
    | inl here ↦ rw (keyless_fails cursor e b here m) refl
    | inr later ↦ next_blocked (ingest apply_event t cursor e b) _ (λ next q.
        blocked cursor es next (ground arith)
          (ingest-kept (is_row_of t "(none)") cursor e b next q m))
  ]
    where
      next_blocked :
          (o : Option (Batch W)) (f : Batch W → Option (Batch W))
          → ((next : Batch W) → o ≡ some next → f next ≡ none)
          → and_then o f ≡ none
      next_blocked none f h = refl
      next_blocked (some next) f h = h next refl

  -- Once the ledger of a terminal holds an event without a key, every batch of the terminal with
  -- another such event beyond the cursor fails as a whole, whatever else it holds: nothing of it is
  -- kept and there is no answer.
  pub push-blocked :
      (es : List Event) (c : Cloud W)
      → any (is_keyless c.last_acked_seq) es ≡ true
      → any (is_row_of t "(none)") c.ledger ≡ true
      → push apply_event t es c ≡ (c, none)
  unfolding push
  push-blocked es c h m =
      rw
        (blocked c.last_acked_seq (sort_by_seq es) (opened c)
          (any-sort (is_keyless c.last_acked_seq) es ∙ h) m)
        refl
