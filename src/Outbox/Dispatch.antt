-- ===== src/Outbox/Dispatch.antt =====
-- Delivering a batch and the tries of a batch keep the order; what a batch counts, and
-- what a failure and an exhausted batch leave.
use menes_pos.Outbox.Claim.{claim-InOrder, claim_locks, claim_ids}
use menes_pos.Prelude.{
  ℕ, zero, suc, ◌+◌, ◌<◌, String, ◌≡◌, refl, sym, ◌∙◌, ◌≢◌, Bool, Option, none, some, List, [], ◌∷◌,
  arith, length, keep, take, All, All-intro, ℤ,
}
use menes_pos.Outbox.Store.{
  no_counts, Try, try_batch, dispatch_batch, Event, Store, select_rows, claim, Consumers, consume,
  Counts, settle, deliver_all,
}
use menes_pos.Outbox.Ordered.{Ascending, IsOrdered, map-Ascending}
use menes_pos.Outbox.Settle.{Held, OnSome, settled, Turn, settle-Turn}

-- What the loop over the claimed events does.
abbrev Turns : ℕ → Counts → Store × Counts → Type 0
Turns n c (s', c') = IsOrdered s' × (c'.claimed ≡ c.claimed) × (settled c' ≡ n + settled c)

deliver_all-Turns :
    (consumers : Consumers) (now : ℕ) (max_attempts : ℤ) (es : List Event) (s : Store) (c : Counts)
    → IsOrdered s
    → Ascending es
    → All (Held s.events) es
    → OnSome (Turns (length es) c) (deliver_all consumers now max_attempts es (s, c))
unfolding deliver_all
deliver_all-Turns consumers now max_attempts [] s c o a h = (o, refl, omega arith)
deliver_all-Turns consumers now max_attempts (e ∷ es) s c o a h =
    go (settle now max_attempts e (consume consumers e) (s, c))
      (settle-Turn now max_attempts e (consume consumers e) s c o h.0)
      (λ s' c'. deliver_all-Turns consumers now max_attempts es s' c')
  where
    rest_Held :
        (s' : Store) (ds : List Event)
        → ((d : Event) → e.id ≢ d.id → Held s.events d → Held s'.events d)
        → All (λ (d : Event). e.id < d.id) ds
        → All (Held s.events) ds
        → All (Held s'.events) ds
    rest_Held s' [] k lt held = tt
    rest_Held s' (d ∷ ds) k lt held =
        let first = lt.0 in (k d (omega arith) held.0, rest_Held s' ds k lt.1 held.1)

    go :
        (r : Option (Store × Counts))
        → OnSome (Turn e (s, c)) r
        → ((s' : Store) (c' : Counts)
            → IsOrdered s'
            → Ascending es
            → All (Held s'.events) es
            → OnSome (Turns (length es) c') (deliver_all consumers now max_attempts es (s', c')))
        → OnSome
            (Turns (suc (length es)) c)
            (elim r [ none ↦ none | some acc ↦ deliver_all consumers now max_attempts es acc ])
    go none t ih = tt
    go (some (s', c')) t ih =
        weaken (deliver_all consumers now max_attempts es (s', c'))
          (ih s' c' t.0 a.1 (rest_Held s' es t.1 a.0 h.1))
      where
        weaken :
            (r : Option (Store × Counts))
            → OnSome (Turns (length es) c') r
            → OnSome (Turns (suc (length es)) c) r
        weaken none w = tt
        weaken (some (u, d)) w =
            let counted : settled c' ≡ suc (settled c) = t.3 in (w.0, w.1 ∙ t.2, omega arith)

chosen-Ascending :
    (worker : String) (now : ℕ) (locked : ℕ → Bool) (later batch_size visibility : ℕ)
    (es : List Event)
    → Ascending es
    → Ascending (claim worker now locked later batch_size visibility es).1
unfolding claim select_rows
chosen-Ascending worker now locked later batch_size visibility es h =
    map-Ascending _ _ (λ e. (refl, refl, refl))
      (take-Ascending batch_size _ (keep-Ascending _ es h))
  where
    keep-All :
        (i : ℕ) (p : Event → Bool) (xs : List Event)
        → All (λ (x : Event). i < x.id) xs
        → All (λ (x : Event). i < x.id) (keep p xs)
    keep-All i p [] h = tt
    keep-All i p (x ∷ xs) h = ground (arith, keep-All i p xs h.1)

    keep-Ascending : (p : Event → Bool) (xs : List Event) → Ascending xs → Ascending (keep p xs)
    keep-Ascending p [] h = tt
    keep-Ascending p (x ∷ xs) h = ground (arith, keep-Ascending p xs h.1, keep-All x.id p xs h.0)

    take-All :
        (i n : ℕ) (xs : List Event)
        → All (λ (x : Event). i < x.id) xs
        → All (λ (x : Event). i < x.id) (take n xs)
    take-All i zero xs h = tt
    take-All i (suc n) [] h = tt
    take-All i (suc n) (x ∷ xs) h = (h.0, take-All i n xs h.1)

    take-Ascending : (n : ℕ) (xs : List Event) → Ascending xs → Ascending (take n xs)
    take-Ascending zero xs h = tt
    take-Ascending (suc n) [] h = tt
    take-Ascending (suc n) (x ∷ xs) h = (take-All x.id n xs h.0, take-Ascending n xs h.1)

-- The tries of a batch: the store they end with is ordered, and every claimed event was settled.
abbrev BatchEnd : Store × Counts → Type 0
BatchEnd (s, c) = IsOrdered s × (settled c ≡ c.claimed)

try_batch-BatchEnd :
    (worker : String) (batch_size : ℕ) (max_attempts : ℤ) (visibility : ℕ) (t : Try) (s : Store)
    → IsOrdered s
    → OnSome BatchEnd (try_batch worker batch_size max_attempts visibility t s)
unfolding try_batch
try_batch-BatchEnd worker batch_size max_attempts visibility t s o = finish _ (
    deliver_all-Turns t.consumers t.later max_attempts chosen start begun
      (record {
        ascending =
            (claim_ids worker t.now t.locked t.later batch_size visibility s.next_id s.events
              o.ascending o.fresh).0;
        fresh =
            (claim_ids worker t.now t.locked t.later batch_size visibility s.next_id s.events
              o.ascending o.fresh).1;
        in_order =
            claim-InOrder worker t.now t.locked t.later batch_size visibility s.events o.ascending
              o.in_order;
      })
      (chosen-Ascending worker t.now t.locked t.later batch_size visibility s.events o.ascending)
      (All-intro (Held start.events) chosen (λ a ma x mx e.
        (claim_locks worker t.now t.locked t.later batch_size visibility s.events a x ma mx e).0)))
  where
    chosen : List Event
    chosen = (claim worker t.now t.locked t.later batch_size visibility s.events).1

    start : Store
    start = record s {
      events = (claim worker t.now t.locked t.later batch_size visibility s.events).0;
    }

    begun : Counts
    begun = record { claimed = length chosen; delivered = 0; failures = 0; dead_letters = 0 }

    finish :
        (r : Option (Store × Counts)) → OnSome (Turns (length chosen) begun) r → OnSome BatchEnd r
    finish none h = tt
    finish (some (s', c')) h =
        let counted : settled c' ≡ length chosen + 0 = h.2 in
        let same : c'.claimed ≡ length chosen = h.1 in (h.0, omega arith)

-- How a batch ends: ordered, with every claimed event delivered, failed or dead; and with nothing
-- changed and nothing counted if every try raises.
abbrev pub DispatchEnd : (Try → Type 0) → List Try → Store → Store × Counts → Type 0
DispatchEnd Raises tries s (s', c) =
    IsOrdered s'
    × (c.delivered + c.failures + c.dead_letters ≡ c.claimed)
    × (All Raises tries → (s' ≡ s) × (c ≡ no_counts))

-- Dispatching a batch keeps the order, whatever the handlers reply and however many tries raise a
-- concurrency error, and it accounts for what it claims: delivered, failed and dead events add up to
-- the claimed ones. If every try raises, the store is as it was and all counts are zero.
pub dispatch_batch-IsOrdered :
    (worker : String) (batch_size : ℕ) (max_attempts : ℤ) (visibility : ℕ) (tries : List Try)
    (s : Store)
    → IsOrdered s
    → DispatchEnd
        (λ t. try_batch worker batch_size max_attempts visibility t s ≡ none)
        tries
        s
        (dispatch_batch worker batch_size max_attempts visibility tries s)
unfolding dispatch_batch
dispatch_batch-IsOrdered worker batch_size max_attempts visibility [] s o =
    (o, refl, λ h. (refl, refl))
dispatch_batch-IsOrdered worker batch_size max_attempts visibility (t ∷ ts) s o =
    pick (dispatch_batch worker batch_size max_attempts visibility ts s)
      (try_batch worker batch_size max_attempts visibility t s) refl
      (try_batch-BatchEnd worker batch_size max_attempts visibility t s o)
      (dispatch_batch-IsOrdered worker batch_size max_attempts visibility ts s o)
  where
    Raises : Try → Type 0
    Raises u = try_batch worker batch_size max_attempts visibility u s ≡ none

    pick :
        (again : Store × Counts) (r : Option (Store × Counts))
        → try_batch worker batch_size max_attempts visibility t s ≡ r
        → OnSome BatchEnd r
        → DispatchEnd Raises ts s again
        → DispatchEnd Raises (t ∷ ts) s (elim r [ none ↦ again | some a ↦ a ])
    pick (s', c) none e b rest = (rest.0, rest.1, λ h. rest.2 h.1)
    pick again (some (s', c)) e b rest = (b.0, b.1, λ h. cc (sym e ∙ h.0))
