-- ===== src/Outbox/Claim.antt =====
-- `_claim`: what it takes from an ordered table, and what it leaves.
use menes_pos.Prelude.{
  ℕ, ◌+◌, ◌≤◌, ◌<◌, String, ◌≡◌, refl, sym, ap, ◌∙◌, subst, ◌≢◌, ◌⊎◌, inl, inr, Bool, true, false,
  not, ◌&&◌, Option, none, some, List, [], ◌∷◌, map, arith, ◌==◌, if◌then◌else◌, str_eq_iff, ==_iff,
  Bool-cases, any, All, In, In-map, In-keep, In-take, any-In,
}
use menes_pos.Outbox.Policy.{inflight, pending, done}
use menes_pos.Outbox.Store.{
  Event, same_aggregate, option_eq, blocks, eligible, select_rows, mem_id, claimed_row, claim,
}
use menes_pos.Outbox.Ordered.{
  map-All_id, map-Ascending, Ascending, InOrder, same_id_row, map-InOrder, update-Keeps,
}

mem_id-map :
    (i : ℕ) (es : List Event)
    → mem_id i (map (λ (e : Event). e.id) es) ≡ true
    → (c : Event) × In c es × (c.id ≡ i)
mem_id-map i [] h = cc
mem_id-map i (e ∷ es) h = elim (Bool-cases (e.id == i)) [
  | inl t ↦ (e, inl refl, (==_iff e.id i).0 t)
  | inr t ↦ let r = mem_id-map i es (rw t at h) in (r.0, inr r.1, r.2)
]

-- What is known of a row that the claim has chosen.
select_rows-In :
    (now : ℕ) (locked : ℕ → Bool) (batch_size : ℕ) (es : List Event) (e : Event)
    → In e (select_rows now locked batch_size es)
    → In e es × (eligible now es e ≡ true)
unfolding select_rows
select_rows-In now locked batch_size es e m =
    let r =
      In-keep (λ (x : Event). eligible now es x && not (locked x.id)) es e
        (In-take batch_size _ e m) in
    (r.0, left (eligible now es e) (not (locked e.id)) r.1)
  where
    left : (a b : Bool) → (a && b) ≡ true → a ≡ true
    left a b h = ground arith

eligible-not_done :
    (now : ℕ) (es : List Event) (e : Event) → eligible now es e ≡ true → e.status ≢ done
unfolding eligible
eligible-not_done now es e h = ground arith

eligible-After :
    (now : ℕ) (es : List Event) (e p : Event)
    → eligible now es e ≡ true
    → In p es
    → same_aggregate p e ≡ true
    → p.id < e.id
    → p.status ≡ done
unfolding eligible
eligible-After now es e p h m same lt =
    let clear = any-In (blocks e) es p (none_blocks h) m in ground arith
  where
    none_blocks : eligible now es e ≡ true → any (blocks e) es ≡ false
    none_blocks h = ground arith

-- A row whose id is among the claimed ids is a row that was chosen.
chosen_row :
    (now : ℕ) (locked : ℕ → Bool) (batch_size : ℕ) (es : List Event) (x : Event)
    → Ascending es
    → In x es
    → mem_id x.id (map (λ (e : Event). e.id) (select_rows now locked batch_size es)) ≡ true
    → eligible now es x ≡ true
chosen_row now locked batch_size es x h m t =
    let (c, mc, e) = mem_id-map x.id _ t in
    let r = select_rows-In now locked batch_size es c mc in
    subst (λ y. eligible now es y ≡ true) (same_id_row es c x h r.0 m e) r.1

-- Claiming keeps the ids.
pub claim_ids :
    (worker : String) (now : ℕ) (locked : ℕ → Bool) (later batch_size visibility bound : ℕ)
    (es : List Event)
    → Ascending es
    → All (λ (e : Event). e.id < bound) es
    → Ascending (claim worker now locked later batch_size visibility es).0
      × All (λ (e : Event). e.id < bound) (claim worker now locked later batch_size visibility es).0
unfolding claim
claim_ids worker now locked later batch_size visibility bound es h b =
    let keeps =
      update-Keeps (map (λ (e : Event). e.id) (select_rows now locked batch_size es))
        (claimed_row worker (later + visibility)) (λ e. (refl, refl, refl)) in
    (map-Ascending _ es keeps h, map-All_id (λ i. i < bound) _ es keeps b)

-- Claiming keeps the order.
pub claim-InOrder :
    (worker : String) (now : ℕ) (locked : ℕ → Bool) (later batch_size visibility : ℕ)
    (es : List Event)
    → Ascending es
    → InOrder es
    → InOrder (claim worker now locked later batch_size visibility es).0
unfolding claim
claim-InOrder worker now locked later batch_size visibility es h o =
    map-InOrder _ es (update-Keeps ids row (λ e. (refl, refl, refl))) stays started o
  where
    ids : List ℕ
    ids = map (λ (e : Event). e.id) (select_rows now locked batch_size es)

    row : Event → Event
    row = claimed_row worker (later + visibility)

    stays :
        (p : Event)
        → In p es
        → p.status ≡ done
        → (if mem_id p.id ids then row p else p).status ≡ done
    stays p m d = elim (Bool-cases (mem_id p.id ids)) [
      | inl t ↦ absurd (eligible-not_done now es p (chosen_row now locked batch_size es p h m t) d)
      | inr t ↦ rw t d
    ]

    started :
        (e : Event)
        → In e es
        → (if mem_id e.id ids then row e else e).status ≢ pending
        → (e.status ≢ pending)
          ⊎ ((p : Event) → In p es → same_aggregate p e ≡ true → p.id < e.id → p.status ≡ done)
    started e m n = elim (Bool-cases (mem_id e.id ids)) [
      | inl t ↦
          inr (λ p mp. eligible-After now es e p (chosen_row now locked batch_size es e h m t) mp)
      | inr t ↦ inl (rw t at n)
    ]

option_eq_sym : (a b : Option String) → option_eq a b ≡ true → option_eq b a ≡ true
option_eq_sym none none h = refl
option_eq_sym none (some b) h = cc
option_eq_sym (some a) none h = cc
option_eq_sym (some a) (some b) h = (str_eq_iff b a).1 (sym ((str_eq_iff a b).0 h))

same_aggregate_sym : (p e : Event) → same_aggregate p e ≡ true → same_aggregate e p ≡ true
same_aggregate_sym p e h =
    let t = option_eq_sym p.aggregate_type e.aggregate_type (ground arith) in
    let i = option_eq_sym p.aggregate_id e.aggregate_id (ground arith) in ground arith

select_rows_one :
    (now : ℕ) (locked : ℕ → Bool) (batch_size : ℕ) (es : List Event) (a b : Event)
    → In a (select_rows now locked batch_size es)
    → In b (select_rows now locked batch_size es)
    → same_aggregate a b ≡ true
    → ¬ (a.id < b.id)
select_rows_one now locked batch_size es a b ma mb same lt =
    let ra = select_rows-In now locked batch_size es a ma in
    let rb = select_rows-In now locked batch_size es b mb in
    eligible-not_done now es a ra.1 (eligible-After now es b a rb.1 ra.0 same lt)

-- A batch never holds two events of one aggregate: two claimed rows with the same aggregate type and
-- id are the same row.
pub claim_one_per_aggregate :
    (worker : String) (now : ℕ) (locked : ℕ → Bool) (later batch_size visibility : ℕ)
    (es : List Event) (a b : Event)
    → In a (claim worker now locked later batch_size visibility es).1
    → In b (claim worker now locked later batch_size visibility es).1
    → same_aggregate a b ≡ true
    → a.id ≡ b.id
unfolding claim
claim_one_per_aggregate worker now locked later batch_size visibility es a b ma mb same =
    let (x, mx, ex) = In-map _ _ ma in
    let (y, my, ey) = In-map _ _ mb in
    let ia : a.id ≡ x.id = ap (λ (e : Event). e.id) ex in
    let ib : b.id ≡ y.id = ap (λ (e : Event). e.id) ey in
    let both : same_aggregate x y ≡ true = rw (ex, ey) at same in
    let up = select_rows_one now locked batch_size es x y mx my both in
    let down = select_rows_one now locked batch_size es y x my mx (same_aggregate_sym x y both) in
    omega arith

In-mem_id :
    (es : List Event) (e : Event) → In e es → mem_id e.id (map (λ (x : Event). x.id) es) ≡ true
In-mem_id [] e m = absurd m
In-mem_id (x ∷ es) e (inl p) = let same = ap (λ (y : Event). y.id) p in ground arith
In-mem_id (x ∷ es) e (inr m) = let rest = In-mem_id es e m in ground arith

-- A row that was claimed is in flight and locked until the visibility timeout.
pub claim_locks :
    (worker : String) (now : ℕ) (locked : ℕ → Bool) (later batch_size visibility : ℕ)
    (es : List Event) (a c : Event)
    → In a (claim worker now locked later batch_size visibility es).1
    → In c (claim worker now locked later batch_size visibility es).0
    → c.id ≡ a.id
    → (c.status ≡ inflight) × (c.locked_until ≡ some (later + visibility))
unfolding claim
claim_locks worker now locked later batch_size visibility es a c ma mc e =
    let (y, my, ey) = In-map row chosen ma in
    let (x, mx, ex) = In-map (λ r. if mem_id r.id ids then row r else r) es mc in
    locked_row x y my ex (ap (λ (r : Event). r.id) ey)
  where
    chosen : List Event
    chosen = select_rows now locked batch_size es

    ids : List ℕ
    ids = map (λ (r : Event). r.id) chosen

    row : Event → Event
    row = claimed_row worker (later + visibility)

    locked_row :
        (x y : Event)
        → In y chosen
        → c ≡ (if mem_id x.id ids then row x else x)
        → a.id ≡ y.id
        → (c.status ≡ inflight) × (c.locked_until ≡ some (later + visibility))
    locked_row x y my ex ey =
        let kept : (if mem_id x.id ids then row x else x).id ≡ x.id =
          (update-Keeps ids row (λ r. (refl, refl, refl)) x).0 in
        let same : y.id ≡ x.id = sym ey ∙ sym e ∙ ap (λ (r : Event). r.id) ex ∙ kept in
        let hit : mem_id x.id ids ≡ true = rw same at (In-mem_id chosen y my) in
        rw (ex, hit) (refl, refl)

eligible_inflight :
    (now : ℕ) (es : List Event) (e : Event) {until : ℕ}
    → eligible now es e ≡ true
    → e.status ≡ inflight
    → e.locked_until ≡ some until
    → until < now
unfolding eligible
eligible_inflight now es e h st l = ground arith

-- Rows that one claim has taken cannot be claimed again from the table it leaves, by any worker and
-- with any limit, as long as their visibility timeout has not passed.
pub claim_exclusive :
    (worker other : String) (now later now' later' : ℕ) (locked locked' : ℕ → Bool)
    (batch_size batch_size' visibility visibility' : ℕ) (es : List Event) (a b : Event)
    → In a (claim worker now locked later batch_size visibility es).1
    → In b
        (claim other now' locked' later' batch_size' visibility'
          (claim worker now locked later batch_size visibility es).0).1
    → now' ≤ later + visibility
    → a.id ≢ b.id
unfolding claim
claim_exclusive worker other now later now' later' locked locked' batch_size batch_size' visibility
      visibility' es a b ma mb t e =
    let (c, mc, ec) =
      In-map (claimed_row other (later' + visibility'))
        (select_rows now' locked' batch_size' left_by) mb in
    let rc = select_rows-In now' locked' batch_size' left_by c mc in
    let held =
      claim_locks worker now locked later batch_size visibility es a c ma rc.0
        (sym (ap (λ (r : Event). r.id) ec) ∙ sym e) in
    let lt = eligible_inflight now' left_by c {until = later + visibility} rc.1 held.0 held.1 in
    omega arith
  where
    left_by : List Event
    left_by = (claim worker now locked later batch_size visibility es).0
