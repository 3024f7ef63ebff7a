-- ===== src/Outbox/Ordered.antt =====
-- The order of the event table: ids ascend, and within an aggregate an event is worked on only when
-- all before it are done. Changes of rows that keep it.
use menes_pos.Prelude.{
  ℕ, ◌<◌, ◌≡◌, refl, sym, ap, ◌∙◌, subst, ◌≢◌, ◌⊎◌, inl, inr, true, List, [], ◌∷◌, map, arith,
  if◌then◌else◌, Bool-cases, All, In, In-map, All-In,
}
use menes_pos.Outbox.Policy.{pending, done}
use menes_pos.Outbox.Store.{Event, Store, same_aggregate, mem_id}

-- The rows stand in the order of their ids.
abbrev pub Ascending : List Event → Type 0
Ascending [] = Unit
Ascending (e ∷ es) = All (λ (x : Event). e.id < x.id) es × Ascending es

-- If `e` has left `pending` and `p` is an earlier event of its aggregate, `p` is done.
abbrev pub After : Event → Event → Type 0
After p e = same_aggregate p e ≡ true → p.id < e.id → e.status ≢ pending → p.status ≡ done

-- An event has left `pending` only if every earlier event of its aggregate is done.
abbrev pub InOrder : List Event → Type 0
InOrder es = (p e : Event) → In p es → In e es → After p e

pub record IsOrdered (s : Store) : Type 0 where
  pub ascending : Ascending s.events
  pub fresh : All (λ (e : Event). e.id < s.next_id) s.events
  pub in_order : InOrder s.events

-- Ids identify rows.
pub same_id_row :
    (es : List Event) (a b : Event) → Ascending es → In a es → In b es → a.id ≡ b.id → a ≡ b
same_id_row [] a b h m n e = absurd m
same_id_row (x ∷ es) a b h (inl p) (inl q) e = p ∙ sym q
same_id_row (x ∷ es) a b h (inl p) (inr n) e =
    let lt = All-In (λ (y : Event). x.id < y.id) es b h.0 n in
    let same = ap (λ (y : Event). y.id) p in absurd (omega arith)
same_id_row (x ∷ es) a b h (inr m) (inl q) e =
    let lt = All-In (λ (y : Event). x.id < y.id) es a h.0 m in
    let same = ap (λ (y : Event). y.id) q in absurd (omega arith)
same_id_row (x ∷ es) a b h (inr m) (inr n) e = same_id_row es a b h.1 m n e

-- A change of rows that keeps what the order is about.
abbrev pub Keeps : (Event → Event) → Type 0
Keeps f =
    (e : Event)
    → ((f e).id ≡ e.id)
      × ((f e).aggregate_type ≡ e.aggregate_type)
      × ((f e).aggregate_id ≡ e.aggregate_id)

pub map-All_id :
    (P : ℕ → Type 0) (f : Event → Event) (es : List Event)
    → Keeps f
    → All (λ (x : Event). P x.id) es
    → All (λ (x : Event). P x.id) (map f es)
map-All_id P f [] k h = tt
map-All_id P f (e ∷ es) k h = (subst P (sym (k e).0) h.0, map-All_id P f es k h.1)

pub map-Ascending :
    (f : Event → Event) (es : List Event) → Keeps f → Ascending es → Ascending (map f es)
map-Ascending f [] k h = tt
map-Ascending f (e ∷ es) k h =
    (rw (k e).0 (map-All_id (λ i. e.id < i) f es k h.0), map-Ascending f es k h.1)

-- The order is kept by a change of rows under which done rows stay done, and a row that is not
-- pending afterwards was not pending before, or has only done rows before it.
pub map-InOrder :
    (f : Event → Event) (es : List Event)
    → Keeps f
    → ((p : Event) → In p es → p.status ≡ done → (f p).status ≡ done)
    → ((e : Event)
        → In e es
        → (f e).status ≢ pending
        → (e.status ≢ pending)
          ⊎ ((p : Event) → In p es → same_aggregate p e ≡ true → p.id < e.id → p.status ≡ done))
    → InOrder es
    → InOrder (map f es)
map-InOrder f es k stays started h p e mp me =
    let (p', np, ep) = In-map f es mp in
    let (e', ne, ee) = In-map f es me in
    subst (λ x. After x e) (sym ep) (subst (After (f p')) (sym ee) (at p' e' np ne))
  where
    at : (p e : Event) → In p es → In e es → After (f p) (f e)
    at p e np ne same lt started_now =
        let old_same : same_aggregate p e ≡ true =
          rw ((k p).1, (k p).2, (k e).1, (k e).2) at same in
        let old_lt : p.id < e.id = rw ((k p).0, (k e).0) at lt in
        stays p np (elim (started e ne started_now) [
          | inl q ↦ h p e np ne old_same old_lt q
          | inr q ↦ q p np old_same old_lt
        ])

pub update-Keeps :
    (ids : List ℕ) (g : Event → Event) → Keeps g → Keeps (λ e. if mem_id e.id ids then g e else e)
update-Keeps ids g k e = elim (Bool-cases (mem_id e.id ids)) [
  | inl t ↦ rw t (k e)
  | inr t ↦ rw t (refl, refl, refl)
]
