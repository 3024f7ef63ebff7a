-- ===== src/Prelude/Members.antt =====
-- Membership by recursion, which computes to sums that can be matched, and how the list operations
-- treat it.
use mathlib.Core.Path.{◌≡◌, refl, sym, subst}
use mathlib.Core.Logic.{◌⊎◌, inl, inr}
use mathlib.Core.Bool.{Bool, true, false}
use mathlib.Core.List.{List, [], ◌∷◌, ◌++◌, map}
use Prim.Native.Nat.{ℕ, zero, suc}
use native.Mathlib.Omega.{arith}
use menes_pos.Prelude.Tests.{Bool-cases}
use menes_pos.Prelude.Lists.{keep, take, any, All}

abbrev pub In : {A : Type 0} → A → List A → Type 0
In a [] = ⊥
In a (x ∷ xs) = (a ≡ x) ⊎ In a xs

pub In-map :
    {A B : Type 0} (f : A → B) (xs : List A) {b : B}
    → In b (map f xs)
    → (a : A) × In a xs × (b ≡ f a)
In-map f [] h = absurd h
In-map f (x ∷ xs) (inl e) = (x, inl refl, e)
In-map f (x ∷ xs) (inr m) = let r = In-map f xs m in (r.0, inr r.1, r.2)

module _ {A : Type 0} where
  pub In-keep : (p : A → Bool) (xs : List A) (a : A) → In a (keep p xs) → In a xs × (p a ≡ true)
  In-keep p [] a h = absurd h
  In-keep p (x ∷ xs) a h = elim (Bool-cases (p x)) [
    | inl t ↦ here t (In-keep p xs a) (rw t at h)
    | inr f ↦ let r = In-keep p xs a (rw f at h) in (inr r.0, r.1)
  ]
    where
      here :
          p x ≡ true
          → (In a (keep p xs) → In a xs × (p a ≡ true))
          → In a (x ∷ keep p xs)
          → In a (x ∷ xs) × (p a ≡ true)
      here t rest (inl e) = (inl e, rw e t)
      here t rest (inr m) = let r = rest m in (inr r.0, r.1)

  pub In-take : (n : ℕ) (xs : List A) (a : A) → In a (take n xs) → In a xs
  In-take zero xs a h = absurd h
  In-take (suc n) [] a h = absurd h
  In-take (suc n) (x ∷ xs) a (inl e) = inl e
  In-take (suc n) (x ∷ xs) a (inr m) = inr (In-take n xs a m)

  pub In-append : (xs ys : List A) (a : A) → In a (xs ++ ys) → In a xs ⊎ In a ys
  In-append [] ys a h = inr h
  In-append (x ∷ xs) ys a (inl e) = inl (inl e)
  In-append (x ∷ xs) ys a (inr m) = elim (In-append xs ys a m) [
    | inl l ↦ inl (inr l)
    | inr r ↦ inr r
  ]

  pub All-In {κ} : (P : A → Type κ) (xs : List A) (a : A) → All P xs → In a xs → P a
  All-In P [] a h m = absurd m
  All-In P (x ∷ xs) a h (inl e) = subst P (sym e) h.0
  All-In P (x ∷ xs) a h (inr m) = All-In P xs a h.1 m

  pub any-In : (p : A → Bool) (xs : List A) (a : A) → any p xs ≡ false → In a xs → p a ≡ false
  any-In p [] a h m = absurd m
  any-In p (x ∷ xs) a h (inl e) = rw e (first h)
    where
      first : any p (x ∷ xs) ≡ false → p x ≡ false
      first h = ground arith
  any-In p (x ∷ xs) a h (inr m) = any-In p xs a (later h) m
    where
      later : any p (x ∷ xs) ≡ false → any p xs ≡ false
      later h = ground arith

  pub All-intro : (P : A → Type 0) (xs : List A) → ((a : A) → In a xs → P a) → All P xs
  All-intro P [] h = tt
  All-intro P (x ∷ xs) h = (h x (inl refl), All-intro P xs (λ a m. h a (inr m)))

pub In-left : {A : Type 0} (xs ys : List A) (a : A) → In a xs → In a (xs ++ ys)
In-left [] ys a m = absurd m
In-left (x ∷ xs) ys a (inl e) = inl e
In-left (x ∷ xs) ys a (inr m) = inr (In-left xs ys a m)

pub In-last : {A : Type 0} (xs : List A) (a : A) → In a (xs ++ a ∷ [])
In-last [] a = inl refl
In-last (x ∷ xs) a = inr (In-last xs a)

pub In-kept :
    {A : Type 0} (p : A → Bool) (xs : List A) (a : A) → In a xs → p a ≡ true → In a (keep p xs)
In-kept p [] a m h = absurd m
In-kept p (x ∷ xs) a (inl e) h = rw (subst (λ v. p v ≡ true) e h) (inl e)
In-kept p (x ∷ xs) a (inr m) h = elim (Bool-cases (p x)) [
  | inl t ↦ rw t (inr (In-kept p xs a m h))
  | inr f ↦ rw f (In-kept p xs a m h)
]

pub any-holds :
    {A : Type 0} (p : A → Bool) (xs : List A) (a : A) → In a xs → p a ≡ true → any p xs ≡ true
any-holds p [] a m h = absurd m
any-holds p (x ∷ xs) a (inl e) h = rw (subst (λ v. p v ≡ true) e h) refl
any-holds p (x ∷ xs) a (inr m) h = rw (any-holds p xs a m h) (ground arith)
