-- ===== src/Settings/Choice.antt =====
-- models/config_platform.py of addons/mezze_bridge: the choice of the cascade where no scope locks.
use menes_pos.Settings.Resolve.{Scope, user, device, Contribution, lock_of}
use menes_pos.Settings.Cascade.{is_lock, Winner, pick, winner_lock}
use menes_pos.Settings.User.{is_locked}
use menes_pos.Prelude.{
  ◌≡◌, refl, sym, subst, inl, inr, Bool, true, false, not, ◌&&◌, Option, none, some, List, [], ◌∷◌,
  ◌++◌, arith, if◌then◌else◌, Bool-cases, all, All,
}

abbrev pub is_open : Option Contribution → Bool
is_open none = true
is_open (some c) = not (is_lock c.policy)

pub pick-open :
    (at : Scope → Option Contribution) (w : Winner) (scopes : List Scope)
    → is_locked (winner_lock (pick at w scopes)) ≡ false
    → all (λ sc. is_open (at sc)) scopes ≡ true
pick-open at w [] h = refl
pick-open at w (sc ∷ scopes) h = go (at sc) h (λ w'. pick-open at w' scopes)
  where
    locks : (c : Contribution) → is_lock c.policy ≡ true → is_locked (lock_of c.policy) ≡ true
    locks c e = ground arith

    go :
        (o : Option Contribution)
        → is_locked (
            winner_lock (elim o [
              | none ↦ pick at w scopes
              | some c ↦ if is_lock c.policy then some (sc, c) else pick at (some (sc, c)) scopes
            ]))
          ≡ false
        → ((w' : Winner)
            → is_locked (winner_lock (pick at w' scopes)) ≡ false
            → all (λ sc. is_open (at sc)) scopes ≡ true)
        → (is_open o && all (λ sc. is_open (at sc)) scopes) ≡ true
    go none e ih = ih w e
    go (some c) e ih = elim (Bool-cases (is_lock c.policy)) [
      | inl lock ↦ absurd (clash (rw lock at e) (locks c lock))
      | inr unlock ↦ rw unlock (ih (some (sc, c)) (rw unlock at e))
    ]
      where
        clash : {b : Bool} → b ≡ false → b ≡ true → ⊥
        clash p q = cc

-- Open scopes above leave the choice to the scopes below.
pub pick-upper :
    (at at' : Scope → Option Contribution) (w : Winner) (upper rest : List Scope)
    → all (λ sc. is_open (at sc)) upper ≡ true
    → All (λ sc. at' sc ≡ at sc) upper
    → (w' : Winner) × (pick at' w (upper ++ rest) ≡ pick at' w' rest)
pick-upper at at' w [] rest h same = (w, refl)
pick-upper at at' w (sc ∷ upper) rest h same =
    rw same.0 (go (at sc) h (λ w' e. pick-upper at at' w' upper rest e same.1))
  where
    go :
        (o : Option Contribution)
        → (is_open o && all (λ sc. is_open (at sc)) upper) ≡ true
        → ((w' : Winner)
            → all (λ sc. is_open (at sc)) upper ≡ true
            → (w2 : Winner) × (pick at' w' (upper ++ rest) ≡ pick at' w2 rest))
        → (w' : Winner) × ((elim o [
          | none ↦ pick at' w (upper ++ rest)
          | some c ↦
              if is_lock c.policy then some (sc, c) else pick at' (some (sc, c)) (upper ++ rest)
        ])
            ≡ pick at' w' rest)
    go none e ih = ih w e
    go (some c) e ih = elim (Bool-cases (is_lock c.policy)) [
      | inl lock ↦ absurd (clash (rw lock at e))
      | inr unlock ↦ rw unlock (ih (some (sc, c)) (rw unlock at e))
    ]
      where
        clash : false ≡ true → ⊥
        clash p = cc

-- With nothing at the device, the user's contribution decides.
pub pick-user :
    (at : Scope → Option Contribution) (w : Winner) (c : Contribution)
    → at user ≡ some c
    → at device ≡ none
    → pick at w (user ∷ device ∷ []) ≡ some (user, c)
pick-user at w c mine none_below =
    subst (λ o. chosen o (at device) ≡ some (user, c)) (sym mine)
      (subst (λ o. chosen (some c) o ≡ some (user, c)) (sym none_below) (either (is_lock c.policy)))
  where
    below : Contribution → Option Contribution → Winner
    below d o = elim o [
      | none ↦ some (user, d)
      | some e ↦ if◌then◌else◌ {A = Winner} (is_lock e.policy) (some (device, e)) (some (device, e))
    ]

    chosen : Option Contribution → Option Contribution → Winner
    chosen o p = elim o [
      | none ↦ pick at w (device ∷ [])
      | some d ↦ if◌then◌else◌ {A = Winner} (is_lock d.policy) (some (user, d)) (below d p)
    ]

    either :
        (b : Bool) → if◌then◌else◌ {A = Winner} b (some (user, c)) (some (user, c)) ≡ some (user, c)
    either true = refl
    either false = refl

pub all-front :
    {A : Type 0} (p : A → Bool) (xs ys : List A) → all p (xs ++ ys) ≡ true → all p xs ≡ true
all-front p [] ys h = refl
all-front p (x ∷ xs) ys h = ground (arith, all-front p xs ys)
