-- ===== src/Sync/Pages.antt =====
-- controllers/sync.py of addons/mezze_bridge: what a terminal has that pulls page after page.
use menes_pos.Sync.Pull.{Row, is_after, to_string, last_row}
use menes_pos.Prelude.{
  ℕ, zero, suc, ◌/◌, ◌≤◌, ◌<◌, ◌≡◌, refl, ap, subst, inl, inr, Bool, true, false, ◌&&◌, Option,
  none, some, List, [], ◌∷◌, ◌++◌, arith, ◌==◌, if◌then◌else◌, ==_iff, Bool-cases, length, all,
  keep, take, All, In, All-In,
}

-- A row may stand behind another one: it is no older, and the watermark made of the other lets it
-- through.
abbrev pub Follows : Row → Row → Type 0
Follows r x = (r.write_date ≤ x.write_date) × (to_string r.write_date < x.write_date)

abbrev pub InOrder : List Row → Type 0
InOrder [] = Unit
InOrder (r ∷ rs) = All (Follows r) rs × InOrder rs

-- A time without a fraction of a second, as the watermarks in the answers are.
abbrev pub IsWhole : Option ℕ → Type 0
IsWhole none = Unit
IsWhole (some t) = to_string t ≡ t

abbrev pub in_second : ℕ → Row → Bool
in_second s r = r.write_date / 1000000 == s

abbrev pub drop : ℕ → List Row → List Row
drop zero rs = rs
drop (suc n) [] = []
drop (suc n) (r ∷ rs) = drop n rs

pub take-drop : (n : ℕ) (rs : List Row) → take n rs ++ drop n rs ≡ rs
take-drop zero rs = refl
take-drop (suc n) [] = refl
take-drop (suc n) (r ∷ rs) = ap (λ x. r ∷ x) (take-drop n rs)

pub take_short : (n : ℕ) (rs : List Row) → length (take n rs) < n → take n rs ≡ rs
take_short zero rs h = absurd (omega arith)
take_short (suc n) [] h = refl
take_short (suc n) (r ∷ rs) h = ap (λ x. r ∷ x) (take_short n rs (omega arith))

pub length-take_le : (n : ℕ) (rs : List Row) → length (take n rs) ≤ n
length-take_le zero rs = omega arith
length-take_le (suc n) [] = omega arith
length-take_le (suc n) (r ∷ rs) = omega (arith, length-take_le n rs)

-- ## Orders

keep-All : (P : Row → Type 0) (p : Row → Bool) (rs : List Row) → All P rs → All P (keep p rs)
keep-All P p [] h = tt
keep-All P p (r ∷ rs) h = elim (Bool-cases (p r)) [
  | inl t ↦ rw t (h.0, keep-All P p rs h.1)
  | inr f ↦ rw f (keep-All P p rs h.1)
]

pub keep-InOrder : (p : Row → Bool) (rs : List Row) → InOrder rs → InOrder (keep p rs)
keep-InOrder p [] o = tt
keep-InOrder p (r ∷ rs) o = elim (Bool-cases (p r)) [
  | inl t ↦ rw t (keep-All (Follows r) p rs o.0, keep-InOrder p rs o.1)
  | inr f ↦ rw f (keep-InOrder p rs o.1)
]

take-All : (P : Row → Type 0) (n : ℕ) (rs : List Row) → All P rs → All P (take n rs)
take-All P zero rs h = tt
take-All P (suc n) [] h = tt
take-All P (suc n) (r ∷ rs) h = (h.0, take-All P n rs h.1)

pub take-InOrder : (n : ℕ) (rs : List Row) → InOrder rs → InOrder (take n rs)
take-InOrder zero rs o = tt
take-InOrder (suc n) [] o = tt
take-InOrder (suc n) (r ∷ rs) o = (take-All (Follows r) n rs o.0, take-InOrder n rs o.1)

pub last_row-later :
    (r : Row) (rs : List Row) → InOrder (r ∷ rs) → r.write_date ≤ (last_row r rs).write_date
last_row-later r [] o = omega arith
last_row-later r (x ∷ xs) o =
    let first = o.0.0.0 in let rest = last_row-later x xs o.1 in omega arith

-- What stands behind a page is let through by the watermark of the page.
pub behind-is_after :
    (n : ℕ) (r : Row) (rs : List Row) (x : Row)
    → InOrder (r ∷ rs)
    → In x (drop n rs)
    → is_after (some (to_string (last_row r (take n rs)).write_date)) x ≡ true
behind-is_after zero r rs x o m = let later = (All-In (Follows r) rs x o.0 m).1 in ground arith
behind-is_after (suc n) r [] x o m = absurd m
behind-is_after (suc n) r (y ∷ ys) x o m = behind-is_after n y ys x o.1 m

-- ## Progress

-- Rows in order whose first and last are of one second are all of that second.
pub one_second :
    (s : ℕ) (r : Row) (rs : List Row)
    → InOrder (r ∷ rs)
    → in_second s r ≡ true
    → in_second s (last_row r rs) ≡ true
    → all (in_second s) (r ∷ rs) ≡ true
one_second s r [] o first last = rw first refl
one_second s r (x ∷ xs) o first last = rw first (one_second s x xs o.1 (between) last)
  where
    between : in_second s x ≡ true
    between =
        let low = o.0.0.0 in
        let high = last_row-later x xs o.1 in
        (==_iff _ _).1 (
          squeeze r.write_date x.write_date _ low high ((==_iff _ _).0 first) ((==_iff _ _).0 last))
      where
        squeeze : (a b c : ℕ) → a ≤ b → b ≤ c → a / 1000000 ≡ s → c / 1000000 ≡ s → b / 1000000 ≡ s
        squeeze a b c h k e f = omega arith

pub length-taken :
    (q p : Row → Bool) (n : ℕ) (rs : List Row)
    → all q (take n (keep p rs)) ≡ true
    → length (take n (keep p rs)) ≤ length (keep q rs)
length-taken q p zero rs h = omega arith
length-taken q p (suc n) [] h = omega arith
length-taken q p (suc n) (r ∷ rs) h = elim (Bool-cases (p r)) [
  | inl t ↦ rw t (counted (q r) (rw t at h) (length-taken q p n rs))
  | inr f ↦ rw f (skipped (q r) (length-taken q p (suc n) rs (rw f at h)))
]
  where
    counted :
        (b : Bool)
        → (b && all q (take n (keep p rs))) ≡ true
        → (all q (take n (keep p rs)) ≡ true → length (take n (keep p rs)) ≤ length (keep q rs))
        → suc (length (take n (keep p rs))) ≤ length (if b then r ∷ keep q rs else keep q rs)
    counted false e ih = cc
    counted true e ih = let le = ih e in omega arith

    skipped :
        {m : ℕ} (b : Bool)
        → m ≤ length (keep q rs)
        → m ≤ length (if b then r ∷ keep q rs else keep q rs)
    skipped false le = le
    skipped true le = omega arith

module _ (p q : Row → Bool) (weaker : (x : Row) → q x ≡ true → p x ≡ true) where
  length-keep_le : (rs : List Row) → length (keep q rs) ≤ length (keep p rs)
  length-keep_le [] = omega arith
  length-keep_le (r ∷ rs) = ground (arith, weaker r, length-keep_le rs)

  pub length-keep_lt :
      (rs : List Row) (x : Row)
      → In x rs
      → p x ≡ true
      → q x ≡ false
      → length (keep q rs) < length (keep p rs)
  length-keep_lt [] x m h k = absurd m
  length-keep_lt (r ∷ rs) x (inl e) h k =
      first (subst (λ y. p y ≡ true) e h) (subst (λ y. q y ≡ false) e k)
    where
      first : p r ≡ true → q r ≡ false → length (keep q (r ∷ rs)) < length (keep p (r ∷ rs))
      first t f = rw (t, f) (let le = length-keep_le rs in omega arith)
  length-keep_lt (r ∷ rs) x (inr m) h k = ground (arith, weaker r, length-keep_lt rs x m h k)
