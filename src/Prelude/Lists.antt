-- ===== src/Prelude/Lists.antt =====
-- Lists and tables: measures over the native numbers, Boolean quantifiers, predicates by recursion
-- and Python's dict literals as association lists keyed by text.
use Prim.Native.Nat.{ℕ, zero, suc, ◌+◌}
use Prim.Native.String.{String}
use mathlib.Core.Path.{◌≡◌, subst}
use mathlib.Core.Bool.{Bool, true, false, ◌&&◌, ◌||◌}
use mathlib.Core.Logic.{inl, inr}
use mathlib.Core.Option.{Option, none, some}
use mathlib.Core.List.{List, [], ◌∷◌, ◌++◌}
use native.Mathlib.Omega.{arith}
use menes_pos.Prelude.Tests.{str_eq, if◌then◌else◌, Bool-cases}

module _ {ℓ} {A : Type ℓ} where
  abbrev pub length : List A → ℕ
  length [] = 0
  length (x ∷ xs) = suc (length xs)

  abbrev pub any : (A → Bool) → List A → Bool
  any p [] = false
  any p (x ∷ xs) = p x || any p xs

  abbrev pub all : (A → Bool) → List A → Bool
  all p [] = true
  all p (x ∷ xs) = p x && all p xs

  -- The entries that pass the test, in their order.
  abbrev pub keep : (A → Bool) → List A → List A
  keep p [] = []
  keep p (x ∷ xs) = let rest = keep p xs in if p x then x ∷ rest else rest

  abbrev pub take : ℕ → List A → List A
  take zero xs = []
  take (suc n) [] = []
  take (suc n) (x ∷ xs) = x ∷ take n xs

  abbrev pub All {κ} : (A → Type κ) → List A → Type κ
  All P [] = Unit
  All P (x ∷ xs) = P x × All P xs

  pub length-append : (xs ys : List A) → length (xs ++ ys) ≡ length xs + length ys
  length-append [] ys = omega arith
  length-append (x ∷ xs) ys = omega (arith, length-append xs ys)

-- `table.get(key)`, on a dict literal.
abbrev pub get {ℓ} : {V : Type ℓ} → List (String × V) → String → Option V
get [] k = none
get ((j, v) ∷ t) k = if str_eq j k then some v else get t k

abbrev pub get_or {ℓ} : {V : Type ℓ} → List (String × V) → String → V → V
get_or t k d = elim (get t k) [ none ↦ d | some v ↦ v ]

-- `key in names`
abbrev pub elem : String → List String → Bool
elem k [] = false
elem k (j ∷ js) = str_eq j k || elem k js

-- What holds of every entry of a table holds of what a lookup finds.
pub All-get {ℓ κ} :
    {V : Type ℓ} (P : V → Type κ) (t : List (String × V)) (k : String) {v : V}
    → All (λ (e : String × V). P e.1) t
    → get t k ≡ some v
    → P v
All-get P [] k h e = cc
All-get P ((j, w) ∷ t) k {v} h e = elim (Bool-cases (str_eq j k)) [
  | inl hit ↦ subst P (hit_value hit) h.0
  | inr miss ↦ All-get P t k h.1 (later miss)
]
  where
    hit_value : str_eq j k ≡ true → w ≡ v
    hit_value hit = ground arith

    later : str_eq j k ≡ false → get t k ≡ some v
    later miss = ground arith
