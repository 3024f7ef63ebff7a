-- ===== src/Settings/Dict.antt =====
-- A Python dict with text keys as a list of entries, in the order of their first insertion.
use menes_pos.Prelude.{
  String, ◌≡◌, refl, sym, ap, ◌∙◌, subst, inl, inr, Bool, true, false, Option, none, some, List, [],
  ◌∷◌, arith, if◌then◌else◌, str_eq, str_eq_iff, Bool-cases, get,
}

-- `d[k] = v`
abbrev pub put {ℓ} : {V : Type ℓ} → String → V → List (String × V) → List (String × V)
put k v [] = (k, v) ∷ []
put k v ((j, w) ∷ d) = let rest = put k v d in if str_eq j k then (j, v) ∷ d else (j, w) ∷ rest

abbrev pub puts {ℓ} : {V : Type ℓ} → List (String × V) → List (String × V) → List (String × V)
puts [] d = d
puts ((k, v) ∷ es) d = puts es (put k v d)

-- No key twice.
abbrev pub DistinctKeys {ℓ} : {V : Type ℓ} → List (String × V) → Type ℓ
DistinctKeys [] = Unit
DistinctKeys ((k, v) ∷ d) = (get d k ≡ none) × DistinctKeys d

pub str_eq_sym : (j k : String) → str_eq j k ≡ str_eq k j
str_eq_sym j k =
    same_truth (str_eq j k) (str_eq k j) (λ e. (str_eq_iff k j).1 (sym ((str_eq_iff j k).0 e)))
      (λ e. (str_eq_iff j k).1 (sym ((str_eq_iff k j).0 e)))
  where
    same_truth : (a b : Bool) → (a ≡ true → b ≡ true) → (b ≡ true → a ≡ true) → a ≡ b
    same_truth true b f g = sym (f refl)
    same_truth false true f g = g refl
    same_truth false false f g = refl

pub str_eq_other : (i k j : String) → str_eq i k ≡ false → str_eq i j ≡ true → str_eq k j ≡ false
str_eq_other i k j other same =
    subst (λ x. str_eq k x ≡ false) ((str_eq_iff i j).0 same) (str_eq_sym k i ∙ other)

module _ {ℓ} {V : Type ℓ} where
  pub get-put :
      (k j : String) (v : V) (d : List (String × V))
      → get (put k v d) j ≡ (if str_eq k j then some v else get d j)
  get-put k j v [] = refl
  get-put k j v ((i, w) ∷ d) = elim (Bool-cases (str_eq i k)) [
    | inl same ↦ rw same (rw ((str_eq_iff i k).0 same) (ground arith))
    | inr other ↦ rw other (elim (Bool-cases (str_eq i j)) [
      | inl here ↦ rw (here, str_eq_other i k j other here) refl
      | inr there ↦ rw there (get-put k j v d)
    ])
  ]

  pub put-DistinctKeys :
      (k : String) (v : V) (d : List (String × V)) → DistinctKeys d → DistinctKeys (put k v d)
  put-DistinctKeys k v [] h = (refl, tt)
  put-DistinctKeys k v ((i, w) ∷ d) h = elim (Bool-cases (str_eq i k)) [
    | inl same ↦ rw same h
    | inr other ↦
        rw other (get-put k i v d ∙ rw (str_eq_sym k i, other) h.0, put-DistinctKeys k v d h.1)
  ]

  pub puts-DistinctKeys : (es d : List (String × V)) → DistinctKeys d → DistinctKeys (puts es d)
  puts-DistinctKeys [] d h = h
  puts-DistinctKeys ((k, v) ∷ es) d h = puts-DistinctKeys es (put k v d) (put-DistinctKeys k v d h)

  -- The last entry of a key decides.
  abbrev pub last_entry : String → List (String × V) → Option V → Option V
  last_entry j [] o = o
  last_entry j ((k, v) ∷ es) o = last_entry j es (if str_eq k j then some v else o)

  pub get-puts :
      (j : String) (es d : List (String × V)) → get (puts es d) j ≡ last_entry j es (get d j)
  get-puts j [] d = refl
  get-puts j ((k, v) ∷ es) d = get-puts j es (put k v d) ∙ ap (last_entry j es) (get-put k j v d)
