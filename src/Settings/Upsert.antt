-- ===== src/Settings/Upsert.antt =====
-- models/config_platform.py of addons/mezze_bridge: the row that a user writes is the row that is read.
use menes_pos.Settings.Resolve.{user, ConfigValue, Contribution, is_value_at, of_value}
use menes_pos.Settings.User.{is_user_row, user_row, upsert}
use menes_pos.Settings.Saved.{one_value, last_value, last_value-cons}
use menes_pos.Prelude.{
  suc, ◌≤◌, String, ◌≡◌, refl, ◌∙◌, inl, inr, Bool, true, false, ◌&&◌, Option, some, List, [], ◌∷◌,
  arith, if◌then◌else◌, str_eq, str_eq_iff, Bool-cases, length, keep,
}

no_rows :
    (ref k : String) (vs : List ConfigValue) (o : Option Contribution)
    → length (keep (is_user_row k ref) vs) ≡ 0
    → last_value user ref k vs o ≡ o
no_rows ref k [] o h = refl
no_rows ref k (v ∷ vs) o h = elim (Bool-cases (is_user_row k ref v)) [
  | inl here ↦ absurd (not_none (rw here at h))
  | inr other ↦
      last_value-cons user ref k v vs o
      ∙ no_rows ref k vs _ (rw other at h)
      ∙ missed (is_value_at user ref v) (str_eq v.setting_key k) other
]
  where
    not_none : suc (length (keep (is_user_row k ref) vs)) ≡ 0 → ⊥
    not_none e = absurd (omega arith)

    missed : (a b : Bool) → (b && a) ≡ false → (if a && b then some (of_value v).1 else o) ≡ o
    missed a b e = ground arith

pub upsert-found :
    (ref k value : String) (vs : List ConfigValue) (o : Option Contribution)
    → length (keep (is_user_row k ref) vs) ≤ 1
    → (c : Contribution) × (last_value user ref k (upsert k ref value vs) o ≡ some c)
      × (c.value ≡ value)
upsert-found ref k value [] o h = (
  (of_value (user_row k ref value)).1,
  last_value-cons user ref k (user_row k ref value) [] o
      ∙ rw ((str_eq_iff ref ref).1 refl, (str_eq_iff k k).1 refl) refl,
  refl,
)
upsert-found ref k value (v ∷ vs) o h = elim (Bool-cases (is_user_row k ref v)) [
  | inl here ↦ rw here (
    (of_value (record v { value = value })).1,
    last_value-cons user ref k (record v { value = value }) vs o
        ∙ no_rows ref k vs _ (none_left here)
        ∙ hit (is_value_at user ref v) (str_eq v.setting_key k) here,
    refl,
  )
  | inr other ↦ rw other (
      let (c, found, same) =
        upsert-found ref k value vs (one_value user ref k v o) (rw other at h) in
      (c, last_value-cons user ref k v (upsert k ref value vs) o ∙ found, same))
]
  where
    none_left : is_user_row k ref v ≡ true → length (keep (is_user_row k ref) vs) ≡ 0
    none_left here = ground arith

    hit :
        (a b : Bool)
        → (b && a) ≡ true
        → (if a && b then some (of_value (record v { value = value })).1 else o)
          ≡ some (of_value (record v { value = value })).1
    hit a b e = ground arith
