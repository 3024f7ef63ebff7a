-- ===== src/Settings/Reset.antt =====
-- Resetting a user's settings takes back what the user saved.
use menes_pos.Settings.Catalog.{SettingDef, find_def}
use menes_pos.Settings.Resolve.{
  user, Policy, ConfigValue, Context, Config, scope_target, is_value_at,
}
use menes_pos.Settings.User.{
  Given, stored_text, Saving, is_user_row, upsert, is_refused_by, write_value, reject, save_all,
  save_for, save_user, reset_rows, reset_user,
}
use menes_pos.Settings.Saved.{write_value-values, with_values}
use menes_pos.Prelude.{
  ℕ, String, ◌≡◌, refl, sym, ap, ◌∙◌, inl, inr, true, not, ◌&&◌, Option, none, some, some-injective,
  List, [], ◌∷◌, arith, str_eq_iff, Bool-cases, keep, ℤ, and_then-some,
}

-- The rows that are not the user's.
abbrev others : String → List ConfigValue → List ConfigValue
others ref vs = keep (λ v. not (is_value_at user ref v)) vs

others-upsert :
    (ref k value : String) (vs : List ConfigValue)
    → others ref (upsert k ref value vs) ≡ others ref vs
others-upsert ref k value [] = rw ((str_eq_iff ref ref).1 refl) refl
others-upsert ref k value (v ∷ vs) = elim (Bool-cases (is_user_row k ref v)) [
  | inl here ↦ rw here (dropped here)
  | inr other ↦ rw (other, others-upsert ref k value vs) refl
]
  where
    dropped :
        is_user_row k ref v ≡ true
        → others ref (record v { value = value } ∷ vs) ≡ others ref (v ∷ vs)
    dropped here = ground arith

module _ (lower : String → String) (to_int : List ℕ → Option ℤ) (builtin : List SettingDef) where
  others-save_all :
      (cfg : Config) (locks : String → Option Policy) (ref : String) (given : List (String × Given))
      (s s' : Saving)
      → save_all lower to_int builtin cfg locks ref given s ≡ some s'
      → others ref s'.values ≡ others ref s.values
  others-save_all cfg locks ref [] s s' h =
      ap (λ (x : Saving). others ref x.values) (sym (some-injective _ _ h))
  others-save_all cfg locks ref ((j, val) ∷ rest) s s' h =
      elim (Bool-cases (is_refused_by lower to_int builtin (find_def j cfg.defs) (locks j) val)) [
        | inl refused ↦
            others-save_all cfg locks ref rest (reject lower to_int builtin j s) s'
              (rw refused at h)
        | inr taken ↦
            let (next, write, rest_h) =
              and_then-some (write_value lower to_int builtin cfg ref j (stored_text val) s) _
                (rw taken at h) in
            others-save_all cfg locks ref rest next s' rest_h
            ∙ ap (others ref)
                (write_value-values lower to_int builtin cfg ref j (stored_text val) s next write)
            ∙ others-upsert ref j (stored_text val) s.values
      ]

  -- When a request of a user was carried out, resetting all of the user's settings afterwards leaves
  -- the table that resetting them without the request leaves, whatever was saved.
  pub reset_user-save_user :
      (cfg : Config) (ctx : Context) (given : List (String × Given)) (s : Saving)
      → save_user lower to_int builtin cfg ctx given ≡ some s
      → (reset_user (with_values lower to_int builtin cfg s.values) ctx none).0
        ≡ (reset_user cfg ctx none).0
  unfolding save_user reset_user
  reset_user-save_user cfg ctx given s h = go (scope_target ctx user) h
    where
      all_of :
          (ref : String) (vs : List ConfigValue)
          → keep (λ v. not (is_value_at user ref v && true)) vs ≡ others ref vs
      all_of ref [] = refl
      all_of ref (v ∷ vs) = ground (arith, all_of ref vs)

      go :
          (o : Option String)
          → save_for lower to_int builtin cfg ctx o given ≡ some s
          → (reset_rows (with_values lower to_int builtin cfg s.values) none o).0
            ≡ (reset_rows cfg none o).0
      go none q = cc
      go (some ref) q =
          all_of ref s.values ∙ others-save_all cfg _ ref given _ s q ∙ sym (all_of ref cfg.values)
