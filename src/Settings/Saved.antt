-- ===== src/Settings/Saved.antt =====
-- What saving a user's settings does to the effective settings.
use mathlib.Core.Path.{fun_ext}
use menes_pos.Settings.Catalog.{SettingDef, find_def}
use menes_pos.Settings.Dict.{last_entry}
use menes_pos.Settings.Resolve.{
  locked, resolve, catalog_of, is_known, Scope, user, Policy, ConfigValue, Contribution, Context,
  Config, scope_order, scope_target, is_value_at, value_entries, line_entries, of_value, same_scope,
  scope_code,
}
use menes_pos.Settings.Cascade.{
  provenance_of, winner_lock, value_of, pick, resolve-Shows, layer_at, layer,
}
use menes_pos.Settings.User.{
  save_for, save_user, Given, stored_text, is_locked, Saving, is_user_row, user_row, upsert,
  is_refused_by, write_value, reject, save_all,
}
use menes_pos.Prelude.{
  ℕ, String, ◌≡◌, refl, sym, ap, ◌∙◌, subst, inl, inr, Bool, true, false, ◌&&◌, Option, none, some,
  some-injective, List, [], ◌∷◌, ◌++◌, arith, ◌==◌, if◌then◌else◌, str_eq, str_eq_iff, ==_iff,
  Bool-cases, ℤ, and_then-some,
}

pub last_entry-append :
    {V : Type 0} (k : String) (xs ys : List (String × V)) (o : Option V)
    → last_entry k (xs ++ ys) o ≡ last_entry k ys (last_entry k xs o)
last_entry-append k [] ys o = refl
last_entry-append k ((j, v) ∷ xs) ys o = last_entry-append k xs ys _

-- One row, and the rows, of a table as entries of a scope.
abbrev pub one_value :
    Scope → String → String → ConfigValue → Option Contribution → Option Contribution
one_value sc ref k v o =
    if is_value_at sc ref v && str_eq v.setting_key k then some (of_value v).1 else o

abbrev pub last_value :
    Scope → String → String → List ConfigValue → Option Contribution → Option Contribution
last_value sc ref k vs o = last_entry k (value_entries sc ref vs) o

pub last_value-cons :
    (sc : Scope) (ref k : String) (v : ConfigValue) (vs : List ConfigValue)
    (o : Option Contribution)
    → last_value sc ref k (v ∷ vs) o ≡ last_value sc ref k vs (one_value sc ref k v o)
last_value-cons sc ref k v vs o = elim (Bool-cases (is_value_at sc ref v)) [
  | inl here ↦ rw here refl
  | inr other ↦ rw other refl
]

-- What a row at a user is to a scope and a key.
abbrev touches : Scope → String → String → Bool
touches sc k j = same_scope user sc && str_eq j k

one_value-user :
    (sc : Scope) (ref r k j : String) (v : ConfigValue) (o : Option Contribution)
    → is_user_row j r v ≡ true
    → touches sc k j ≡ false
    → one_value sc ref k v o ≡ o
one_value-user sc ref r k j v o here untouched =
    subst
      (λ x.
        (if (x == scope_code sc && str_eq v.scope_ref ref) && str_eq v.setting_key k
          then some (of_value v).1
          else o)
        ≡ o)
      (sym at_user)
      (subst
        (λ x.
          (if (5 == scope_code sc && str_eq v.scope_ref ref) && str_eq x k
            then some (of_value v).1
            else o)
          ≡ o)
        (sym of_key) (ground arith))
  where
    of_key : v.setting_key ≡ j
    of_key = (str_eq_iff v.setting_key j).0 (ground arith)

    at_user : scope_code v.scope ≡ 5
    at_user = (==_iff (scope_code v.scope) 5).0 (ground arith)

upsert_untouched :
    (sc : Scope) (ref r j k value : String) (vs : List ConfigValue) (o : Option Contribution)
    → touches sc k j ≡ false
    → last_value sc ref k (upsert j r value vs) o ≡ last_value sc ref k vs o
upsert_untouched sc ref r j k value [] o h =
    last_value-cons sc ref k (user_row j r value) [] o ∙ ground arith
upsert_untouched sc ref r j k value (v ∷ vs) o h = elim (Bool-cases (is_user_row j r v)) [
  | inl here ↦ rw here (
      last_value-cons sc ref k (record v { value = value }) vs o
      ∙ ap (last_value sc ref k vs) (
          one_value-user sc ref r k j (record v { value = value }) o here h
          ∙ sym (one_value-user sc ref r k j v o here h))
      ∙ sym (last_value-cons sc ref k v vs o))
  | inr other ↦ rw other (
      last_value-cons sc ref k v (upsert j r value vs) o
      ∙ upsert_untouched sc ref r j k value vs (one_value sc ref k v o) h
      ∙ sym (last_value-cons sc ref k v vs o))
]

pub layer_untouched :
    (cfg : Config) (ctx : Context) (j r value k : String) (sc : Scope)
    → touches sc k j ≡ false
    → layer (record cfg { values = upsert j r value cfg.values }) ctx k sc ≡ layer cfg ctx k sc
layer_untouched cfg ctx j r value k sc h = go (scope_target ctx sc)
  where
    go :
        (o : Option String)
        → layer_at (record cfg { values = upsert j r value cfg.values }) sc k o
          ≡ layer_at cfg sc k o
    go none = refl
    go (some ref) =
        last_entry-append k (line_entries sc ref cfg.assignments) _ none
        ∙ upsert_untouched sc ref r j k value cfg.values _ h
        ∙ sym (last_entry-append k (line_entries sc ref cfg.assignments) _ none)

module _ (lower : String → String) (to_int : List ℕ → Option ℤ) (builtin : List SettingDef) where
  abbrev pub with_values : Config → List ConfigValue → Config
  with_values cfg vs = record cfg { values = vs }

  pub write_value-values :
      (cfg : Config) (ref k value : String) (s s' : Saving)
      → write_value lower to_int builtin cfg ref k value s ≡ some s'
      → s'.values ≡ upsert k ref value s.values
  write_value-values cfg ref k value s s' h = ground arith

  refused_by_lock :
      (d : Option SettingDef) (lock : Option Policy) (val : Given)
      → is_locked lock ≡ true
      → is_refused_by lower to_int builtin d lock val ≡ true
  refused_by_lock none lock val h = refl
  refused_by_lock (some d) lock val h = rw h (ground arith)

  not_locked_key :
      (locks : String → Option Policy) (cfg : Config) (j k : String) (val : Given)
      → is_refused_by lower to_int builtin (find_def j cfg.defs) (locks j) val ≡ false
      → is_locked (locks k) ≡ true
      → str_eq j k ≡ false
  not_locked_key locks cfg j k val taken lock = elim (Bool-cases (str_eq j k)) [
    | inr other ↦ other
    | inl same ↦ absurd (
        clash taken (
          refused_by_lock (find_def j cfg.defs) (locks j) val
            (subst (λ x. is_locked (locks x) ≡ true) (sym ((str_eq_iff j k).0 same)) lock)))
  ]
    where
      clash : {b : Bool} → b ≡ false → b ≡ true → ⊥
      clash p q = cc

  -- A setting whose lock refuses it is not touched by the loop.
  save_all-locked :
      (cfg : Config) (locks : String → Option Policy) (ref : String) (given : List (String × Given))
      (s s' : Saving) (k : String)
      → save_all lower to_int builtin cfg locks ref given s ≡ some s'
      → is_locked (locks k) ≡ true
      → (ctx : Context) (sc : Scope)
      → layer (with_values cfg s'.values) ctx k sc ≡ layer (with_values cfg s.values) ctx k sc
  save_all-locked cfg locks ref [] s s' k h lock ctx sc =
      ap (λ (x : Saving). layer (with_values cfg x.values) ctx k sc) (sym (some-injective _ _ h))
  save_all-locked cfg locks ref ((j, val) ∷ rest) s s' k h lock ctx sc =
      elim (Bool-cases (is_refused_by lower to_int builtin (find_def j cfg.defs) (locks j) val)) [
        | inl refused ↦
            save_all-locked cfg locks ref rest (reject lower to_int builtin j s) s' k
              (rw refused at h) lock ctx sc
        | inr taken ↦
            let (next, write, rest_h) =
              and_then-some (write_value lower to_int builtin cfg ref j (stored_text val) s) _
                (rw taken at h) in
            save_all-locked cfg locks ref rest next s' k rest_h lock ctx sc
            ∙ ap (λ vs. layer (with_values cfg vs) ctx k sc)
                (write_value-values cfg ref j (stored_text val) s next write)
            ∙ layer_untouched (with_values cfg s.values) ctx j ref (stored_text val) k sc
                (rw (not_locked_key locks cfg j k val taken lock) (ground arith))
      ]

  -- What `resolve` shows of a setting depends on its layers only.
  same_layers :
      (cfg : Config) (vs : List ConfigValue) (ctx : Context) (k : String)
      → is_known lower cfg.defs (catalog_of builtin cfg.defs) k ≡ true
      → ((sc : Scope) → layer (with_values cfg vs) ctx k sc ≡ layer cfg ctx k sc)
      → ((resolve lower builtin (with_values cfg vs) ctx k).effective
          ≡ (resolve lower builtin cfg ctx k).effective)
        × ((resolve lower builtin (with_values cfg vs) ctx k).lock
            ≡ (resolve lower builtin cfg ctx k).lock)
        × ((resolve lower builtin (with_values cfg vs) ctx k).provenance
            ≡ (resolve lower builtin cfg ctx k).provenance)
  same_layers cfg vs ctx k known same =
      let after = resolve-Shows lower builtin (with_values cfg vs) ctx k known in
      let before = resolve-Shows lower builtin cfg ctx k known in
      let winner = ap (λ at. pick at none scope_order) (fun_ext same) in
      (
        after.same_value
            ∙ ap (value_of lower cfg.defs (catalog_of builtin cfg.defs) k) winner
            ∙ sym before.same_value,
        after.same_lock ∙ ap winner_lock winner ∙ sym before.same_lock,
        after.same_provenance ∙ ap provenance_of winner ∙ sym before.same_provenance,
      )

  -- When a request of a user was carried out: a setting of the catalog that was locked for that user
  -- has the same effective value, lock and provenance as before, for every principal.
  pub save_user-locked :
      (cfg : Config) (ctx ctx' : Context) (given : List (String × Given)) (s : Saving) (k : String)
      → save_user lower to_int builtin cfg ctx given ≡ some s
      → is_known lower cfg.defs (catalog_of builtin cfg.defs) k ≡ true
      → (resolve lower builtin cfg ctx k).lock ≡ some locked
      → ((resolve lower builtin (with_values cfg s.values) ctx' k).effective
          ≡ (resolve lower builtin cfg ctx' k).effective)
        × ((resolve lower builtin (with_values cfg s.values) ctx' k).lock
            ≡ (resolve lower builtin cfg ctx' k).lock)
        × ((resolve lower builtin (with_values cfg s.values) ctx' k).provenance
            ≡ (resolve lower builtin cfg ctx' k).provenance)
  unfolding save_user
  save_user-locked cfg ctx ctx' given s k h known lock = go (scope_target ctx user) h
    where
      go :
          (o : Option String)
          → save_for lower to_int builtin cfg ctx o given ≡ some s
          → ((resolve lower builtin (with_values cfg s.values) ctx' k).effective
              ≡ (resolve lower builtin cfg ctx' k).effective)
            × ((resolve lower builtin (with_values cfg s.values) ctx' k).lock
                ≡ (resolve lower builtin cfg ctx' k).lock)
            × ((resolve lower builtin (with_values cfg s.values) ctx' k).provenance
                ≡ (resolve lower builtin cfg ctx' k).provenance)
      go none q = cc
      go (some ref) q = same_layers cfg s.values ctx' k known (
          save_all-locked cfg (λ j. (resolve lower builtin cfg ctx j).lock) ref given _ s k q
            (rw lock refl) ctx')
