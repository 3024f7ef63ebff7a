-- ===== src/Settings/RoundTrip.antt =====
-- A value that a user saves is the value the user then gets.
use menes_pos.Settings.Catalog.{SettingDef, find_def, coerce}
use menes_pos.Settings.Dict.{last_entry}
use menes_pos.Settings.Resolve.{
  Scope, platform, organization, brand, branch, role, user, device, Policy, Contribution, Context,
  Config, scope_order, scope_target, line_entries, is_known, catalog_of, resolve,
}
use menes_pos.Settings.Cascade.{layer_at, layer, value_of, resolve-Shows}
use menes_pos.Settings.User.{
  Given, stored_text, is_locked, Saving, is_user_row, upsert, is_refused_by, write_value, reject,
  lock_in, save_for, save_user,
}
use menes_pos.Settings.Saved.{last_entry-append, layer_untouched, with_values, write_value-values}
use menes_pos.Prelude.{
  ℕ, ◌≤◌, String, ◌≡◌, refl, sym, ap, ◌∙◌, subst, Bool, true, false, Option, none, some,
  some-injective, List, [], ◌∷◌, arith, if◌then◌else◌, length, all, keep, All, ℤ, and_then,
  and_then-some,
}
use menes_pos.Settings.Upsert.{upsert-found}
use menes_pos.Settings.Choice.{is_open, pick-open, pick-upper, pick-user, all-front}

module _ (lower : String → String) (to_int : List ℕ → Option ℤ) (builtin : List SettingDef) where
  taken-facts :
      (o : Option SettingDef) (lock : Option Policy) (val : Given)
      → is_refused_by lower to_int builtin o lock val ≡ false
      → ((elim o [ none ↦ false | some d ↦ true ]) ≡ true) × (is_locked lock ≡ false)
  taken-facts none lock val h = cc
  taken-facts (some d) lock val h = (refl, ground arith)

  catalog_of-known :
      (k : String) (ds : List SettingDef)
      → (elim (find_def k ds) [ none ↦ false | some d ↦ true ]) ≡ true
      → catalog_of builtin ds ≡ ds
  catalog_of-known k [] h = cc
  catalog_of-known k (d ∷ ds) h = refl

  layer-saved :
      (cfg : Config) (ctx : Context) (ref k value : String)
      → scope_target ctx user ≡ some ref
      → length (keep (is_user_row k ref) cfg.values) ≤ 1
      → (c : Contribution) × (layer
            (record cfg { values = upsert k ref value cfg.values })
            ctx
            k
            user
          ≡ some c)
        × (c.value ≡ value)
  layer-saved cfg ctx ref k value at_user unique =
      let (c, found, same) =
        upsert-found ref k value cfg.values
          (last_entry k (line_entries user ref cfg.assignments) none) unique in
      (
        c,
        ap (layer_at (record cfg { values = upsert k ref value cfg.values }) user k) at_user
            ∙ last_entry-append k (line_entries user ref cfg.assignments) _ none
            ∙ found,
        same,
      )

  resolve-saved :
      (cfg : Config) (ctx : Context) (ref k value : String)
      → scope_target ctx user ≡ some ref
      → length (keep (is_user_row k ref) cfg.values) ≤ 1
      → layer cfg ctx k device ≡ none
      → is_known lower cfg.defs cfg.defs k ≡ true
      → catalog_of builtin cfg.defs ≡ cfg.defs
      → is_locked (resolve lower builtin cfg ctx k).lock ≡ false
      → (resolve lower builtin
          (record cfg { values = upsert k ref value cfg.values })
          ctx
          k).effective
        ≡ coerce lower cfg.defs k value
  resolve-saved cfg ctx ref k value at_user unique no_device known cat unlocked =
      let (c, mine, same) = layer-saved cfg ctx ref k value at_user unique in
      let (w, above) =
        pick-upper (layer cfg ctx k) (layer next ctx k) none upper (user ∷ device ∷ []) open_above
          untouched in
      let picked =
        above
        ∙ pick-user (layer next ctx k) w c mine
            (layer_untouched cfg ctx k ref value k device refl ∙ no_device) in
      (resolve-Shows lower builtin next ctx k known_in).same_value
      ∙ ap (value_of lower cfg.defs (catalog_of builtin cfg.defs) k) picked
      ∙ ap (coerce lower cfg.defs k) same
    where
      next : Config
      next = record cfg { values = upsert k ref value cfg.values }

      upper : List Scope
      upper = platform ∷ organization ∷ brand ∷ branch ∷ role ∷ []

      known_in : is_known lower cfg.defs (catalog_of builtin cfg.defs) k ≡ true
      known_in = rw cat known

      all_open : all (λ sc. is_open (layer cfg ctx k sc)) scope_order ≡ true
      all_open = pick-open (layer cfg ctx k) none scope_order (
          subst (λ o. is_locked o ≡ false)
            (resolve-Shows lower builtin cfg ctx k known_in).same_lock unlocked)

      open_above : all (λ sc. is_open (layer cfg ctx k sc)) upper ≡ true
      open_above =
          all-front (λ sc. is_open (layer cfg ctx k sc)) upper (user ∷ device ∷ []) all_open

      untouched : All (λ sc. layer next ctx k sc ≡ layer cfg ctx k sc) upper
      untouched = (
        layer_untouched cfg ctx k ref value k platform refl,
        (
          layer_untouched cfg ctx k ref value k organization refl,
          (
            layer_untouched cfg ctx k ref value k brand refl,
            (
              layer_untouched cfg ctx k ref value k branch refl,
              (layer_untouched cfg ctx k ref value k role refl, tt),
            ),
          ),
        ),
      )

  -- When a user saved one value and it was not rejected, the table holds one row at most for the
  -- setting at that user, and the user's device has nothing on the setting: the user's effective value
  -- is the one that was saved.
  pub save_user-resolve :
      (cfg : Config) (ctx : Context) (ref k : String) (val : Given) (s : Saving)
      → scope_target ctx user ≡ some ref
      → length (keep (is_user_row k ref) cfg.values) ≤ 1
      → layer cfg ctx k device ≡ none
      → save_user lower to_int builtin cfg ctx ((k, val) ∷ []) ≡ some s
      → s.rejected ≡ []
      → (resolve lower builtin (with_values lower to_int builtin cfg s.values) ctx k).effective
        ≡ coerce lower cfg.defs k (stored_text val)
  unfolding save_user
  save_user-resolve cfg ctx ref k val s at_user unique no_device h accepted = go (rw at_user at h)
    where
      refused : Bool
      refused =
          is_refused_by lower to_int builtin (find_def k cfg.defs)
            (lock_in lower to_int builtin cfg ctx k) val

      start : Saving
      start = record { values = cfg.values; saved = []; rejected = [] }

      not_refused :
          (b : Bool)
          → (if b
              then some (reject lower to_int builtin k start)
              else and_then
                  (write_value lower to_int builtin cfg ref k (stored_text val) start)
                  some)
            ≡ some s
          → b ≡ false
      not_refused false q = refl
      not_refused true q =
          absurd (no_list (ap (λ (x : Saving). x.rejected) (some-injective _ _ q) ∙ accepted))
        where
          no_list : k ∷ [] ≡ [] → ⊥
          no_list e = cc

      go :
          save_for lower to_int builtin cfg ctx (some ref) ((k, val) ∷ []) ≡ some s
          → (resolve lower builtin (with_values lower to_int builtin cfg s.values) ctx k).effective
            ≡ coerce lower cfg.defs k (stored_text val)
      go q =
          let taken = not_refused refused q in
          let (known, unlocked) =
            taken-facts (find_def k cfg.defs) (lock_in lower to_int builtin cfg ctx k) val taken in
          let (last, write, ended) =
            and_then-some (write_value lower to_int builtin cfg ref k (stored_text val) start) some
              (rw taken at q) in
          let values =
            ap (λ (x : Saving). x.values) (sym (some-injective _ _ ended))
            ∙ write_value-values lower to_int builtin cfg ref k (stored_text val) start last
                write in
          ap
            (λ vs.
              (resolve lower builtin (with_values lower to_int builtin cfg vs) ctx k).effective)
            values
          ∙ resolve-saved cfg ctx ref k (stored_text val) at_user unique no_device known
              (catalog_of-known k cfg.defs known) unlocked
