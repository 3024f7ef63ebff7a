-- ===== src/Settings/User.antt =====
-- addons/mezze_bridge/models/config_platform.py: `save_user`, `reset_user` and the `overrides` of
-- `resolve`. The audit lines, whose errors are swallowed, are not modelled.
use menes_pos.Settings.Catalog.{SettingDef, Status, working, Value, find_def, is_valid, coerce}
use menes_pos.Settings.Resolve.{
  user, Policy, free, locked, ConfigValue, Context, Config, scope_target, is_value_at, is_known,
  catalog_of, resolve,
}
use menes_pos.Prelude.{
  ℕ, String, Bool, true, false, not, ◌&&◌, ◌||◌, Option, none, some, List, [], ◌∷◌, ◌++◌,
  if◌then◌else◌, str_eq, length, any, keep, ℤ, and_then,
}

-- A value of the request: a Boolean, nothing, or what `str` makes of anything else.
pub data Given : Type 0 where
  given_bool : Bool → Given
  given_none : Given
  given_text : String → Given

-- `str(value)` where it is validated, and the text that is stored.
abbrev pub checked_text : Given → String
checked_text (given_bool true) = "True"
checked_text (given_bool false) = "False"
checked_text given_none = ""
checked_text (given_text s) = s

abbrev pub stored_text : Given → String
stored_text (given_bool true) = "true"
stored_text (given_bool false) = "false"
stored_text given_none = "None"
stored_text (given_text s) = s

abbrev pub is_working : Option Status → Bool
is_working none = true
is_working (some working) = true
is_working (some _) = false

abbrev pub is_locked : Option Policy → Bool
is_locked (some locked) = true
is_locked _ = false

-- The table, and the two lists of the answer.
pub record Saving : Type 0 where
  pub values : List ConfigValue
  pub saved : List String
  pub rejected : List String

-- The row of a setting at a user: the one the search finds.
abbrev pub is_user_row : String → String → ConfigValue → Bool
is_user_row k ref v = str_eq v.setting_key k && is_value_at user ref v

abbrev pub user_row : String → String → String → ConfigValue
user_row k ref value = record {
  setting_key = k;
  scope = user;
  scope_ref = ref;
  value = value;
  policy = free;
  bounded_options = none;
  source_note = none;
}

abbrev pub upsert : String → String → String → List ConfigValue → List ConfigValue
upsert k ref value [] = user_row k ref value ∷ []
upsert k ref value (v ∷ vs) =
    let rest = upsert k ref value vs in
    if is_user_row k ref v then record v { value = value } ∷ vs else v ∷ rest

module _ (lower : String → String) (to_int : List ℕ → Option ℤ) (builtin : List SettingDef) where
  abbrev pub is_refused_by : Option SettingDef → Option Policy → Given → Bool
  is_refused_by none lock val = true
  is_refused_by (some d) lock val =
      not (is_valid lower to_int d (checked_text val))
      || not (is_working d.status)
      || is_locked lock

  -- `_check_valid`, on the row that is written.
  abbrev pub passes_check : Option SettingDef → String → Bool
  passes_check none value = true
  passes_check (some d) value = is_valid lower to_int d value

  abbrev pub write_value : Config → String → String → String → Saving → Option Saving
  write_value cfg ref k value s =
      if passes_check (find_def k cfg.defs) value
      then some (record s { values = upsert k ref value s.values; saved = s.saved ++ k ∷ [] })
      else none

  abbrev pub reject : String → Saving → Saving
  reject k s = record s { rejected = s.rejected ++ k ∷ [] }

  -- The loop. The locks are those of the settings before the request; `none`: the request fails.
  abbrev pub save_all :
      Config → (String → Option Policy) → String → List (String × Given) → Saving → Option Saving
  save_all cfg locks ref [] s = some s
  save_all cfg locks ref ((k, val) ∷ rest) s =
      if is_refused_by (find_def k cfg.defs) (locks k) val
      then save_all cfg locks ref rest (reject k s)
      else and_then (write_value cfg ref k (stored_text val) s)
          (λ next. save_all cfg locks ref rest next)

  abbrev pub lock_in : Config → Context → String → Option Policy
  lock_in cfg ctx k = (resolve lower builtin cfg ctx k).lock

  abbrev pub save_for : Config → Context → Option String → List (String × Given) → Option Saving
  save_for cfg ctx none values = none
  save_for cfg ctx (some ref) values =
      save_all cfg (lock_in cfg ctx) ref values
        (record { values = cfg.values; saved = []; rejected = [] })

  unfoldable pub save_user : Config → Context → List (String × Given) → Option Saving
  save_user cfg ctx values = save_for cfg ctx (scope_target ctx user) values

  -- `overrides`: the user's own value of a setting that is not locked.
  abbrev pub override_from : Config → Context → String → List ConfigValue → Option Value
  override_from cfg ctx k [] = none
  override_from cfg ctx k (v ∷ []) = some (coerce lower cfg.defs k v.value)
  override_from cfg ctx k (v ∷ w ∷ vs) = override_from cfg ctx k (w ∷ vs)

  abbrev pub override_at : Config → Context → String → Option String → Option Value
  override_at cfg ctx k none = none
  override_at cfg ctx k (some ref) =
      if is_known lower cfg.defs (catalog_of builtin cfg.defs) k
        && not (is_locked (lock_in cfg ctx k))
      then override_from cfg ctx k (keep (is_user_row k ref) cfg.values)
      else none

  unfoldable pub override : Config → Context → String → Option Value
  override cfg ctx k = override_at cfg ctx k (scope_target ctx user)

-- ## reset_user

abbrev pub in_category : String → List SettingDef → String → Bool
in_category section defs k = any (λ d. str_eq d.category section && str_eq d.key k) defs

-- `section` is absent, "" or "all" for every setting.
abbrev pub is_in_section : List SettingDef → Option String → String → Bool
is_in_section defs none k = true
is_in_section defs (some section) k =
    str_eq section "" || str_eq section "all" || in_category section defs k

abbrev pub is_reset : List SettingDef → Option String → String → ConfigValue → Bool
is_reset defs section ref v = is_value_at user ref v && is_in_section defs section v.setting_key

abbrev pub reset_rows : Config → Option String → Option String → List ConfigValue × ℕ
reset_rows cfg section none = (cfg.values, 0)
reset_rows cfg section (some ref) = (
  keep (λ v. not (is_reset cfg.defs section ref v)) cfg.values,
  length (keep (is_reset cfg.defs section ref) cfg.values),
)

-- The rows that stay, and how many were removed.
unfoldable pub reset_user : Config → Context → Option String → List ConfigValue × ℕ
reset_user cfg ctx section = reset_rows cfg section (scope_target ctx user)
