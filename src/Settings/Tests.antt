-- ===== src/Settings/Tests.antt =====
-- A small configuration: one theme that the branch locks, one language that users choose.
use menes_pos.Settings.Catalog.{is_valid, SettingDef, enum_type, working, plain}
use menes_pos.Settings.Resolve.{
  Scope, branch, user, platform, Policy, free, bounded, locked, ConfigValue, Context, Config,
  scope_order, catalog_of, resolve,
}
use menes_pos.Settings.Cascade.{layer, pick, Shows, resolve-Shows}
use menes_pos.Settings.User.{Given, given_text, Saving, save_user, reset_user}
use menes_pos.Settings.Saved.{with_values, save_user-locked}
use menes_pos.Settings.RoundTrip.{save_user-resolve}
use menes_pos.Settings.Reset.{reset_user-save_user}
use menes_pos.Prelude.{ℕ, String, ◌≡◌, refl, true, Option, none, some, List, [], ◌∷◌, arith, ℤ}

abbrev same_text : String → String
same_text s = s

abbrev no_int : List ℕ → Option ℤ
no_int cs = none

abbrev setting : String → String → SettingDef
setting k opts = record {
  key = k;
  category = "look";
  value_type = enum_type;
  default_value = "a";
  options = some opts;
  status = some working;
}

abbrev row : String → Scope → String → String → Policy → ConfigValue
row k sc ref v p = record {
  setting_key = k;
  scope = sc;
  scope_ref = ref;
  value = v;
  policy = p;
  bounded_options = none;
  source_note = none;
}

abbrev config : Config
config = record {
  defs = setting "theme" "a,b,c" ∷ setting "language" "a,b,c" ∷ [];
  values =
      row "theme" branch "1" "b" locked
      ∷ row "language" platform "" "b" bounded
      ∷ row "language" user "9" "a" free
      ∷ [];
  assignments =
      record {
        scope = branch;
        scope_ref = "1";
        active = true;
        template_name = "T";
        template_published = true;
        template_lines =
            record { setting_key = "theme"; value = "c"; policy = free; bounded_options = none }
            ∷ [];
      }
      ∷ [];
}

abbrev nour : Context
nour = record {
  company_id = none;
  brand_id = none;
  branch_id = some "1";
  role = none;
  user_ref = some "9";
  device_ref = none;
}

abbrev wishes : List (String × Given)
wishes = ("theme", given_text "a") ∷ ("language", given_text "c") ∷ []

abbrev saved_rows : List ConfigValue
saved_rows =
    row "theme" branch "1" "b" locked
    ∷ row "language" platform "" "b" bounded
    ∷ row "language" user "9" "c" free
    ∷ []

abbrev saving : Saving
saving = record { values = saved_rows; saved = "language" ∷ []; rejected = "theme" ∷ [] }

abbrev one_saving : Saving
one_saving = record { values = saved_rows; saved = "language" ∷ []; rejected = [] }

resolve-Shows_example :
    Shows same_text config.defs
      (catalog_of [] config.defs)
      "theme"
      (pick (layer config nour "theme") none scope_order)
      (resolve same_text [] config nour "theme")
resolve-Shows_example = resolve-Shows same_text [] config nour "theme" refl

save_user-locked_example :
    ((resolve same_text []
        (with_values same_text no_int [] config saved_rows)
        nour
        "theme").effective
      ≡ (resolve same_text [] config nour "theme").effective)
    × ((resolve same_text [] (with_values same_text no_int [] config saved_rows) nour "theme").lock
        ≡ (resolve same_text [] config nour "theme").lock)
    × ((resolve same_text []
          (with_values same_text no_int [] config saved_rows)
          nour
          "theme").provenance
        ≡ (resolve same_text [] config nour "theme").provenance)
unfolding save_user is_valid resolve
save_user-locked_example =
    save_user-locked same_text no_int [] config nour nour wishes saving "theme" refl refl refl

save_user-resolve_example :
    (resolve same_text []
      (with_values same_text no_int [] config saved_rows)
      nour
      "language").effective
    ≡ plain "c"
unfolding save_user is_valid resolve
save_user-resolve_example =
    save_user-resolve same_text no_int [] config nour "9" "language" (given_text "c") one_saving
      refl (omega arith) refl refl refl

reset_user-save_user_example :
    (reset_user (with_values same_text no_int [] config saved_rows) nour none).0
    ≡ (reset_user config nour none).0
unfolding save_user is_valid resolve
reset_user-save_user_example =
    reset_user-save_user same_text no_int [] config nour wishes saving refl
