-- ===== src/Settings/Catalog.antt =====
-- addons/mezze_bridge/models/config_platform.py: the setting definitions and what values they allow.
-- A value comes as its text; `str.lower` and Python's `int` of a text are arguments.
use menes_pos.Prelude.{
  ℕ, String, Bool, true, false, not, ◌&&◌, Option, none, some, List, [], ◌∷◌, leb, ◌==◌,
  if◌then◌else◌, str_eq, length, any, keep, elem, codes, ℤ, leb_ℤ,
}

pub data ValueType : Type 0 where
  enum_type bool_type int_type key_type : ValueType

pub data Status : Type 0 where
  working disabled hidden : Status

pub record SettingDef : Type 0 where
  pub key : String
  pub category : String
  pub value_type : ValueType
  pub default_value : String
  pub options : Option String
  pub status : Option Status

-- `find`, and both parts, at the first comma and at the first "..".
abbrev pub put_head : ℕ → List (List ℕ) → List (List ℕ)
put_head c [] = (c ∷ []) ∷ []
put_head c (w ∷ ws) = (c ∷ w) ∷ ws

abbrev pub split_comma : List ℕ → List (List ℕ)
split_comma [] = [] ∷ []
split_comma (c ∷ cs) = let rest = split_comma cs in if c == 0x2c then [] ∷ rest else put_head c rest

abbrev pub cons_left : ℕ → Option (List ℕ × List ℕ) → Option (List ℕ × List ℕ)
cons_left c none = none
cons_left c (some (lo, hi)) = some (c ∷ lo, hi)

abbrev pub split_dots : List ℕ → Option (List ℕ × List ℕ)
split_dots [] = none
split_dots (c ∷ []) = none
split_dots (c ∷ d ∷ cs) =
    let rest = split_dots (d ∷ cs) in
    if c == 0x2e && d == 0x2e then some ([], cs) else cons_left c rest

abbrev pub is_empty : List ℕ → Bool
is_empty [] = true
is_empty (c ∷ cs) = false

abbrev pub codes_eq : List ℕ → List ℕ → Bool
codes_eq [] [] = true
codes_eq (a ∷ cs) (b ∷ ds) = a == b && codes_eq cs ds
codes_eq _ _ = false

abbrev pub option_codes : SettingDef → List ℕ
option_codes d = elim d.options [ none ↦ [] | some o ↦ codes o ]

-- `allowed_options`
abbrev pub allowed_options : SettingDef → List (List ℕ)
allowed_options d = keep (λ o. not (is_empty o)) (split_comma (option_codes d))

module _ (lower : String → String) (to_int : List ℕ → Option ℤ) where
  abbrev pub between : Option ℤ → Option ℤ → ℤ → Bool
  between (some lo) (some hi) n = leb_ℤ lo n && leb_ℤ n hi
  between (some lo) none n = leb_ℤ lo n
  between none hi n = true

  abbrev pub in_range : Option (List ℕ × List ℕ) → ℤ → Bool
  in_range none n = true
  in_range (some (lo, hi)) n = between (to_int lo) (to_int hi) n

  abbrev pub valid_int : SettingDef → Option ℤ → Bool
  valid_int d none = false
  valid_int d (some n) = in_range (split_dots (option_codes d)) n

  abbrev pub valid_enum : List (List ℕ) → List ℕ → Bool
  valid_enum [] v = true
  valid_enum (o ∷ os) v = any (λ p. codes_eq p v) (o ∷ os)

  abbrev pub valid_as : ValueType → SettingDef → String → Bool
  valid_as bool_type d v = elem (lower v) ("true" ∷ "false" ∷ "1" ∷ "0" ∷ [])
  valid_as key_type d v = leb (length (codes v)) 24
  valid_as int_type d v = valid_int d (to_int (codes v))
  valid_as enum_type d v = valid_enum (allowed_options d) (codes v)

  unfoldable pub is_valid : SettingDef → String → Bool
  is_valid d v = valid_as d.value_type d v

-- What `_coerce` makes of a stored text.
pub data Value : Type 0 where
  flag : Bool → Value
  plain : String → Value

abbrev pub find_def : String → List SettingDef → Option SettingDef
find_def k [] = none
find_def k (d ∷ ds) = if str_eq d.key k then some d else find_def k ds

abbrev pub coerce_as : (String → String) → Option SettingDef → String → Value
coerce_as lower none raw = plain raw
coerce_as lower (some d) raw = elim d.value_type [
  | bool_type ↦ flag (elem (lower raw) ("true" ∷ "1" ∷ "yes" ∷ []))
  | _ ↦ plain raw
]

abbrev pub coerce : (String → String) → List SettingDef → String → String → Value
coerce lower defs k raw = coerce_as lower (find_def k defs) raw
