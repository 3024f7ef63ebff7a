-- ===== src/Settings/Resolve.antt =====
-- addons/mezze_bridge/models/config_platform.py: `resolve`, the effective settings of a principal. The
-- rows of a table come in the order of its searches. `builtin` stands for the definitions of
-- domain/settings_catalog.py, which are read where the table of definitions is empty. The texts of
-- `reason` are not modelled.
use menes_pos.Settings.Catalog.{SettingDef, Value, find_def, coerce}
use menes_pos.Settings.Dict.{puts}
use menes_pos.Prelude.{
  ℕ, suc, String, Bool, true, false, not, ◌&&◌, Option, none, some, List, [], ◌∷◌, ◌++◌, map, ltb,
  ◌==◌, if◌then◌else◌, str_eq, keep, or_absent,
}

pub data Scope : Type 0 where
  platform organization brand branch role user device : Scope

pub data Policy : Type 0 where
  free bounded locked : Policy

abbrev pub scope_code : Scope → ℕ
scope_code platform = 0
scope_code organization = 1
scope_code brand = 2
scope_code branch = 3
scope_code role = 4
scope_code user = 5
scope_code device = 6

abbrev pub same_scope : Scope → Scope → Bool
same_scope a b = scope_code a == scope_code b

-- `SCOPE_ORDER`
abbrev pub scope_order : List Scope
scope_order = platform ∷ organization ∷ brand ∷ branch ∷ role ∷ user ∷ device ∷ []

pub record ConfigValue : Type 0 where
  pub setting_key : String
  pub scope : Scope
  pub scope_ref : String
  pub value : String
  pub policy : Policy
  pub bounded_options : Option String
  pub source_note : Option String

pub record TemplateLine : Type 0 where
  pub setting_key : String
  pub value : String
  pub policy : Policy
  pub bounded_options : Option String

pub record Assignment : Type 0 where
  pub scope : Scope
  pub scope_ref : String
  pub active : Bool
  pub template_name : String
  pub template_published : Bool
  pub template_lines : List TemplateLine

pub data Source : Type 0 where
  catalog : Source
  template : String → Source
  noted : String → Source
  direct : Scope → String → Source

pub record Contribution : Type 0 where
  pub value : String
  pub policy : Policy
  pub source : Source
  pub bounded_options : Option String

-- `scope` is none for the catalog's default.
pub record Provenance : Type 0 where
  pub scope : Option Scope
  pub source : Source
  pub lock : Policy
  pub bounded_options : Option String

pub record Context : Type 0 where
  pub company_id : Option String
  pub brand_id : Option String
  pub branch_id : Option String
  pub role : Option String
  pub user_ref : Option String
  pub device_ref : Option String

pub record Config : Type 0 where
  pub defs : List SettingDef
  pub values : List ConfigValue
  pub assignments : List Assignment

-- `_scope_targets`: the reference of a scope for this principal, or none to skip it.
abbrev pub scope_target : Context → Scope → Option String
scope_target ctx platform = some ""
scope_target ctx organization = or_absent ctx.company_id
scope_target ctx brand = or_absent ctx.brand_id
scope_target ctx branch = or_absent ctx.branch_id
scope_target ctx role = or_absent ctx.role
scope_target ctx user = or_absent ctx.user_ref
scope_target ctx device = or_absent ctx.device_ref

-- ## The contributions of one scope

abbrev pub of_line : Assignment → TemplateLine → String × Contribution
of_line a l = (
  l.setting_key,
  record {
    value = l.value;
    policy = l.policy;
    source = template a.template_name;
    bounded_options = l.bounded_options;
  },
)

abbrev pub source_of : ConfigValue → Option String → Source
source_of v none = direct v.scope v.scope_ref
source_of v (some s) = if str_eq s "" then direct v.scope v.scope_ref else noted s

abbrev pub of_value : ConfigValue → String × Contribution
of_value v = (
  v.setting_key,
  record {
    value = v.value;
    policy = v.policy;
    source = source_of v v.source_note;
    bounded_options = v.bounded_options;
  },
)

abbrev pub line_entries : Scope → String → List Assignment → List (String × Contribution)
line_entries sc ref [] = []
line_entries sc ref (a ∷ rest) =
    let later = line_entries sc ref rest in
    if same_scope a.scope sc && str_eq a.scope_ref ref && a.active && a.template_published
    then map (of_line a) a.template_lines ++ later
    else later

abbrev pub is_value_at : Scope → String → ConfigValue → Bool
is_value_at sc ref v = same_scope v.scope sc && str_eq v.scope_ref ref

abbrev pub value_entries : Scope → String → List ConfigValue → List (String × Contribution)
value_entries sc ref vs = map of_value (keep (is_value_at sc ref) vs)

-- What is written into `contributions`, in the order of the code, and the dict it becomes.
abbrev pub entries : Config → Scope → String → List (String × Contribution)
entries cfg sc ref = line_entries sc ref cfg.assignments ++ value_entries sc ref cfg.values

abbrev pub contributions : Config → Scope → String → List (String × Contribution)
contributions cfg sc ref = puts (entries cfg sc ref) []

-- ## The cascade

-- What the four dicts hold of one key.
pub record Cell : Type 0 where
  pub effective : Value
  pub provenance : Provenance
  pub lock : Option Policy
  pub lock_scope : Option ℕ

-- The dicts of `resolve` as functions of the key.
abbrev pub Cells : Type 0
Cells = String → Cell

abbrev pub is_locked_above : Option ℕ → ℕ → Bool
is_locked_above none idx = false
is_locked_above (some i) idx = ltb i idx

abbrev pub bounded_note : Contribution → Policy → Option String
bounded_note c bounded = elim c.bounded_options [
  | none ↦ none
  | some b ↦ if str_eq b "" then none else some b
]
bounded_note c _ = none

abbrev pub lock_of : Policy → Option Policy
lock_of locked = some locked
lock_of bounded = some bounded
lock_of free = none

abbrev pub lock_scope_of : Policy → ℕ → Option ℕ → Option ℕ
lock_scope_of locked idx old = some idx
lock_scope_of _ idx old = old

abbrev pub update_cell : String → (Cell → Cell) → Cells → Cells
update_cell k f cells j = if str_eq k j then f (cells j) else cells j

-- `_coerce` reads the table of definitions, also where the catalog is the built-in one.
module _ (lower : String → String) (table defs : List SettingDef) where
  abbrev pub is_known : String → Bool
  is_known k = elim (find_def k defs) [ none ↦ false | some d ↦ true ]

  abbrev pub default_cell : String → Cell
  default_cell k = record {
    effective =
        coerce lower table k (elim (find_def k defs) [ none ↦ "" | some d ↦ d.default_value ]);
    provenance = record { scope = none; source = catalog; lock = free; bounded_options = none };
    lock = none;
    lock_scope = none;
  }

  abbrev pub written : ℕ → Scope → String → Contribution → Cell → Cell
  written idx sc k c cell = record {
    effective = coerce lower table k c.value;
    provenance = record {
      scope = some sc;
      source = c.source;
      lock = c.policy;
      bounded_options = bounded_note c c.policy;
    };
    lock = lock_of c.policy;
    lock_scope = lock_scope_of c.policy idx cell.lock_scope;
  }

  -- What one entry of `contributions` does to the cell of its key.
  abbrev pub contribute : ℕ → Scope → String → Contribution → Cell → Cell
  contribute idx sc k c cell =
      if is_known k && not (is_locked_above cell.lock_scope idx)
      then written idx sc k c cell
      else cell

  abbrev pub contribute_all : ℕ → Scope → List (String × Contribution) → Cells → Cells
  contribute_all idx sc [] cells = cells
  contribute_all idx sc ((k, c) ∷ rest) cells =
      contribute_all idx sc rest (update_cell k (contribute idx sc k c) cells)

  abbrev pub cascade_at : Config → ℕ → Scope → Option String → Cells → Cells
  cascade_at cfg idx sc none cells = cells
  cascade_at cfg idx sc (some ref) cells = contribute_all idx sc (contributions cfg sc ref) cells

  abbrev pub cascade : Config → Context → ℕ → List Scope → Cells → Cells
  cascade cfg ctx idx [] cells = cells
  cascade cfg ctx idx (sc ∷ scopes) cells =
      cascade cfg ctx (suc idx) scopes (cascade_at cfg idx sc (scope_target ctx sc) cells)

-- The catalog that `resolve` works with.
abbrev pub catalog_of : List SettingDef → List SettingDef → List SettingDef
catalog_of builtin [] = builtin
catalog_of builtin (d ∷ ds) = d ∷ ds

-- `effective`, `provenance` and `locks` of `resolve`, for the keys of the catalog.
unfoldable pub resolve : (String → String) → List SettingDef → Config → Context → Cells
resolve lower builtin cfg ctx =
    let defs = catalog_of builtin cfg.defs in
    cascade lower cfg.defs defs cfg ctx 0 scope_order (default_cell lower cfg.defs defs)
