-- ===== src/Settings/Cascade.antt =====
-- What the cascade promises, without its dicts: of the contributions to a key, one at most per scope
-- and from the platform down, the first that is locked decides, or else the last.
use menes_pos.Settings.Catalog.{SettingDef, Value, coerce}
use menes_pos.Settings.Dict.{DistinctKeys, puts-DistinctKeys, get-puts, last_entry}
use menes_pos.Settings.Resolve.{
  Scope, Policy, free, bounded, locked, Provenance, Contribution, catalog, Context, Config, Cell,
  Cells, scope_target, scope_order, entries, contributions, is_locked_above, bounded_note, lock_of,
  lock_scope_of, is_known, default_cell, written, contribute, update_cell, contribute_all,
  cascade_at, cascade, catalog_of, resolve,
}
use menes_pos.Prelude.{
  ℕ, suc, String, ◌≡◌, refl, sym, ap, ◌∙◌, subst, inl, inr, Bool, true, false, ◌&&◌, Option, none,
  some, List, [], ◌∷◌, arith, if◌then◌else◌, str_eq, str_eq_iff, Bool-cases, get,
}

-- The contribution of a scope to a key: of the entries for the key, the last.
abbrev pub layer_at : Config → Scope → String → Option String → Option Contribution
layer_at cfg sc k none = none
layer_at cfg sc k (some ref) = last_entry k (entries cfg sc ref) none

abbrev pub layer : Config → Context → String → Scope → Option Contribution
layer cfg ctx k sc = layer_at cfg sc k (scope_target ctx sc)

abbrev pub is_lock : Policy → Bool
is_lock locked = true
is_lock _ = false

abbrev pub Winner : Type 0
Winner = Option (Scope × Contribution)

-- One scope more, for a winner that is not locked.
abbrev pub pick : (Scope → Option Contribution) → Winner → List Scope → Winner
pick at w [] = w
pick at w (sc ∷ scopes) = elim (at sc) [
  | none ↦ pick at w scopes
  | some c ↦ if is_lock c.policy then some (sc, c) else pick at (some (sc, c)) scopes
]

-- What is shown of a winner.
abbrev pub value_of :
    (String → String) → List SettingDef → List SettingDef → String → Winner → Value
value_of lower table defs k none = (default_cell lower table defs k).effective
value_of lower table defs k (some (sc, c)) = coerce lower table k c.value

abbrev pub provenance_of : Winner → Provenance
provenance_of none = record { scope = none; source = catalog; lock = free; bounded_options = none }
provenance_of (some (sc, c)) = record {
  scope = some sc;
  source = c.source;
  lock = c.policy;
  bounded_options = bounded_note c c.policy;
}

abbrev pub winner_lock : Winner → Option Policy
winner_lock none = none
winner_lock (some (sc, c)) = lock_of c.policy

module _ (lower : String → String) (table defs : List SettingDef) where
  pub record Shows (k : String) (w : Winner) (cell : Cell) : Type 0 where
    pub same_value : cell.effective ≡ value_of lower table defs k w
    pub same_provenance : cell.provenance ≡ provenance_of w
    pub same_lock : cell.lock ≡ winner_lock w

  abbrev entry_applied : ℕ → Scope → String → Option Contribution → Cell → Cell
  entry_applied idx sc k none cell = cell
  entry_applied idx sc k (some c) cell = contribute lower table defs idx sc k c cell

  contribute_all-get :
      (idx : ℕ) (sc : Scope) (k : String) (d : List (String × Contribution)) (cells : Cells)
      → DistinctKeys d
      → contribute_all lower table defs idx sc d cells k
        ≡ entry_applied idx sc k (get d k) (cells k)
  contribute_all-get idx sc k [] cells h = refl
  contribute_all-get idx sc k ((j, c) ∷ d) cells h = elim (Bool-cases (str_eq j k)) [
    | inl same ↦
        contribute_all-get idx sc k d _ h.1
        ∙ subst
            (λ x.
              entry_applied idx sc x (get d x)
                (update_cell j (contribute lower table defs idx sc j c) cells x)
              ≡ entry_applied idx sc x (if str_eq j x then some c else get d x) (cells x))
            ((str_eq_iff j k).0 same) (rw (h.0, (str_eq_iff j j).1 refl) refl)
    | inr other ↦ contribute_all-get idx sc k d _ h.1 ∙ rw other refl
  ]

  cascade_at-get :
      (cfg : Config) (idx : ℕ) (sc : Scope) (k : String) (ref : Option String) (cells : Cells)
      → cascade_at lower table defs cfg idx sc ref cells k
        ≡ entry_applied idx sc k (layer_at cfg sc k ref) (cells k)
  cascade_at-get cfg idx sc k none cells = refl
  cascade_at-get cfg idx sc k (some ref) cells =
      contribute_all-get idx sc k (contributions cfg sc ref) cells
        (puts-DistinctKeys (entries cfg sc ref) [] tt)
      ∙ ap (λ o. entry_applied idx sc k o (cells k)) (get-puts k (entries cfg sc ref) [])

  -- Below a lock nothing changes.
  applied_locked :
      (idx : ℕ) (sc : Scope) (k : String) (o : Option Contribution) (cell : Cell)
      → is_locked_above cell.lock_scope idx ≡ true
      → entry_applied idx sc k o cell ≡ cell
  applied_locked idx sc k none cell h = refl
  applied_locked idx sc k (some c) cell h = rw h (no_entry (is_known lower table defs k))
    where
      no_entry :
          (b : Bool)
          → (if b && false then written lower table defs idx sc k c cell else cell) ≡ cell
      no_entry true = refl
      no_entry false = refl

  still_above :
      (o : Option ℕ) (idx : ℕ) → is_locked_above o idx ≡ true → is_locked_above o (suc idx) ≡ true
  still_above none idx h = h
  still_above (some i) idx h = ground arith

  cascade-locked :
      (cfg : Config) (ctx : Context) (k : String) (idx : ℕ) (scopes : List Scope) (cells : Cells)
      → is_locked_above (cells k).lock_scope idx ≡ true
      → cascade lower table defs cfg ctx idx scopes cells k ≡ cells k
  cascade-locked cfg ctx k idx [] cells h = refl
  cascade-locked cfg ctx k idx (sc ∷ scopes) cells h =
      let same =
        cascade_at-get cfg idx sc k (scope_target ctx sc) cells
        ∙ applied_locked idx sc k (layer cfg ctx k sc) (cells k) h in
      cascade-locked cfg ctx k (suc idx) scopes _ (rw same (still_above (cells k).lock_scope idx h))
      ∙ same

  written_here :
      (idx : ℕ) (sc : Scope) (k : String) (c : Contribution) (cell : Cell)
      → is_known lower table defs k ≡ true
      → cell.lock_scope ≡ none
      → contribute lower table defs idx sc k c cell ≡ written lower table defs idx sc k c cell
  written_here idx sc k c cell known unlocked = rw (known, unlocked) refl

  written-Shows :
      (idx : ℕ) (sc : Scope) (k : String) (c : Contribution) (cell : Cell)
      → Shows k (some (sc, c)) (written lower table defs idx sc k c cell)
  written-Shows idx sc k c cell = record {
    same_value = refl;
    same_provenance = refl;
    same_lock = refl;
  }

  lock_scope-locks :
      (p : Policy) (idx : ℕ)
      → is_lock p ≡ true
      → is_locked_above (lock_scope_of p idx none) (suc idx) ≡ true
  lock_scope-locks locked idx h = ground arith
  lock_scope-locks bounded idx h = cc
  lock_scope-locks free idx h = cc

  lock_scope-open : (p : Policy) (idx : ℕ) → is_lock p ≡ false → lock_scope_of p idx none ≡ none
  lock_scope-open locked idx h = cc
  lock_scope-open bounded idx h = refl
  lock_scope-open free idx h = refl

  abbrev GoesOn : Config → Context → String → ℕ → List Scope → Type 0
  GoesOn cfg ctx k idx scopes =
      (cells : Cells) (w : Winner)
      → (cells k).lock_scope ≡ none
      → Shows k w (cells k)
      → Shows k (pick (layer cfg ctx k) w scopes)
          (cascade lower table defs cfg ctx idx scopes cells k)

  after_layer :
      (cfg : Config) (ctx : Context) (k : String) (idx : ℕ) (sc : Scope) (scopes : List Scope)
      (w : Winner) (cell : Cell) (cells : Cells) (o : Option Contribution)
      → is_known lower table defs k ≡ true
      → cell.lock_scope ≡ none
      → Shows k w cell
      → cells k ≡ entry_applied idx sc k o cell
      → GoesOn cfg ctx k (suc idx) scopes
      → Shows k
          (elim o [
            | none ↦ pick (layer cfg ctx k) w scopes
            | some c ↦
                if is_lock c.policy
                then some (sc, c)
                else pick (layer cfg ctx k) (some (sc, c)) scopes
          ])
          (cascade lower table defs cfg ctx (suc idx) scopes cells k)
  after_layer cfg ctx k idx sc scopes w cell cells none known unlocked s same on =
      on cells w (ap (λ (x : Cell). x.lock_scope) same ∙ unlocked) (subst (Shows k w) (sym same) s)
  after_layer cfg ctx k idx sc scopes w cell cells (some c) known unlocked s same on =
      elim (Bool-cases (is_lock c.policy)) [
        | inl lock ↦ rw lock (
            subst (Shows k (some (sc, c)))
              (sym (
                cascade-locked cfg ctx k (suc idx) scopes cells (
                  subst (λ x. is_locked_above x (suc idx) ≡ true) (sym scope_now)
                    (lock_scope-locks c.policy idx lock))))
              shown)
        | inr open_lock ↦
            rw open_lock
              (on cells (some (sc, c)) (scope_now ∙ lock_scope-open c.policy idx open_lock) shown)
      ]
    where
      now : cells k ≡ written lower table defs idx sc k c cell
      now = same ∙ written_here idx sc k c cell known unlocked

      scope_now : (cells k).lock_scope ≡ lock_scope_of c.policy idx none
      scope_now = ap (λ (x : Cell). x.lock_scope) now ∙ ap (lock_scope_of c.policy idx) unlocked

      shown : Shows k (some (sc, c)) (cells k)
      shown = subst (Shows k (some (sc, c))) (sym now) (written-Shows idx sc k c cell)

  cascade-Shows :
      (cfg : Config) (ctx : Context) (k : String) (idx : ℕ) (scopes : List Scope)
      → is_known lower table defs k ≡ true
      → GoesOn cfg ctx k idx scopes
  cascade-Shows cfg ctx k idx [] known cells w unlocked s = s
  cascade-Shows cfg ctx k idx (sc ∷ scopes) known cells w unlocked s =
      after_layer cfg ctx k idx sc scopes w (cells k) _ (layer cfg ctx k sc) known unlocked s
        (cascade_at-get cfg idx sc k (scope_target ctx sc) cells)
        (cascade-Shows cfg ctx k (suc idx) scopes known)

-- The effective value, its provenance and its lock of every setting of the catalog are those of the
-- winner: from the platform down to the device, the first contribution that is locked, or else the
-- last contribution, or else the catalog's default.
pub resolve-Shows :
    (lower : String → String) (builtin : List SettingDef) (cfg : Config) (ctx : Context)
    (k : String)
    → is_known lower cfg.defs (catalog_of builtin cfg.defs) k ≡ true
    → Shows lower cfg.defs
        (catalog_of builtin cfg.defs)
        k
        (pick (layer cfg ctx k) none scope_order)
        (resolve lower builtin cfg ctx k)
unfolding resolve
resolve-Shows lower builtin cfg ctx k known =
    cascade-Shows lower cfg.defs (catalog_of builtin cfg.defs) cfg ctx k 0 scope_order known
      (default_cell lower cfg.defs (catalog_of builtin cfg.defs)) none refl
      (record { same_value = refl; same_provenance = refl; same_lock = refl })
