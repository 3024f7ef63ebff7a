-- ===== src/Tender/Policy.antt =====
-- addons/mezze_bridge/models/payment_reconciliation.py: `mezze_validate_payment`, what a payment method
-- asks of a device and of a reference. `str.strip` is the argument `strip`.
use menes_pos.Prelude.{
  ℕ, String, Bool, true, false, not, ◌&&◌, ◌||◌, Option, none, some, List, [], ◌∷◌, ◌==◌,
  if◌then◌else◌, str_eq, any, keep,
}

pub data DevicePolicy : Type 0 where
  device_disabled device_optional device_required : DevicePolicy

pub data ReferencePolicy : Type 0 where
  reference_disabled reference_optional reference_required : ReferencePolicy

pub data ReferenceScope : Type 0 where
  device_ref method_ref branch_ref : ReferenceScope

pub data DuplicatePolicy : Type 0 where
  allow warn manager_approval block : DuplicatePolicy

pub data CreditPolicy : Type 0 where
  odoo_warning credit_manager_approval hard_block : CreditPolicy

pub record Method : Type 0 where
  pub id : ℕ
  pub is_customer_account : Bool
  pub device_policy : DevicePolicy
  pub reference_policy : ReferencePolicy
  pub reference_scope : ReferenceScope
  pub duplicate_policy : DuplicatePolicy
  pub credit_policy : CreditPolicy

pub record Device : Type 0 where
  pub id : ℕ
  pub active : Bool
  pub config : Option ℕ
  pub methods : List ℕ

-- A payment of any order, as the search for duplicates sees it.
pub record Past : Type 0 where
  pub reference : String
  pub method : ℕ
  pub device : Option ℕ
  pub branch : ℕ

pub data Rejection : Type 0 where
  device_needed device_inactive other_branch incompatible reference_needed duplicate_blocked :
      Rejection

pub record Policies : Type 0 where
  pub duplicates : List Past
  pub needs_manager : Bool

pub data Checked : Type 0 where
  rejected : Rejection → Checked
  checked : Policies → Checked

abbrev pub requires_device : DevicePolicy → Bool
requires_device device_required = true
requires_device _ = false

abbrev pub requires_reference : ReferencePolicy → Bool
requires_reference reference_required = true
requires_reference _ = false

abbrev pub mem_ℕ : ℕ → List ℕ → Bool
mem_ℕ n ns = any (λ m. m == n) ns

abbrev pub is_elsewhere : Option ℕ → ℕ → Bool
is_elsewhere none branch = false
is_elsewhere (some c) branch = not (c == branch)

abbrev pub is_incompatible : List ℕ → ℕ → Bool
is_incompatible [] m = false
is_incompatible (n ∷ ns) m = not (mem_ℕ m (n ∷ ns))

-- The device part; none when it is in order.
abbrev pub check_device : Method → ℕ → Option Device → Option Rejection
check_device m branch none = if requires_device m.device_policy then some device_needed else none
check_device m branch (some d) =
    if not d.active
    then some device_inactive
    else if is_elsewhere d.config branch
    then some other_branch
    else if is_incompatible d.methods m.id
    then some incompatible
    else none

abbrev pub option_eq : Option ℕ → Option ℕ → Bool
option_eq none none = true
option_eq (some a) (some b) = a == b
option_eq _ _ = false

abbrev pub device_id : Option Device → Option ℕ
device_id none = none
device_id (some d) = some d.id

abbrev pub in_scope : ReferenceScope → Method → ℕ → Option Device → Past → Bool
in_scope method_ref m branch d p = p.method == m.id
in_scope device_ref m branch d p = option_eq p.device (device_id d)
in_scope branch_ref m branch d p = p.branch == branch

-- `_mezze_find_reference_dups`
abbrev pub find_dups : Method → ℕ → Option Device → String → List Past → List Past
find_dups m branch d ref past =
    keep (λ p. str_eq p.reference ref && in_scope m.reference_scope m branch d p) past

abbrev pub by_duplicates : DuplicatePolicy → Bool → List Past → Checked
by_duplicates policy allow_duplicate [] =
    checked (record { duplicates = []; needs_manager = false })
by_duplicates block allow_duplicate (p ∷ ps) =
    if allow_duplicate
    then checked (record { duplicates = p ∷ ps; needs_manager = false })
    else rejected duplicate_blocked
by_duplicates manager_approval allow_duplicate (p ∷ ps) =
    checked (record { duplicates = p ∷ ps; needs_manager = not allow_duplicate })
by_duplicates _ allow_duplicate (p ∷ ps) =
    checked (record { duplicates = p ∷ ps; needs_manager = false })

abbrev pub allows_all : DuplicatePolicy → Bool
allows_all allow = true
allows_all _ = false

abbrev pub check_reference : Method → ℕ → Option Device → String → Bool → List Past → Checked
check_reference m branch d ref allow_duplicate past =
    if requires_reference m.reference_policy && str_eq ref ""
    then rejected reference_needed
    else if str_eq ref "" || allows_all m.duplicate_policy
    then checked (record { duplicates = []; needs_manager = false })
    else by_duplicates m.duplicate_policy allow_duplicate (find_dups m branch d ref past)

-- `branch` is the configuration of the order, which `order_pay` always passes.
unfoldable pub validate_payment :
    (String → String) → Method → ℕ → Option Device → Option String → Bool → List Past → Checked
validate_payment strip m branch d reference allow_duplicate past = elim (check_device m branch d) [
  | some r ↦ rejected r
  | none ↦
      check_reference m branch d (elim reference [ none ↦ strip "" | some r ↦ strip r ])
        allow_duplicate past
]
