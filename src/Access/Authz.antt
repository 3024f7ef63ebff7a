-- ===== src/Access/Authz.antt =====
-- addons/mezze_bridge/domain/authz.py: the capabilities, the roles that hold them, the scope of a record,
-- and the capability that each endpoint asks for.
use menes_pos.Prelude.{
  ℕ, String, Bool, true, false, not, ◌&&◌, Option, none, some, List, [], ◌∷◌, ◌++◌, ◌==◌,
  if◌then◌else◌, get_or, elem,
}

abbrev pub orders_read : String
orders_read = "orders.read"

abbrev pub orders_write : String
orders_write = "orders.write"

abbrev pub orders_pay : String
orders_pay = "orders.pay"

abbrev pub orders_refund : String
orders_refund = "orders.refund"

abbrev pub orders_comp : String
orders_comp = "orders.comp"

abbrev pub orders_fire : String
orders_fire = "orders.fire"

abbrev pub orders_cancel : String
orders_cancel = "orders.cancel"

abbrev pub orders_void : String
orders_void = "orders.void"

abbrev pub orders_discount : String
orders_discount = "orders.discount"

abbrev pub kitchen_read : String
kitchen_read = "kitchen.read"

abbrev pub kitchen_update : String
kitchen_update = "kitchen.update"

abbrev pub tables_read : String
tables_read = "tables.read"

abbrev pub tables_manage : String
tables_manage = "tables.manage"

abbrev pub reservations_read : String
reservations_read = "reservations.read"

abbrev pub reservations_manage : String
reservations_manage = "reservations.manage"

abbrev pub delivery_read : String
delivery_read = "delivery.read"

abbrev pub delivery_manage : String
delivery_manage = "delivery.manage"

abbrev pub loyalty_read : String
loyalty_read = "loyalty.read"

abbrev pub loyalty_adjust : String
loyalty_adjust = "loyalty.adjust"

abbrev pub reports_read : String
reports_read = "reports.read"

abbrev pub reports_export : String
reports_export = "reports.export"

abbrev pub finance_read : String
finance_read = "finance.read"

abbrev pub compliance_read : String
compliance_read = "compliance.read"

abbrev pub hardware_print : String
hardware_print = "hardware.print"

abbrev pub hardware_drawer : String
hardware_drawer = "hardware.drawer"

abbrev pub sync_read : String
sync_read = "sync.read"

abbrev pub sync_write : String
sync_write = "sync.write"

abbrev pub integrations_receive : String
integrations_receive = "integrations.receive"

abbrev pub integrations_manage : String
integrations_manage = "integrations.manage"

abbrev pub admin_settings : String
admin_settings = "admin.settings"

abbrev pub all_capabilities : List String
all_capabilities =
    orders_read ∷ orders_write ∷ orders_pay ∷ orders_refund ∷ orders_comp ∷ orders_fire
    ∷ orders_cancel ∷ orders_void ∷ orders_discount ∷ kitchen_read ∷ kitchen_update ∷ tables_read
    ∷ tables_manage ∷ reservations_read ∷ reservations_manage ∷ delivery_read ∷ delivery_manage
    ∷ loyalty_read ∷ loyalty_adjust ∷ reports_read ∷ reports_export ∷ finance_read ∷ compliance_read
    ∷ hardware_print ∷ hardware_drawer ∷ sync_read ∷ sync_write ∷ integrations_receive
    ∷ integrations_manage ∷ admin_settings ∷ []

abbrev pub cashier_caps : List String
cashier_caps =
    orders_read ∷ orders_write ∷ orders_pay ∷ orders_fire ∷ kitchen_read ∷ tables_read
    ∷ reservations_read ∷ delivery_read ∷ loyalty_read ∷ hardware_print ∷ []

abbrev pub waiter_caps : List String
waiter_caps =
    orders_read ∷ orders_write ∷ orders_fire ∷ kitchen_read ∷ tables_read ∷ tables_manage
    ∷ reservations_read ∷ []

abbrev pub kitchen_caps : List String
kitchen_caps = orders_read ∷ kitchen_read ∷ kitchen_update ∷ []

abbrev pub supervisor_caps : List String
supervisor_caps =
    cashier_caps
    ++ orders_comp ∷ orders_refund ∷ orders_void ∷ orders_cancel ∷ orders_discount ∷ reports_read
      ∷ loyalty_adjust ∷ tables_manage ∷ reservations_manage ∷ delivery_manage ∷ hardware_drawer
      ∷ []

abbrev pub manager_caps : List String
manager_caps = supervisor_caps ++ reports_export ∷ finance_read ∷ admin_settings ∷ []

abbrev pub finance_caps : List String
finance_caps = finance_read ∷ reports_read ∷ reports_export ∷ compliance_read ∷ orders_read ∷ []

abbrev pub compliance_caps : List String
compliance_caps = compliance_read ∷ reports_read ∷ orders_read ∷ finance_read ∷ []

abbrev pub terminal_caps : List String
terminal_caps =
    orders_read ∷ orders_write ∷ orders_pay ∷ orders_fire ∷ kitchen_read ∷ kitchen_update
    ∷ tables_read ∷ tables_manage ∷ reservations_read ∷ delivery_read ∷ loyalty_read
    ∷ hardware_print ∷ hardware_drawer ∷ sync_read ∷ sync_write ∷ []

abbrev pub integration_caps : List String
integration_caps = integrations_receive ∷ integrations_manage ∷ orders_write ∷ delivery_manage ∷ []

abbrev pub auditor_caps : List String
auditor_caps = admin_settings ∷ compliance_read ∷ reports_read ∷ orders_read ∷ finance_read ∷ []

abbrev pub host_caps : List String
host_caps = reservations_read ∷ reservations_manage ∷ tables_read ∷ tables_manage ∷ orders_read ∷ []

abbrev pub role_caps : List (String × List String)
role_caps =
    ("cashier", cashier_caps)
    ∷ ("waiter", waiter_caps)
    ∷ ("kitchen", kitchen_caps)
    ∷ ("supervisor", supervisor_caps)
    ∷ ("manager", manager_caps)
    ∷ ("admin", manager_caps)
    ∷ ("auditor", auditor_caps)
    ∷ ("host", host_caps)
    ∷ ("server", waiter_caps)
    ∷ ("finance", finance_caps)
    ∷ ("compliance", compliance_caps)
    ∷ ("terminal", terminal_caps)
    ∷ ("integration", integration_caps)
    ∷ ("administrator", all_capabilities)
    ∷ []

-- `capabilities_for`
unfoldable pub capabilities_for : String → List String
capabilities_for role = get_or role_caps role []

unfoldable pub can : String → String → Bool
can role capability =
    if not (elem capability all_capabilities)
    then false
    else elem capability (get_or role_caps role [])

-- ## Scope

pub data ScopeReason : Type 0 where
  scope_ok company_mismatch branch_mismatch : ScopeReason

-- An id that is asked for, and another one or none than it.
abbrev pub differs : Option ℕ → Option ℕ → Bool
differs caller none = false
differs none (some t) = true
differs (some c) (some t) = not (c == t)

unfoldable pub check_scope : Option ℕ → Option ℕ → Option ℕ → Option ℕ → Bool → Bool → ScopeReason
check_scope caller_company caller_branch target_company target_branch cross_company cross_branch =
    if not cross_company && differs caller_company target_company
    then company_mismatch
    else if not cross_branch && differs caller_branch target_branch
    then branch_mismatch
    else scope_ok
