-- ===== src/Access/Routes.antt =====
-- addons/mezze_bridge/domain/authz.py: the registry of the endpoints.
use menes_pos.Prelude.{String, Option, List, [], ◌∷◌, get}
use menes_pos.Access.Authz.{
  orders_read, orders_write, orders_pay, orders_refund, orders_comp, orders_fire, orders_void,
  orders_discount, kitchen_read, kitchen_update, tables_read, tables_manage, reservations_read,
  reservations_manage, delivery_read, delivery_manage, loyalty_read, loyalty_adjust, reports_read,
  reports_export, finance_read, compliance_read, hardware_print, hardware_drawer, sync_read,
  sync_write, admin_settings,
}

abbrev pub public_routes : List String
public_routes =
    "health" ∷ "bootstrap" ∷ "pos" ∷ "kds" ∷ "design/pos" ∷ "cashier/login" ∷ "shop/link"
    ∷ "shop/config" ∷ "shop/menu" ∷ "shop/image" ∷ "shop/order" ∷ "shop/status"
    ∷ "delivery/availability" ∷ "selforder/status" ∷ "qr/table_link" ∷ "qr/menu" ∷ "qr/order"
    ∷ "qr/bill" ∷ "qr/pay" ∷ "cfd/push" ∷ "cfd/state" ∷ "feedback/submit" ∷ "checkout/online/create"
    ∷ "checkout/online/pay" ∷ "checkout/status" ∷ "checkout/table/pay_online"
    ∷ "checkout/s/<string:status_token>" ∷ []

abbrev pub integration_routes : List String
integration_routes = "<string:code>/webhook" ∷ "orders" ∷ []

abbrev pub endpoint_capability : List (String × String)
endpoint_capability =
    ("reconciliation/settlement", admin_settings)
    ∷ ("reconciliation/finalize", admin_settings)
    ∷ ("payment/external_refund/confirm", orders_refund)
    ∷ ("terminal/start", orders_pay)
    ∷ ("terminal/complete", orders_pay)
    ∷ ("terminal/cancel", orders_pay)
    ∷ ("terminal/force_done", orders_pay)
    ∷ ("terminal/status", orders_read)
    ∷ ("cashmachine/start", orders_pay)
    ∷ ("cashmachine/complete", orders_pay)
    ∷ ("cashmachine/cancel", orders_pay)
    ∷ ("cashmachine/force_done", orders_pay)
    ∷ ("cashmachine/status", orders_read)
    ∷ ("payment/qr/generate", orders_pay)
    ∷ ("payment/qr/confirm", orders_pay)
    ∷ ("payment/qr/cancel", orders_pay)
    ∷ ("payment/qr/status", orders_read)
    ∷ ("customer/search", orders_read)
    ∷ ("customer/summary", orders_read)
    ∷ ("customer/deposit", orders_pay)
    ∷ ("customer/settle", orders_pay)
    ∷ ("orders/pay", orders_pay)
    ∷ ("orders/refund", orders_refund)
    ∷ ("orders/comp", orders_comp)
    ∷ ("orders/exchange", orders_refund)
    ∷ ("payment/void", orders_void)
    ∷ ("payment/intent", orders_pay)
    ∷ ("reversals/resolve", orders_refund)
    ∷ ("promo/apply", orders_discount)
    ∷ ("loyalty/redeem", loyalty_adjust)
    ∷ ("giftcard/issue", loyalty_adjust)
    ∷ ("drawer/open", hardware_drawer)
    ∷ ("config/tax", admin_settings)
    ∷ ("sessions/<int:session_id>/close", admin_settings)
    ∷ ("register", sync_write)
    ∷ ("push", sync_write)
    ∷ ("einvoice/submit", admin_settings)
    ∷ ("approve", admin_settings)
    ∷ ("marketing/send", admin_settings)
    ∷ ("orders/fire", orders_fire)
    ∷ ("orders/void", orders_void)
    ∷ ("orders/sync", orders_write)
    ∷ ("orders/get", orders_read)
    ∷ ("orders/recent", orders_read)
    ∷ ("orders/kds", kitchen_read)
    ∷ ("courses/fire", orders_fire)
    ∷ ("courses/hold", orders_fire)
    ∷ ("courses/board", kitchen_read)
    ∷ ("kds/state", kitchen_read)
    ∷ ("kds/transition", kitchen_update)
    ∷ ("bds/queue", kitchen_read)
    ∷ ("menu/eightysix", orders_write)
    ∷ ("menu/quickkeys", orders_read)
    ∷ ("bus/poll", orders_read)
    ∷ ("ai/upsell", orders_read)
    ∷ ("tables/transfer", tables_manage)
    ∷ ("tables/merge", tables_manage)
    ∷ ("floors", tables_read)
    ∷ ("reservations/list", reservations_read)
    ∷ ("reservations/availability", reservations_read)
    ∷ ("reservations/create", reservations_manage)
    ∷ ("reservations/state", reservations_manage)
    ∷ ("waitlist/list", reservations_read)
    ∷ ("waitlist/add", reservations_manage)
    ∷ ("waitlist/state", reservations_manage)
    ∷ ("delivery/zones", delivery_read)
    ∷ ("delivery/list", delivery_read)
    ∷ ("delivery/create", delivery_manage)
    ∷ ("delivery/state", delivery_manage)
    ∷ ("delivery/zone/save", delivery_manage)
    ∷ ("drivethru/board", kitchen_read)
    ∷ ("delivery/collect", delivery_manage)
    ∷ ("delivery/couriers", delivery_manage)
    ∷ ("delivery/report", delivery_read)
    ∷ ("selforder/pause", admin_settings)
    ∷ ("selforder/report", orders_read)
    ∷ ("drivethru/create", orders_write)
    ∷ ("drivethru/stage", orders_write)
    ∷ ("ck/board", kitchen_read)
    ∷ ("ck/request", orders_write)
    ∷ ("ck/produce", kitchen_update)
    ∷ ("ck/dispatch", delivery_manage)
    ∷ ("ck/receive", orders_write)
    ∷ ("loyalty/search", loyalty_read)
    ∷ ("giftcard/balance", loyalty_read)
    ∷ ("promo/list", orders_read)
    ∷ ("marketing/segments", reports_read)
    ∷ ("marketing/campaigns", reports_read)
    ∷ ("ops/summary", reports_read)
    ∷ ("manager/dashboard", reports_read)
    ∷ ("hq/summary", reports_read)
    ∷ ("branches", reports_read)
    ∷ ("reports/summary", reports_read)
    ∷ ("reports/refunds.csv", reports_export)
    ∷ ("reconcile", reports_read)
    ∷ ("clock/list", reports_read)
    ∷ ("clock/toggle", orders_write)
    ∷ ("waste/log", orders_write)
    ∷ ("waste/list", reports_read)
    ∷ ("waste/products", orders_read)
    ∷ ("feedback/list", reports_read)
    ∷ ("gl/sessions", finance_read)
    ∷ ("gl/summary", finance_read)
    ∷ ("gl/export.csv", reports_export)
    ∷ ("reversals", finance_read)
    ∷ ("einvoice/status", compliance_read)
    ∷ ("audit/log", compliance_read)
    ∷ ("payment/status", orders_read)
    ∷ ("payment/methods", orders_read)
    ∷ ("print/receipt", hardware_print)
    ∷ ("print/kitchen", hardware_print)
    ∷ ("printers", hardware_print)
    ∷ ("test", hardware_print)
    ∷ ("pull", sync_read)
    ∷ ("settings/effective", orders_read)
    ∷ ("settings/save", orders_read)
    ∷ ("settings/reset", orders_read)
    ∷ ("admin/templates", admin_settings)
    ∷ ("admin/assignments", admin_settings)
    ∷ ("admin/locks", admin_settings)
    ∷ ("admin/permissions", admin_settings)
    ∷ ("admin/audit", admin_settings)
    ∷ ("admin/template/create", admin_settings)
    ∷ ("admin/template/duplicate", admin_settings)
    ∷ ("admin/template/publish", admin_settings)
    ∷ ("admin/template/archive", admin_settings)
    ∷ ("admin/lock", admin_settings)
    ∷ ("admin/assign", admin_settings)
    ∷ ("admin/version", admin_settings)
    ∷ ("admin/golive", admin_settings)
    ∷ ("admin/support_bundle", admin_settings)
    ∷ ("admin/onboarding", admin_settings)
    ∷ ("admin/onboarding/ack", admin_settings)
    ∷ ("admin/audit/export", admin_settings)
    ∷ []

abbrev pub signature_required : List String
signature_required =
    "orders/pay" ∷ "orders/refund" ∷ "orders/comp" ∷ "orders/void" ∷ "orders/exchange"
    ∷ "terminal/start" ∷ "terminal/complete" ∷ "terminal/cancel" ∷ "terminal/force_done"
    ∷ "cashmachine/start" ∷ "cashmachine/complete" ∷ "cashmachine/cancel" ∷ "cashmachine/force_done"
    ∷ "payment/qr/generate" ∷ "payment/qr/confirm" ∷ "payment/qr/cancel" ∷ "payment/void"
    ∷ "payment/intent" ∷ "reversals/resolve" ∷ "promo/apply" ∷ "loyalty/redeem" ∷ "giftcard/issue"
    ∷ "drawer/open" ∷ "config/tax" ∷ "sessions/<int:session_id>/close" ∷ "register" ∷ "push"
    ∷ "einvoice/submit" ∷ "approve" ∷ "marketing/send" ∷ []

-- The capability that an endpoint asks for.
unfoldable pub capability_of : String → Option String
capability_of endpoint = get endpoint_capability endpoint
