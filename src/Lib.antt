-- ===== src/Lib.antt =====
-- The Mezze point-of-sale bridge: the core logic of addons/mezze_bridge.
--
-- The program is an Odoo module. Pure rules stand in addons/mezze_bridge/domain; Odoo models keep the
-- state (orders' tenders, kitchen tickets, deliveries, reservations, the outbox); the controllers answer
-- HTTP requests after a security gate. Money moves through tenders, events leave through the outbox.
--
-- Order: domain/order_fsm.py (Fsm: states, events, `_T`, apply_event, fold, reachable) and
--   domain/order_guard.py (Guard: the maps, check_operation, evaluate). Replay and Reach hold the laws.
-- Outbox: domain/outbox.py (Policy) and models/outbox_event.py (Store: publish, _claim, _consume,
--   _dispatch_batch, replay). Backoff, Ordered, Claim, Publish, Settle, Dispatch and Traces hold the
--   laws.
-- Pay: the tenders of an order. Ledger has the order, its payments and Odoo's own methods as an
--   interface with the laws that the code relies on. Terminal, Settlement: models/mezze_terminal_txn.py
--   (mezze_start, mezze_apply_result, mezze_cancel, mezze_force_done, _settle_payment). Qr:
--   models/mezze_payment_qr.py (mezze_generate, mezze_confirm, mezze_cancel).
-- Kitchen: models/kds_ticket.py (Ticket: _set_state, action_recall, cancel_for_order, _bus_sends).
-- Delivery: models/delivery.py (Dispatch: _is_open, _kitchen_ready, _transition, _collect_cod).
-- Guest: models/reservation.py and models/waitlist.py (can_transition, apply_transition).
-- Refund: domain/refund.py (check_refund, check_line_quantity) and, in Lines, _resolve_refund_lines and
--   order_refund of controllers/main.py. Checked, Ceiling and Duplicates hold the laws.
-- Tender: order_pay of controllers/main.py (Pay), mezze_validate_payment of
--   models/payment_reconciliation.py (Policy), _mezze_credit_position of
--   models/mezze_customer_credit.py with _mezze_credit_gate (Credit). It books into the orders of
--   Pay.Ledger after the guard of Order.Guard. Booked, Keys and Limits hold the laws.
-- Sync: push, _apply_event and _pull_model of controllers/sync.py with the ledger of
--   models/mezze_sync_applied.py (Push, Apply, Stock, Loyalty, Pull): `push` takes what an event does as
--   an argument, which Apply fills. Once, Progress, Blocked, Balance, Sale, Pages and Pulled hold the
--   laws.
-- Settings: models/config_platform.py (Catalog, Resolve, User); Dict is a Python dict. Cascade says what
--   `resolve` promises without its dicts; Saved, Upsert, Choice, RoundTrip and Reset hold the laws of a
--   user's values.
-- Receipt: domain/escpos.py (Escpos). Printer is a model of the device that reads its bytes, written from
--   the meaning of the ESC/POS commands, for Printed to state what is put on paper.
--   Width is about a line with two texts.
-- Access: domain/authz.py (Authz, Routes), _verify_integrity of controllers/main.py with
--   models/api_nonce.py (Integrity), domain/signing_policy.py (Signing),
--   domain/rate_policy.py with models/rate_limit.py (Rate), and _security_gate of controllers/main.py,
--   which composes them (Gate). Roles, Replay, Once, Enforce and Hits hold the laws.
-- Prelude has the shared names: numbers, integers, lists, tables, texts.
--
-- State is passed explicitly. A method that may raise returns the state it leaves with the error;
-- a row lock is the order in which calls run, so theorems on sequences of calls speak of any order.
-- Money is a whole number of the currency's minor unit: `round(x, prec)` changes nothing, `eps` is one
-- unit. Times are whole numbers. Odoo's tables of options are data types or texts, as the code uses them.
-- Fuel: only `reachable` of Order.Fsm has some, 64 rounds for 13 states and 38 transitions, and it is
-- shown to return, and `pull_all` of Sync.Pull, one round more than there are rows, which is shown to
-- be enough. All other loops are recursion on lists.
--
-- Not modelled: HTTP, the audit log's storage, projections for the user interface, floating-point
-- conversions, hashing, HMAC, text codecs and `strip`, `lower`, `int` of a text (parameters), Odoo (an
-- interface), random tokens (arguments), who a request's principal is (an argument of the gate); the
-- remaining controllers, models and front end.
pub mod Prelude
pub mod Order
pub mod Outbox
pub mod Pay
pub mod Kitchen
pub mod Delivery
pub mod Guest
pub mod Refund
pub mod Access
pub mod Sync
pub mod Settings
pub mod Receipt
pub mod Tender
