-- ===== src/Pay/Settlement.antt =====
-- addons/mezze_bridge/models/mezze_terminal_txn.py: booking the one payment of an attempt, the server's
-- result, and the manager's override.
use menes_pos.Prelude.{
  ℕ, String, Bool, true, false, not, ◌&&◌, ◌||◌, Option, none, some, ◌∷◌, ◌==◌, if◌then◌else◌,
  str_eq, is_blank, ℤ, pos, ◌-ℤ◌, ltb_ℤ, leb_ℤ, min_ℤ, abs,
}
use menes_pos.Pay.Ledger.{
  is_draft, simulated, cash_machine, forced, Payment, Odoo, order_remaining, keyed, first,
}
use menes_pos.Pay.Terminal.{
  Kind, TxnState, approved, declined, cancelled, error, timeout, unknown, terminal_kind,
  cash_machine_kind, Txn, outcome_mismatch, forced_done, integration_pending, manager_required,
  reason_required, not_eligible, order_not_paid, World, Ended, and_then, is_uncertain, state_text,
  text_or, sim_outcome, cash_sim_outcome, is_test, or_reference,
}

-- The values of the payment that is booked.
abbrev pub payment_of : Txn → String → Bool → ℤ → Payment
payment_of t provenance recon_flag amount = record {
  amount = amount;
  method = t.method;
  tender_key = some t.request_id;
  confirmation_source = provenance;
  recon_flag = recon_flag;
  reference = t.provider_reference;
  authcode = t.authcode;
  card_type = t.card_type;
  device = t.device;
}

abbrev pub with_payment : World → Option Payment → World
with_payment w p = record w { txn = record (w.txn) { pos_payment = p } }

abbrev pub finalise : Odoo → World → Ended
finalise odoo w =
    if leb_ℤ (order_remaining w.order) (pos 1) && is_draft w.order.state
    then elim (odoo.mark_paid w.order) [
      | none ↦ (w, some order_not_paid)
      | some o ↦ (record w { order = o }, none)
    ]
    else (w, none)

-- The booking itself, once no payment of this attempt is found.
abbrev pub book : Odoo → String → Bool → World → Ended
book odoo provenance recon_flag w =
    let amount = min_ℤ w.txn.amount (order_remaining w.order) in
    if leb_ℤ amount (pos 0)
    then (w, none)
    else let o = odoo.add_payment (payment_of w.txn provenance recon_flag amount) w.order in
      finalise odoo
        (with_payment (record w { order = o }) (first (keyed w.txn.request_id o.payments)))

abbrev pub settle_existing : Odoo → String → Bool → World → Option Payment → Ended
settle_existing odoo provenance recon_flag w none = book odoo provenance recon_flag w
settle_existing odoo provenance recon_flag w (some p) = (with_payment w (some p), none)

abbrev pub settle_from : Odoo → String → Bool → World → Option Payment → Ended
settle_from odoo provenance recon_flag w (some p) = (w, none)
settle_from odoo provenance recon_flag w none =
    settle_existing odoo provenance recon_flag w (first (keyed w.txn.request_id w.order.payments))

-- `_settle_payment`
unfoldable pub settle_payment : Odoo → String → Bool → World → Ended
settle_payment odoo provenance recon_flag w =
    settle_from odoo provenance recon_flag w w.txn.pos_payment

abbrev pub set_state : TxnState → Bool → String → World → World
set_state st doubt code w = record w {
  txn = record (w.txn) { state = st; uncertain = doubt; error_code = code };
}

abbrev pub approve : World → World
approve w = record w { txn = record (w.txn) { state = approved; uncertain = false } }

abbrev pub approve_end : World → Ended
approve_end w = (approve w, none)

abbrev pub note_mismatch : Option String → TxnState → World → World
note_mismatch none outcome w = w
note_mismatch (some claim) outcome w =
    if str_eq claim "" || str_eq claim (state_text outcome)
    then w
    else record w { log = outcome_mismatch claim outcome ∷ w.log }

abbrev pub pending_error : String → World → Ended
pending_error code w = (
  record w { txn = record (w.txn) { state = error; error_code = code } },
  some integration_pending,
)

-- The early returns on an attempt that is settled already.
abbrev pub unless_settled : TxnState → World → Ended → Ended
unless_settled approved w run = (w, none)
unless_settled declined w run = (w, none)
unless_settled cancelled w run = (w, none)
unless_settled _ w run = run

-- ## The cash machine

-- `sim_inserted` where the scenario gives change and it is not zero, and the amount at least.
unfoldable pub inserted : Txn → ℤ
inserted t =
    let with_change =
      str_eq (text_or t.sim_scenario "success_exact") "success_with_change"
      && not (abs t.sim_inserted == 0) in
    let counted = if with_change then t.sim_inserted else t.amount in
    if ltb_ℤ counted t.amount then t.amount else counted

-- What is written before the payment is booked.
abbrev pub cash_report : World → World
cash_report w =
    let t = w.txn in
    record w {
      txn = record t {
        provider_reference = some (or_reference t.provider_reference (cash_machine t.request_id));
        inserted_amount = inserted t;
        change_amount = inserted t -ℤ t.amount;
      };
    }

unfoldable pub cash_outcome : Odoo → TxnState → World → Ended
cash_outcome odoo approved w =
    and_then (settle_payment odoo "cash_machine" false (cash_report w)) approve_end
cash_outcome odoo cancelled w = (
  set_state cancelled false
      (if str_eq (text_or w.txn.sim_scenario "success_exact") "connection_error"
        then "connection_error"
        else "")
      w,
  none,
)
cash_outcome odoo unknown w = (set_state unknown true "unknown" w, none)
cash_outcome odoo _ w = (set_state error true "cash_machine_error" w, none)

abbrev pub cash_result : Odoo → Option String → World → Ended
cash_result odoo claim w =
    if not (is_test w.txn)
    then pending_error "device_integration_pending" w
    else cash_outcome odoo (cash_sim_outcome w.txn) (note_mismatch claim (cash_sim_outcome w.txn) w)

-- `_apply_cash_result`
unfoldable pub apply_cash_result : Odoo → Option String → World → Ended
apply_cash_result odoo claim w = unless_settled w.txn.state w (cash_result odoo claim w)

-- ## The card terminal

abbrev pub card_report : World → World
card_report w =
    let t = w.txn in
    record w {
      txn = record t {
        provider_reference = some (or_reference t.provider_reference (simulated t.request_id));
        card_type = some (text_or t.card_type "SIMCARD");
      };
    }

unfoldable pub card_outcome : Odoo → TxnState → World → Ended
card_outcome odoo approved w =
    and_then (settle_payment odoo "integrated" false (card_report w)) approve_end
card_outcome odoo declined w = (set_state declined false "declined" w, none)
card_outcome odoo cancelled w = (set_state cancelled false w.txn.error_code w, none)
card_outcome odoo timeout w = (set_state timeout true "timeout" w, none)
card_outcome odoo unknown w = (set_state unknown true "unknown" w, none)
card_outcome odoo _ w = (set_state error true "terminal_error" w, none)

abbrev pub card_result : Odoo → Option String → World → Ended
card_result odoo claim w =
    if not (is_test w.txn)
    then pending_error "provider_integration_pending" w
    else card_outcome odoo (sim_outcome w.txn) (note_mismatch claim (sim_outcome w.txn) w)

unfoldable pub apply_card_result : Odoo → Option String → World → Ended
apply_card_result odoo claim w = unless_settled w.txn.state w (card_result odoo claim w)

-- `mezze_apply_result`
abbrev pub result_of : Kind → Odoo → Option String → World → Ended
result_of terminal_kind odoo claim w = apply_card_result odoo claim w
result_of cash_machine_kind odoo claim w = apply_cash_result odoo claim w

unfoldable pub apply_result : Odoo → Option String → World → Ended
apply_result odoo claim w = result_of w.txn.kind odoo claim w

-- ## mezze_force_done

-- The manager that the caller has verified is named by a number.
abbrev pub unless_approved : TxnState → World → Ended → Ended
unless_approved approved w run = (w, none)
unless_approved _ w run = run

abbrev pub forced_end : ℕ → String → World → Ended
forced_end manager reason v =
    let t = v.txn in
    (
      record v {
        txn = record t {
          state = approved;
          uncertain = false;
          force_done = true;
          provider_reference = some (or_reference t.provider_reference (forced t.request_id));
        };
        log = forced_done t.request_id manager reason ∷ v.log;
      },
      none,
    )

abbrev pub override : Odoo → ℕ → String → World → Ended
override odoo manager reason w =
    and_then (settle_payment odoo "manual_force_done" true w) (forced_end manager reason)

abbrev pub force_done_from : Odoo → ℕ → String → World → Ended
force_done_from odoo manager reason w =
    let run =
      if is_uncertain w.txn.state then override odoo manager reason w else (w, some not_eligible) in
    unless_approved w.txn.state w run

unfoldable pub force_done : Odoo → Option ℕ → String → World → Ended
force_done odoo none reason w = (w, some manager_required)
force_done odoo (some manager) reason w =
    if is_blank reason then (w, some reason_required) else force_done_from odoo manager reason w
