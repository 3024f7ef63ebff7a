-- ===== src/Pay/Sound.antt =====
-- addons/mezze_bridge/models/mezze_terminal_txn.py: each operation on an attempt keeps the order's books.
use menes_pos.Prelude.{
  ℕ, ◌≤◌, String, ◌≡◌, refl, inl, inr, Bool, true, false, not, ◌&&◌, ◌||◌, Option, none, some, [],
  arith, if◌then◌else◌, str_eq, str_eq_iff, Bool-cases, Option-cases, length, is_blank, ℤ, pos,
  ◌≤ℤ◌, leb_ℤ, min_ℤ, int_laws,
}
use menes_pos.Pay.Ledger.{
  first-none, is_draft, Payment, PosOrder, Odoo, order_remaining, keyed, first, sum_amounts,
  has_key, NotOverpaid, sum_amounts-append, keyed-append,
}
use menes_pos.Pay.Terminal.{
  not_eligible, reason_required, TxnState, approved, declined, cancelled, Kind, terminal_kind,
  cash_machine_kind, World, Ended, and_then, is_uncertain, is_test, cancel, cancel_from,
  sim_outcome, cash_sim_outcome, state_text,
}
use menes_pos.Pay.Settlement.{
  approve_end, forced_end, card_report, cash_report, settle_from, settle_existing, unless_settled,
  unless_approved, cash_result, card_result, result_of, book, finalise, with_payment, pending_error,
  override, settle_payment, payment_of, card_outcome, cash_outcome, apply_card_result,
  apply_cash_result, apply_result, force_done, note_mismatch,
}

-- At most one payment carries the request id, and the order is not overpaid.
pub record IsSound (w : World) : Type 0 where
  pub one_payment : length (keyed w.txn.request_id w.order.payments) ≤ 1
  pub not_overpaid : NotOverpaid w.order

module _ (odoo : Odoo) where
  -- An order to which a payment with a new key and of at most what remains has been added.
  added :
      (k : String) (o : PosOrder) (p : Payment)
      → keyed k o.payments ≡ []
      → has_key k p ≡ true
      → p.amount ≤ℤ order_remaining o
      → (length (keyed k (odoo.add_payment p o).payments) ≡ 1)
        × (sum_amounts (odoo.add_payment p o).payments ≤ℤ (odoo.add_payment p o).amount_total)
  unfolding order_remaining
  added k o p new h le = (
    rw (odoo.add_payment_adds p o, keyed-append k o.payments p h, new),
    rw (odoo.add_payment_adds p o, odoo.add_payment_total p o, sum_amounts-append o.payments p)
        (omega int_laws),
  )

  finalise-IsSound : (w : World) → IsSound w → IsSound (finalise odoo w).0
  finalise-IsSound w s =
      elim (Bool-cases (leb_ℤ (order_remaining w.order) (pos 1) && is_draft w.order.state)) [
        | inr open_still ↦ rw open_still s
        | inl settled ↦ elim (Option-cases (odoo.mark_paid w.order)) [
          | inl raises ↦ rw (settled, raises) s
          | inr (o, e) ↦
              let kept = odoo.mark_paid_payments w.order o e in
              rw (settled, e)
                (record {
                  one_payment = rw kept.0 s.one_payment;
                  not_overpaid = rw (kept.0, kept.1) s.not_overpaid;
                })
        ]
      ]

  book-IsSound :
      (provenance : String) (recon_flag : Bool) (w : World)
      → keyed w.txn.request_id w.order.payments ≡ []
      → IsSound w
      → IsSound (book odoo provenance recon_flag w).0
  book-IsSound provenance recon_flag w new s =
      go (min_ℤ w.txn.amount (order_remaining w.order)) (ground arith)
    where
      go :
          (amount : ℤ)
          → amount ≤ℤ order_remaining w.order
          → IsSound
              (if leb_ℤ amount (pos 0)
                then (w, none)
                else let o =
                    odoo.add_payment (payment_of w.txn provenance recon_flag amount) w.order in
                  finalise odoo (
                    with_payment
                      (record w { order = o })
                      (first (keyed w.txn.request_id o.payments)))).0
      go amount le = elim (Bool-cases (leb_ℤ amount (pos 0))) [
        | inl nothing ↦ rw nothing s
        | inr some_left ↦
            let p = payment_of w.txn provenance recon_flag amount in
            let a =
              added w.txn.request_id w.order p new
                ((str_eq_iff w.txn.request_id w.txn.request_id).1 refl) le in
            let o = odoo.add_payment p w.order in
            rw some_left (
              finalise-IsSound
                (with_payment (record w { order = o }) (first (keyed w.txn.request_id o.payments)))
                (record { one_payment = omega (arith, a.0); not_overpaid = a.1 }))
      ]

  settle_existing-IsSound :
      (provenance : String) (recon_flag : Bool) (w : World) (found : Option Payment)
      → first (keyed w.txn.request_id w.order.payments) ≡ found
      → IsSound w
      → IsSound (settle_existing odoo provenance recon_flag w found).0
  settle_existing-IsSound provenance recon_flag w none e s =
      book-IsSound provenance recon_flag w (first-none _ e) s
  settle_existing-IsSound provenance recon_flag w (some p) e s = record {
    one_payment = s.one_payment;
    not_overpaid = s.not_overpaid;
  }

  settle_from-IsSound :
      (provenance : String) (recon_flag : Bool) (w : World) (held : Option Payment)
      → IsSound w
      → IsSound (settle_from odoo provenance recon_flag w held).0
  settle_from-IsSound provenance recon_flag w (some p) s = s
  settle_from-IsSound provenance recon_flag w none s =
      settle_existing-IsSound provenance recon_flag w _ refl s

  settle_payment-IsSound :
      (provenance : String) (recon_flag : Bool) (w : World)
      → IsSound w
      → IsSound (settle_payment odoo provenance recon_flag w).0
  unfolding settle_payment
  settle_payment-IsSound provenance recon_flag w s =
      settle_from-IsSound provenance recon_flag w w.txn.pos_payment s

  and_then-IsSound :
      (r : Ended) (f : World → Ended)
      → IsSound r.0
      → ((v : World) → IsSound v → IsSound (f v).0)
      → IsSound (and_then r f).0
  and_then-IsSound (w, none) f s k = k w s
  and_then-IsSound (w, some e) f s k = s

  settle_then-IsSound :
      (provenance : String) (recon_flag : Bool) (w : World) (f : World → Ended)
      → IsSound w
      → ((v : World) → IsSound v → IsSound (f v).0)
      → IsSound (and_then (settle_payment odoo provenance recon_flag w) f).0
  settle_then-IsSound provenance recon_flag w f s k =
      and_then-IsSound (settle_payment odoo provenance recon_flag w) f
        (settle_payment-IsSound provenance recon_flag w s) k

  card_outcome-IsSound :
      (st : TxnState) (w : World) → IsSound w → IsSound (card_outcome odoo st w).0
  unfolding card_outcome
  card_outcome-IsSound approved w s =
      settle_then-IsSound "integrated" false (card_report w) approve_end
        (record { one_payment = s.one_payment; not_overpaid = s.not_overpaid })
        (λ v sv. record { one_payment = sv.one_payment; not_overpaid = sv.not_overpaid })
  card_outcome-IsSound _ w s = record { one_payment = s.one_payment; not_overpaid = s.not_overpaid }

  cash_outcome-IsSound :
      (st : TxnState) (w : World) → IsSound w → IsSound (cash_outcome odoo st w).0
  unfolding cash_outcome
  cash_outcome-IsSound approved w s =
      settle_then-IsSound "cash_machine" false (cash_report w) approve_end
        (record { one_payment = s.one_payment; not_overpaid = s.not_overpaid })
        (λ v sv. record { one_payment = sv.one_payment; not_overpaid = sv.not_overpaid })
  cash_outcome-IsSound _ w s = record { one_payment = s.one_payment; not_overpaid = s.not_overpaid }

  unless_settled-IsSound :
      (st : TxnState) (w : World) (r : Ended)
      → IsSound w
      → IsSound r.0
      → IsSound (unless_settled st w r).0
  unless_settled-IsSound approved w r s k = s
  unless_settled-IsSound declined w r s k = s
  unless_settled-IsSound cancelled w r s k = s
  unless_settled-IsSound _ w r s k = k

  if-IsSound : (b : Bool) (x y : Ended) → IsSound x.0 → IsSound y.0 → IsSound (if b then x else y).0
  if-IsSound true x y h k = h
  if-IsSound false x y h k = k

  note_mismatch-IsSound :
      (claim : Option String) (st : TxnState) (w : World)
      → IsSound w
      → IsSound (note_mismatch claim st w)
  note_mismatch-IsSound none st w s = s
  note_mismatch-IsSound (some c) st w s =
      elim (Bool-cases (str_eq c "" || str_eq c (state_text st))) [
        | inl same ↦ rw same s
        | inr other ↦
            rw other (record { one_payment = s.one_payment; not_overpaid = s.not_overpaid })
      ]

  pub apply_result-IsSound :
      (claim : Option String) (w : World) → IsSound w → IsSound (apply_result odoo claim w).0
  unfolding apply_result apply_card_result apply_cash_result
  apply_result-IsSound claim w s = by_kind w.txn.kind
    where
      pending : (code : String) → IsSound (pending_error code w).0
      pending code = record { one_payment = s.one_payment; not_overpaid = s.not_overpaid }

      by_kind : (kind : Kind) → IsSound (result_of kind odoo claim w).0
      by_kind terminal_kind = unless_settled-IsSound w.txn.state w (card_result odoo claim w) s (
          if-IsSound (not (is_test w.txn)) _ _ (pending "provider_integration_pending") (
            card_outcome-IsSound (sim_outcome w.txn) _
              (note_mismatch-IsSound claim (sim_outcome w.txn) w s)))
      by_kind cash_machine_kind =
          unless_settled-IsSound w.txn.state w (cash_result odoo claim w) s (
            if-IsSound (not (is_test w.txn)) _ _ (pending "device_integration_pending") (
              cash_outcome-IsSound (cash_sim_outcome w.txn) _
                (note_mismatch-IsSound claim (cash_sim_outcome w.txn) w s)))

  pub cancel-IsSound : (w : World) → IsSound w → IsSound (cancel w).0
  unfolding cancel
  cancel-IsSound w s = from w.txn.state
    where
      from : (st : TxnState) → IsSound (cancel_from st w).0
      from approved = s
      from declined = s
      from cancelled = s
      from _ = record { one_payment = s.one_payment; not_overpaid = s.not_overpaid }

  pub force_done-IsSound :
      (manager : Option ℕ) (reason : String) (w : World)
      → IsSound w
      → IsSound (force_done odoo manager reason w).0
  unfolding force_done
  force_done-IsSound none reason w s = s
  force_done-IsSound (some m) reason w s =
      if-IsSound (is_blank reason) (w, some reason_required) _ s
        (from w.txn.state
          (if is_uncertain w.txn.state then override odoo m reason w else (w, some not_eligible))
          (if-IsSound (is_uncertain w.txn.state) _ _ forced_sound s))
    where
      forced_sound : IsSound (override odoo m reason w).0
      forced_sound =
          settle_then-IsSound "manual_force_done" true w (forced_end m reason) s
            (λ v sv. record { one_payment = sv.one_payment; not_overpaid = sv.not_overpaid })

      from : (st : TxnState) (r : Ended) → IsSound r.0 → IsSound (unless_approved st w r).0
      from approved r k = s
      from _ r k = k
