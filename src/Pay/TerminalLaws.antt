-- ===== src/Pay/TerminalLaws.antt =====
-- addons/mezze_bridge/models/mezze_terminal_txn.py: what holds of an attempt under every sequence of calls.
use menes_pos.Prelude.{ℕ, String, Option, List, [], ◌∷◌}
use menes_pos.Pay.Ledger.{Odoo}
use menes_pos.Pay.Terminal.{World, Ended, cancel}
use menes_pos.Pay.Settlement.{apply_result, force_done}
use menes_pos.Pay.Sound.{IsSound, apply_result-IsSound, cancel-IsSound, force_done-IsSound}

-- What may be asked of an attempt: a result with the browser's claim, a cancellation, an override.
pub data Call : Type 0 where
  apply : Option String → Call
  cancel_it : Call
  force : Option ℕ → String → Call

unfoldable pub call : Odoo → Call → World → Ended
call odoo (apply claim) w = apply_result odoo claim w
call odoo cancel_it w = cancel w
call odoo (force manager reason) w = force_done odoo manager reason w

-- Exceptions are answered to the caller, and the next call finds the world as it was left.
unfoldable pub calls : Odoo → List Call → World → World
calls odoo [] w = w
calls odoo (c ∷ cs) w = calls odoo cs (call odoo c w).0

-- From an order that is not overpaid and has at most one payment with the attempt's request id:
-- however often and in whatever order the attempt is completed, cancelled and forced, and whichever of
-- the calls raise, the order has at most one payment with that id, and is not overpaid.
pub calls-IsSound :
    (odoo : Odoo) (cs : List Call) (w : World) → IsSound w → IsSound (calls odoo cs w)
unfolding calls call
calls-IsSound odoo [] w s = s
calls-IsSound odoo (apply claim ∷ cs) w s =
    calls-IsSound odoo cs _ (apply_result-IsSound odoo claim w s)
calls-IsSound odoo (cancel_it ∷ cs) w s = calls-IsSound odoo cs _ (cancel-IsSound odoo w s)
calls-IsSound odoo (force manager reason ∷ cs) w s =
    calls-IsSound odoo cs _ (force_done-IsSound odoo manager reason w s)
