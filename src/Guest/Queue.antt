-- ===== src/Guest/Queue.antt =====
-- addons/mezze_bridge/models/waitlist.py: what every sequence of actions keeps.
use menes_pos.Prelude.{
  ℕ, String, ◌≡◌, Bool, true, false, not, ◌&&◌, ◌||◌, Option, List, [], ◌∷◌, arith, if◌then◌else◌,
}
use menes_pos.Guest.Waitlist.{
  WaitState, waiting, seated, same_wait, Party, WaitError, WaitAllowed, allowed, denied, can_move,
  wait_entered, given, move_allowed, apply_move,
}
use menes_pos.Guest.Lifecycle.{is_given}

-- A party that waits has neither a table nor an order.
unfoldable pub is_free : Party → Bool
is_free p =
    not (same_wait p.state waiting) || (not (is_given p.table) && not (is_given p.pos_order))

wait_entered-is_free :
    (st : WaitState) (table : Option ℕ) (p : Party) → is_free (wait_entered st table p) ≡ true
unfolding is_free
wait_entered-is_free st table p = ground arith

move_allowed-is_free :
    (a : WaitAllowed) (table : Option ℕ) (p : Party)
    → is_free p ≡ true
    → is_free (move_allowed a table p).0 ≡ true
move_allowed-is_free (denied e) table p h = h
move_allowed-is_free (allowed target) table p h =
    if-is_free (same_wait target p.state && not (same_wait target seated && given table)) _ _ h
      (wait_entered-is_free target table p)
  where
    if-is_free :
        (b : Bool) (x y : Party × Option WaitError)
        → is_free x.0 ≡ true
        → is_free y.0 ≡ true
        → is_free (if b then x else y).0 ≡ true
    if-is_free true x y p q = p
    if-is_free false x y p q = q

unfoldable pub move_all : List (String × Option ℕ) → Party → Party
move_all [] p = p
move_all ((action, table) ∷ rest) p = move_all rest (apply_move action table p).0

-- Whatever actions are asked for, it stays true that a party that waits holds neither a table nor an
-- order.
pub move_all-is_free :
    (actions : List (String × Option ℕ)) (p : Party)
    → is_free p ≡ true
    → is_free (move_all actions p) ≡ true
unfolding move_all apply_move
move_all-is_free [] p h = h
move_all-is_free ((action, table) ∷ rest) p h =
    move_all-is_free rest _ (move_allowed-is_free (can_move p action) table p h)
