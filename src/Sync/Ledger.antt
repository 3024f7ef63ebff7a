-- ===== src/Sync/Ledger.antt =====
-- How a row of the ledger is written, and what `push` does to the cursor: lemmas.
use menes_pos.Prelude.{◌≡◌, Bool, false, ◌||◌, some, List, [], ◌∷◌, ◌++◌, arith, any}
use menes_pos.Sync.Push.{Event, Row, Counts, Batch, is_row_of, create, record_row, max_ℤ}

pub any-append :
    {A : Type 0} (p : A → Bool) (xs : List A) (y : A) → any p (xs ++ y ∷ []) ≡ (any p xs || p y)
any-append p [] y = ground arith
any-append p (x ∷ xs) y = ground (arith, any-append p xs y)

pub create-made :
    (r : Row) (rows rows' : List Row)
    → create r rows ≡ some rows'
    → (any (is_row_of r.terminal r.res_uuid) rows ≡ false) × (rows' ≡ rows ++ r ∷ [])
unfolding create
create-made r rows rows' h = ground arith

pub record_row-made :
    {W : Type 0} (e : Event) (r : Row) (count : Counts → Counts) (w : W) (b b' : Batch W)
    → record_row e r count w b ≡ some b'
    → (b'.world ≡ w) × (create r b.ledger ≡ some b'.ledger) × (b'.acked ≡ max_ℤ b.acked e.seq)
record_row-made e r count w b b' h = ground arith
