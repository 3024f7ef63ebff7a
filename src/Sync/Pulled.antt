-- ===== src/Sync/Pulled.antt =====
-- controllers/sync.py of addons/mezze_bridge: a terminal that pulls page after page gets every row.
use menes_pos.Sync.Pull.{Row, is_after, to_string, last_row}
use menes_pos.Sync.Pages.{InOrder, IsWhole, in_second}
use menes_pos.Prelude.{ℕ, suc, ◌<◌, ◌≡◌, Option, some, List, ◌∷◌, length, keep, take}

module _ (m : ℕ) (wm : Option ℕ) (table : List Row) (r : Row) (rs : List Row)
    (order : InOrder table) (whole : IsWhole wm)
    (few : (s : ℕ) → length (keep (in_second s) table) < suc m)
    (pending : keep (is_after wm) table ≡ r ∷ rs) (full : suc (length (take m rs)) ≡ suc m) where
  abbrev last : Row
  last = last_row r (take m rs)

  abbrev next : Option ℕ
  next = some (to_string last.write_date)
