-- ===== src/Sync/Pull.antt =====
-- addons/mezze_bridge/controllers/sync.py: the pages of `_pull_model`, and a terminal that pulls again
-- with the watermark it was given, as long as there is more. The rows are those of the terminal's scope,
-- archived ones included, in the order of the search, `write_date asc, id asc`; the projection of a row
-- is not modelled. Times are numbers of microseconds, the precision of the column.
use menes_pos.Prelude.{
  ℕ, zero, suc, ◌*◌, ◌/◌, Bool, true, false, Option, none, some, List, [], ◌∷◌, ◌++◌, ltb, ◌==◌,
  if◌then◌else◌, length, keep, take,
}

pub record Row : Type 0 where
  pub id : ℕ
  pub active : Bool
  pub write_date : ℕ

pub record Page : Type 0 where
  pub rows : List Row
  pub watermark : Option ℕ
  pub has_more : Bool

-- `PULL_LIMIT`
abbrev pub pull_limit : ℕ
pull_limit = 500

-- `if watermark: dom.append(('write_date', '>', watermark))`
abbrev pub is_after : Option ℕ → Row → Bool
is_after none r = true
is_after (some t) r = ltb t r.write_date

-- `fields.Datetime.to_string`, read back as a time: the fraction of the second is dropped.
abbrev pub to_string : ℕ → ℕ
to_string t = t / 1000000 * 1000000

-- `recs[-1]`
abbrev pub last_row : Row → List Row → Row
last_row r [] = r
last_row r (x ∷ xs) = last_row x xs

-- The watermark of a page: its last row's, or the old one.
abbrev pub last_date : Option ℕ → List Row → Option ℕ
last_date wm [] = wm
last_date wm (r ∷ rs) = some (to_string (last_row r rs).write_date)

unfoldable pub pull_model : ℕ → Option ℕ → List Row → Page
pull_model limit wm table =
    let recs = take limit (keep (is_after wm) table) in
    record { rows = recs; watermark = last_date wm recs; has_more = length recs == limit }

-- The rows that a terminal collects, and whether it was told that there are no more.
abbrev pub next_page : Page → List Row × Bool → List Row × Bool
next_page page rest = if page.has_more then (page.rows ++ rest.0, rest.1) else (page.rows, true)

abbrev pub pull_all : ℕ → ℕ → Option ℕ → List Row → List Row × Bool
pull_all zero limit wm table = ([], false)
pull_all (suc fuel) limit wm table =
    let page = pull_model limit wm table in
    let rest = pull_all fuel limit page.watermark table in next_page page rest
