-- ===== src/Receipt/Escpos.antt =====
-- addons/mezze_bridge/domain/escpos.py: the receipt builder. Texts are lists of code points; the codec
-- cp437 is the argument `enc`.
use menes_pos.Prelude.{
  ℕ, zero, suc, ◌+◌, ◌-◌, ◌/◌, ◌%◌, Bool, true, false, ◌&&◌, Option, none, some, List, [], ◌∷◌,
  ◌++◌, leb, ◌==◌, if◌then◌else◌, length, take,
}

pub data Align : Type 0 where
  align_left align_center align_right align_other : Align

pub data Row : Type 0 where
  text_row : Align → List ℕ → Bool → Bool → Row
  rule_row : Row
  feed_row : ℕ → Row

pub record Ticket : Type 0 where
  pub width : ℕ
  pub rows : List Row

-- `Ticket(width)`: 48 for none or 0, and 24 at least.
abbrev pub max_ℕ : ℕ → ℕ → ℕ
max_ℕ a b = if leb a b then b else a

abbrev pub new_ticket : Option ℕ → Ticket
new_ticket w = record {
  width = max_ℕ 24 (elim w [ none ↦ 48 | some n ↦ if n == 0 then 48 else n ]);
  rows = [];
}

abbrev pub add_row : Row → Ticket → Ticket
add_row r t = record t { rows = t.rows ++ r ∷ [] }

abbrev pub line : List ℕ → Align → Bool → Bool → Ticket → Ticket
line text align bold big t = add_row (text_row align text bold big) t

abbrev pub rule : Ticket → Ticket
rule t = add_row rule_row t

abbrev pub feed : ℕ → Ticket → Ticket
feed n t = add_row (feed_row n) t

abbrev pub repeat : ℕ → ℕ → List ℕ
repeat c zero = []
repeat c (suc n) = c ∷ repeat c n

-- What `lr` makes of its two texts; `gap` below 1 is a subtraction that stops at 0.
unfoldable pub lr_text : ℕ → List ℕ → List ℕ → List ℕ
lr_text w left right =
    if leb (suc (length left + length right)) w
    then left ++ repeat 0x20 (w - length left - length right) ++ right
    else let cut = take (w - length right - 1) left in
      cut ++ repeat 0x20 (max_ℕ 1 (w - length cut - length right)) ++ right

abbrev pub lr : List ℕ → List ℕ → Bool → Ticket → Ticket
lr left right bold t = line (lr_text t.width left right) align_left bold false t

-- ## to_text

-- Python's `str.center` and `str.rjust` with spaces.
abbrev pub left_margin : ℕ → ℕ → ℕ
left_margin marg width = marg / 2 + (if marg % 2 == 1 && width % 2 == 1 then 1 else 0)

abbrev pub center_text : ℕ → List ℕ → List ℕ
center_text width text =
    let marg = width - length text in
    let before = left_margin marg width in repeat 0x20 before ++ text ++ repeat 0x20 (marg - before)

abbrev pub rjust_text : ℕ → List ℕ → List ℕ
rjust_text width text = repeat 0x20 (width - length text) ++ text

abbrev pub aligned : ℕ → Align → List ℕ → List ℕ
aligned w align_center text = center_text w text
aligned w align_right text = rjust_text w text
aligned w _ text = text

abbrev pub empty_lines : ℕ → List (List ℕ)
empty_lines zero = []
empty_lines (suc n) = [] ∷ empty_lines n

abbrev pub text_lines_of : ℕ → Row → List (List ℕ)
text_lines_of w (text_row align text bold big) = aligned w align text ∷ []
text_lines_of w rule_row = repeat 0x2d w ∷ []
text_lines_of w (feed_row n) = empty_lines n

-- The lines that `to_text` joins.
abbrev pub text_lines : ℕ → List Row → List (List ℕ)
text_lines w [] = []
text_lines w (r ∷ rs) = text_lines_of w r ++ text_lines w rs

abbrev pub join_lines : List (List ℕ) → List ℕ
join_lines [] = []
join_lines (l ∷ []) = l
join_lines (l ∷ m ∷ ls) = l ++ 0x0a ∷ join_lines (m ∷ ls)

unfoldable pub to_text : Ticket → List ℕ
to_text t = join_lines (text_lines t.width t.rows)

-- ## to_escpos

abbrev pub init_bytes : List ℕ
init_bytes = 0x1b ∷ 0x40 ∷ []

abbrev pub align_bytes : Align → List ℕ
align_bytes align_center = 0x1b ∷ 0x61 ∷ 0x01 ∷ []
align_bytes align_right = 0x1b ∷ 0x61 ∷ 0x02 ∷ []
align_bytes _ = 0x1b ∷ 0x61 ∷ 0x00 ∷ []

abbrev pub bold_on : List ℕ
bold_on = 0x1b ∷ 0x45 ∷ 0x01 ∷ []

abbrev pub bold_off : List ℕ
bold_off = 0x1b ∷ 0x45 ∷ 0x00 ∷ []

abbrev pub big_on : List ℕ
big_on = 0x1d ∷ 0x21 ∷ 0x11 ∷ []

abbrev pub big_off : List ℕ
big_off = 0x1d ∷ 0x21 ∷ 0x00 ∷ []

abbrev pub cut_bytes : List ℕ
cut_bytes = 0x1d ∷ 0x56 ∷ 0x00 ∷ []

abbrev pub drawer_bytes : List ℕ
drawer_bytes = 0x1b ∷ 0x70 ∷ 0x00 ∷ 0x19 ∷ 0xfa ∷ []

abbrev pub only_if : Bool → List ℕ → List ℕ
only_if true bs = bs
only_if false bs = []

module _ (enc : List ℕ → List ℕ) where
  abbrev pub row_bytes : ℕ → Row → List ℕ
  row_bytes w (text_row align text bold big) =
      align_bytes align
      ++ only_if big big_on
      ++ only_if bold bold_on
      ++ enc text
      ++ 0x0a ∷ []
      ++ only_if bold bold_off
      ++ only_if big big_off
  row_bytes w rule_row = align_bytes align_left ++ enc (repeat 0x2d w) ++ 0x0a ∷ []
  row_bytes w (feed_row n) = repeat 0x0a n

  abbrev pub rows_bytes : ℕ → List Row → List ℕ
  rows_bytes w [] = []
  rows_bytes w (r ∷ rs) = row_bytes w r ++ rows_bytes w rs

  unfoldable pub to_escpos : Bool → Ticket → List ℕ
  to_escpos drawer t =
      init_bytes
      ++ rows_bytes t.width t.rows
      ++ repeat 0x0a 3
      ++ cut_bytes
      ++ only_if drawer drawer_bytes
