-- ===== src/Receipt/Printer.antt =====
-- A receipt printer, as the manuals of ESC/POS describe it, for the commands that domain/escpos.py of
-- addons/mezze_bridge uses: it reads byte after byte and puts out lines, cuts and drawer kicks.
use menes_pos.Receipt.Escpos.{Align, align_left, align_center, align_right}
use menes_pos.Prelude.{
  ℕ, zero, suc, ◌%◌, Bool, false, not, List, [], ◌∷◌, ◌++◌, ◌==◌, if◌then◌else◌,
}

-- What the next byte belongs to.
pub data Mode : Type 0 where
  ready escape group : Mode
  set_align set_bold set_size set_cut : Mode
  pulse : ℕ → Mode

pub data Output : Type 0 where
  blank : Output
  printed : Align → Bool → Bool → List ℕ → Output
  cut kick : Output

pub record Printer : Type 0 where
  pub mode : Mode
  pub align : Align
  pub bold : Bool
  pub big : Bool
  pub line : List ℕ
  pub out : List Output

-- A line without characters looks the same in every format.
abbrev pub shown_line : Align → Bool → Bool → List ℕ → Output
shown_line a b g [] = blank
shown_line a b g (c ∷ cs) = printed a b g (c ∷ cs)

abbrev pub align_of : ℕ → Align
align_of n = if n == 1 then align_center else if n == 2 then align_right else align_left

abbrev pub to_mode : Mode → Printer → Printer
to_mode m p = record p { mode = m }

abbrev pub reset : Printer → Printer
reset p = record p { mode = ready; align = align_left; bold = false; big = false; line = [] }

abbrev pub put_out : Output → Printer → Printer
put_out o p = record p { mode = ready; out = p.out ++ o ∷ [] }

abbrev pub end_line : Printer → Printer
end_line p = record p { line = []; out = p.out ++ shown_line p.align p.bold p.big p.line ∷ [] }

abbrev pub on_ready : ℕ → Printer → Printer
on_ready b p =
    if b == 0x1b
    then to_mode escape p
    else if b == 0x1d
    then to_mode group p
    else if b == 0x0a
    then end_line p
    else record p { line = p.line ++ b ∷ [] }

abbrev pub on_escape : ℕ → Printer → Printer
on_escape b p =
    if b == 0x40
    then reset p
    else if b == 0x61
    then to_mode set_align p
    else if b == 0x45
    then to_mode set_bold p
    else if b == 0x70
    then to_mode (pulse 3) p
    else to_mode ready p

abbrev pub on_group : ℕ → Printer → Printer
on_group b p =
    if b == 0x21
    then to_mode set_size p
    else if b == 0x56
    then to_mode set_cut p
    else to_mode ready p

abbrev pub on_pulse : ℕ → Printer → Printer
on_pulse zero p = to_mode ready p
on_pulse (suc zero) p = put_out kick p
on_pulse (suc (suc n)) p = to_mode (pulse (suc n)) p

abbrev pub in_mode : Mode → ℕ → Printer → Printer
in_mode ready b p = on_ready b p
in_mode escape b p = on_escape b p
in_mode group b p = on_group b p
in_mode set_align b p = record p { mode = ready; align = align_of b }
in_mode set_bold b p = record p { mode = ready; bold = b % 2 == 1 }
in_mode set_size b p = record p { mode = ready; big = not (b == 0) }
in_mode set_cut b p = put_out cut p
in_mode (pulse n) b p = on_pulse n p

abbrev pub receive : ℕ → Printer → Printer
receive b p = in_mode p.mode b p

abbrev pub print : List ℕ → Printer → Printer
print [] p = p
print (b ∷ bs) p = print bs (receive b p)
