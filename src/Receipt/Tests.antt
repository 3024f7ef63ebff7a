-- ===== src/Receipt/Tests.antt =====
-- A short receipt.
use menes_pos.Receipt.Escpos.{
  Align, align_center, Ticket, new_ticket, line, lr, rule, feed, lr_text, to_text, to_escpos,
}
use menes_pos.Receipt.Printer.{ready, blank, cut, kick, Printer, print}
use menes_pos.Receipt.Printed.{idle, rows_outputs, to_escpos-printed}
use menes_pos.Receipt.Width.{lr_text-fits}
use menes_pos.Prelude.{ℕ, ◌≡◌, refl, true, false, some, List, [], ◌∷◌, ◌++◌, arith, length, codes}

abbrev same_codes : List ℕ → List ℕ
same_codes cs = cs

abbrev receipt : Ticket
receipt = feed 2 (
    rule (
      lr (codes "Tea") (codes "12.00") false
        (line (codes "Mezze") align_center true true (new_ticket (some 10)))))

abbrev busy : Printer
busy = record {
  mode = ready;
  align = align_center;
  bold = true;
  big = false;
  line = codes "half";
  out = [];
}

to_escpos-printed_example :
    (a : Align) × (print (to_escpos same_codes true receipt) busy
      ≡ idle a (rows_outputs same_codes 24 receipt.rows ++ blank ∷ blank ∷ blank ∷ cut ∷ kick ∷ []))
unfolding lr_text
to_escpos-printed_example = to_escpos-printed same_codes receipt true busy refl refl

lr_text-fits_example :
    (length (lr_text 24 (codes "A very long name of a dish") (codes "12.00")) ≡ 24)
    × (front : List ℕ) × (lr_text 24 (codes "A very long name of a dish") (codes "12.00")
        ≡ front ++ codes "12.00")
lr_text-fits_example =
    lr_text-fits 24 (codes "A very long name of a dish") (codes "12.00") (omega arith)

centered :
    to_text (line (codes "abc") align_center false false (new_ticket (some 5)))
    ≡ codes "          abc           "
unfolding to_text
centered = refl
