-- ===== src/Receipt/Printed.antt =====
-- What a printer makes of the bytes of a ticket.
use menes_pos.Receipt.Escpos.{
  Align, align_left, align_center, align_right, align_other, Row, text_row, rule_row, feed_row,
  Ticket, repeat, align_bytes, bold_on, bold_off, big_on, big_off, only_if, row_bytes, rows_bytes,
  to_escpos, drawer_bytes, cut_bytes,
}
use menes_pos.Receipt.Printer.{ready, Output, blank, cut, kick, Printer, shown_line, print}
use menes_pos.Prelude.{
  ℕ, zero, suc, ◌≡◌, refl, sym, ap, ◌∙◌, Bool, true, false, ◌&&◌, List, [], ◌∷◌, ◌++◌, arith, leb,
  if◌then◌else◌, all,
}

abbrev pub is_printable : ℕ → Bool
is_printable b = leb 0x20 b

-- Nothing pending: the state between two rows.
abbrev pub idle : Align → List Output → Printer
idle a out = record { mode = ready; align = a; bold = false; big = false; line = []; out = out }

abbrev pub printer_align : Align → Align
printer_align align_other = align_left
printer_align a = a

abbrev pub blanks : ℕ → List Output
blanks zero = []
blanks (suc n) = blank ∷ blanks n

module _ (enc : List ℕ → List ℕ) where
  -- What a row is meant to put on paper.
  abbrev pub row_outputs : ℕ → Row → List Output
  row_outputs w (text_row a text bold big) = shown_line (printer_align a) bold big (enc text) ∷ []
  row_outputs w rule_row = shown_line align_left false false (enc (repeat 0x2d w)) ∷ []
  row_outputs w (feed_row n) = blanks n

  abbrev pub rows_outputs : ℕ → List Row → List Output
  rows_outputs w [] = []
  rows_outputs w (r ∷ rs) = row_outputs w r ++ rows_outputs w rs

  -- No control characters in what the codec makes of a row.
  abbrev pub is_plain : ℕ → Row → Bool
  is_plain w (text_row a text bold big) = all is_printable (enc text)
  is_plain w rule_row = all is_printable (enc (repeat 0x2d w))
  is_plain w (feed_row n) = true

and_front : (a b : Bool) → (a && b) ≡ true → a ≡ true
and_front a b h = ground arith

and_back : (a b : Bool) → (a && b) ≡ true → b ≡ true
and_back a b h = ground arith

append_assoc : {A : Type 0} (xs ys zs : List A) → (xs ++ ys) ++ zs ≡ xs ++ (ys ++ zs)
append_assoc [] ys zs = refl
append_assoc (x ∷ xs) ys zs = ap (λ l. x ∷ l) (append_assoc xs ys zs)

append_snoc : {A : Type 0} (xs : List A) (y : A) (zs : List A) → (xs ++ y ∷ []) ++ zs ≡ xs ++ y ∷ zs
append_snoc [] y zs = refl
append_snoc (x ∷ xs) y zs = ap (λ l. x ∷ l) (append_snoc xs y zs)

append_nil : {A : Type 0} (xs : List A) → xs ++ [] ≡ xs
append_nil [] = refl
append_nil (x ∷ xs) = ap (λ l. x ∷ l) (append_nil xs)

print-append : (xs ys : List ℕ) (p : Printer) → print (xs ++ ys) p ≡ print ys (print xs p)
print-append [] ys p = refl
print-append (x ∷ xs) ys p = print-append xs ys _

-- A line being filled.
abbrev filling : Align → Bool → Bool → List ℕ → List Output → Printer
filling a b g l out = record { mode = ready; align = a; bold = b; big = g; line = l; out = out }

print-text :
    (bs : List ℕ) (a : Align) (b g : Bool) (l : List ℕ) (out : List Output)
    → all is_printable bs ≡ true
    → print bs (filling a b g l out) ≡ filling a b g (l ++ bs) out
print-text [] a b g l out h = ap (λ x. filling a b g x out) (sym (append_nil l))
print-text (c ∷ bs) a b g l out h =
    ap (print bs) (one_character c (ground arith))
    ∙ print-text bs a b g (l ++ c ∷ []) out (ground arith)
    ∙ ap (λ x. filling a b g x out) (append_snoc l c bs)
  where
    one_character :
        (c : ℕ)
        → is_printable c ≡ true
        → print (c ∷ []) (filling a b g l out) ≡ filling a b g (l ++ c ∷ []) out
    one_character c h = ground arith

print-repeat :
    (n : ℕ) (a : Align) (out : List Output)
    → print (repeat 0x0a n) (idle a out) ≡ idle a (out ++ blanks n)
print-repeat zero a out = ap (idle a) (sym (append_nil out))
print-repeat (suc n) a out =
    print-repeat n a (out ++ blank ∷ []) ∙ ap (idle a) (append_snoc out blank (blanks n))

print-align :
    (a x : Align) (out : List Output)
    → print (align_bytes a) (idle x out) ≡ idle (printer_align a) out
print-align align_left x out = refl
print-align align_center x out = refl
print-align align_right x out = refl
print-align align_other x out = refl

print-formats :
    (bold big : Bool) (a : Align) (out : List Output)
    → print (only_if bold bold_on) (print (only_if big big_on) (idle a out))
      ≡ filling a bold big [] out
print-formats true true a out = refl
print-formats true false a out = refl
print-formats false true a out = refl
print-formats false false a out = refl

print-closes :
    (bold big : Bool) (a : Align) (out : List Output)
    → print (only_if big big_off) (print (only_if bold bold_off) (filling a bold big [] out))
      ≡ idle a out
print-closes true true a out = refl
print-closes true false a out = refl
print-closes false true a out = refl
print-closes false false a out = refl

print-end :
    (a : Align) (bold big : Bool) (l : List ℕ) (out : List Output)
    → print (0x0a ∷ []) (filling a bold big l out)
      ≡ filling a bold big [] (out ++ shown_line a bold big l ∷ [])
print-end a bold big l out = refl

module _ (enc : List ℕ → List ℕ) where
  abbrev align_after : Row → Align → Align
  align_after (text_row a text bold big) x = printer_align a
  align_after rule_row x = align_left
  align_after (feed_row n) x = x

  print-row :
      (w : ℕ) (r : Row) (a : Align) (out : List Output)
      → is_plain enc w r ≡ true
      → print (row_bytes enc w r) (idle a out) ≡ idle (align_after r a) (out ++ row_outputs enc w r)
  print-row w (text_row x text bold big) a out h =
      simp
        (
          print-append,
          print-align,
          print-formats,
          print-text (enc text) (printer_align x) bold big [] out h,
          print-end,
          print-closes,
        )
        refl
  print-row w rule_row a out h =
      simp (print-append, print-text (enc (repeat 0x2d w)) align_left false false [] out h) refl
  print-row w (feed_row n) a out h = print-repeat n a out

  print-rows :
      (w : ℕ) (rs : List Row) (a : Align) (out : List Output)
      → all (is_plain enc w) rs ≡ true
      → (b : Align) × (print (rows_bytes enc w rs) (idle a out)
          ≡ idle b (out ++ rows_outputs enc w rs))
  print-rows w [] a out h = (a, ap (idle a) (sym (append_nil out)))
  print-rows w (r ∷ rs) a out h = go (and_front (is_plain enc w r) _ h) (
      print-rows w rs (align_after r a) (out ++ row_outputs enc w r)
        (and_back (is_plain enc w r) _ h))
    where
      go :
          is_plain enc w r ≡ true
          → (b : Align) × (print
                (rows_bytes enc w rs)
                (idle (align_after r a) (out ++ row_outputs enc w r))
              ≡ idle b ((out ++ row_outputs enc w r) ++ rows_outputs enc w rs))
          → (b : Align) × (print (row_bytes enc w r ++ rows_bytes enc w rs) (idle a out)
              ≡ idle b (out ++ (row_outputs enc w r ++ rows_outputs enc w rs)))
      go plain (b, rest) = (
        b,
        print-append (row_bytes enc w r) (rows_bytes enc w rs) (idle a out)
            ∙ ap (print (rows_bytes enc w rs)) (print-row w r a out plain)
            ∙ rest
            ∙ ap (idle b) (append_assoc out (row_outputs enc w r) (rows_outputs enc w rs)),
      )

  print-drawer :
      (drawer : Bool) (a : Align) (out : List Output)
      → print (only_if drawer drawer_bytes) (idle a out)
        ≡ idle a (out ++ (if drawer then kick ∷ [] else []))
  print-drawer true a out = refl
  print-drawer false a out = ap (idle a) (sym (append_nil out))

  -- When the codec leaves no control characters in the rows of a ticket, a printer that is ready,
  -- whatever formats and whatever unfinished line it was left with, puts out the rows of the ticket in
  -- their order and formats, three blank lines and a cut, opens the drawer exactly when asked, and is
  -- ready again with no format left on.
  pub to_escpos-printed :
      (t : Ticket) (drawer : Bool) (p : Printer)
      → all (is_plain enc t.width) t.rows ≡ true
      → p.mode ≡ ready
      → (a : Align) × (print (to_escpos enc drawer t) p
          ≡ idle a (
              p.out
              ++ rows_outputs enc t.width t.rows
              ++ blank ∷ blank ∷ blank ∷ cut ∷ (if drawer then kick ∷ [] else [])))
  unfolding to_escpos
  to_escpos-printed t drawer p plain h = go (print-rows t.width t.rows align_left p.out plain)
    where
      body : List ℕ
      body = rows_bytes enc t.width t.rows

      feeds : List ℕ
      feeds = repeat 0x0a 3

      drawer_end : List ℕ
      drawer_end = only_if drawer drawer_bytes

      started : print (0x1b ∷ 0x40 ∷ []) p ≡ idle align_left p.out
      started = rw h refl

      rows : List Output
      rows = rows_outputs enc t.width t.rows

      kicks : List Output
      kicks = if drawer then kick ∷ [] else []

      finish :
          (b : Align) (out : List Output)
          → print drawer_end (print cut_bytes (print feeds (idle b out)))
            ≡ idle b (out ++ blank ∷ blank ∷ blank ∷ cut ∷ kicks)
      finish b out =
          print-drawer drawer b _
          ∙ ap (idle b) (
              append_snoc _ cut kicks
              ∙ append_snoc _ blank (cut ∷ kicks)
              ∙ append_snoc _ blank (blank ∷ cut ∷ kicks)
              ∙ append_snoc out blank (blank ∷ blank ∷ cut ∷ kicks))

      go :
          (b : Align) × (print body (idle align_left p.out) ≡ idle b (p.out ++ rows))
          → (a : Align) × (print ((((0x1b ∷ 0x40 ∷ body) ++ feeds) ++ cut_bytes) ++ drawer_end) p
              ≡ idle a (p.out ++ rows ++ blank ∷ blank ∷ blank ∷ cut ∷ kicks))
      go (b, done) = (
        b,
        print-append (((0x1b ∷ 0x40 ∷ body) ++ feeds) ++ cut_bytes) drawer_end p
            ∙ ap (print drawer_end) (print-append ((0x1b ∷ 0x40 ∷ body) ++ feeds) cut_bytes p)
            ∙ ap (λ x. print drawer_end (print cut_bytes x))
                (print-append (0x1b ∷ 0x40 ∷ body) feeds p
                  ∙ ap (λ x. print feeds (print body x)) started
                  ∙ ap (print feeds) done)
            ∙ finish b (p.out ++ rows),
      )
