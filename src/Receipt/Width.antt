-- ===== src/Receipt/Width.antt =====
-- domain/escpos.py of addons/mezze_bridge: the width of a line with two texts.
use menes_pos.Receipt.Escpos.{max_ℕ, repeat, lr_text}
use menes_pos.Prelude.{
  ℕ, zero, suc, ◌+◌, ◌-◌, ◌≤◌, ◌<◌, ◌≡◌, refl, ap, ◌∙◌, inl, inr, false, List, [], ◌∷◌, ◌++◌, arith,
  leb, Bool-cases, length, take, length-append,
}

length-repeat : (n : ℕ) → length (repeat 0x20 n) ≡ n
length-repeat zero = refl
length-repeat (suc n) = ap suc (length-repeat n)

length-take_all : (n : ℕ) (xs : List ℕ) → n ≤ length xs → length (take n xs) ≡ n
length-take_all zero xs h = refl
length-take_all (suc n) [] h = absurd (omega arith)
length-take_all (suc n) (x ∷ xs) h = ap suc (length-take_all n xs (omega arith))

-- A line with two texts, of which the right one is shorter than the paper, is exactly as wide as the
-- paper, and ends in the right text.
pub lr_text-fits :
    (w : ℕ) (left right : List ℕ)
    → length right < w
    → (length (lr_text w left right) ≡ w)
      × (front : List ℕ) × (lr_text w left right ≡ front ++ right)
unfolding lr_text
lr_text-fits w left right h = elim (Bool-cases (leb (suc (length left + length right)) w)) [
  | inl fits ↦ rw fits (
      parts left (repeat 0x20 (w - length left - length right))
        (rw (length-repeat (w - length left - length right)) (ground arith)))
  | inr long ↦ rw long (
      parts cut (repeat 0x20 (max_ℕ 1 (w - length cut - length right))) (
        rw (length-repeat (max_ℕ 1 (w - length cut - length right)), cut_length long)
          (ground arith)))
]
  where
    cut : List ℕ
    cut = take (w - length right - 1) left

    cut_length :
        leb (suc (length left + length right)) w ≡ false → length cut ≡ w - length right - 1
    cut_length long = length-take_all (w - length right - 1) left (ground arith)

    parts :
        (a gap : List ℕ)
        → length a + length gap + length right ≡ w
        → (length (a ++ gap ++ right) ≡ w) × (front : List ℕ) × (a ++ gap ++ right ≡ front ++ right)
    parts a gap e = (length-append (a ++ gap) right ∙ rw (length-append a gap) e, a ++ gap, refl)
