-- ===== src/Refund.antt =====
-- addons/mezze_bridge/domain/refund.py: the ceiling of a refund, in minor units, and that of a line, in
-- units of quantity. The conversions from floating-point amounts are not modelled.
pub mod Lines
pub mod Checked
pub mod Ceiling
pub mod Duplicates
mod Tests
use menes_pos.Prelude.{
  ◌≡◌, ◌↔◌, inl, inr, Bool, true, false, List, [], ◌∷◌, arith, if◌then◌else◌, Bool-cases, ℤ, pos,
  ◌+ℤ◌, ◌-ℤ◌, ◌≤ℤ◌, ◌<ℤ◌, ltb_ℤ, leb_ℤ, int_laws,
}

pub data Reason : Type 0 where
  ok refund_non_positive refund_exceeds_refundable : Reason
  refund_quantity_invalid refund_quantity_exceeds_remaining : Reason

pub record Verdict : Type 0 where
  pub is_ok : Bool
  pub reason : Reason
  pub refundable : ℤ

-- What is asked for: a Python integer, or something else.
pub data Asked : Type 0 where
  integer : ℤ → Asked
  not_an_integer : Asked

abbrev verdict : Bool → Reason → ℤ → Verdict
verdict b r left = record { is_ok = b; reason = r; refundable = left }

unfoldable pub check_line_quantity : Asked → ℤ → ℤ → Verdict
check_line_quantity not_an_integer sold already =
    verdict false refund_quantity_invalid (sold -ℤ already)
check_line_quantity (integer requested) sold already =
    let remaining = sold -ℤ already in
    if leb_ℤ requested (pos 0)
    then verdict false refund_quantity_invalid remaining
    else if ltb_ℤ remaining requested
    then verdict false refund_quantity_exceeds_remaining remaining
    else verdict true ok remaining

unfoldable pub check_refund : Asked → ℤ → ℤ → Verdict
check_refund not_an_integer paid already = verdict false refund_non_positive (paid -ℤ already)
check_refund (integer requested) paid already =
    let refundable = paid -ℤ already in
    if leb_ℤ requested (pos 0)
    then verdict false refund_non_positive refundable
    else if ltb_ℤ refundable requested
    then verdict false refund_exceeds_refundable refundable
    else verdict true ok refundable

-- A refund is granted exactly when it is a positive integer of at most what was paid and not refunded
-- before, and a line exactly when the same holds of its quantities; and what is left is the same, too.
pub check_refund-granted :
    (requested paid already : ℤ)
    → (((check_refund (integer requested) paid already).is_ok ≡ true)
        ↔ ((pos 0 <ℤ requested) × (requested ≤ℤ paid -ℤ already)))
      × ((check_line_quantity (integer requested) paid already).is_ok
          ≡ (check_refund (integer requested) paid already).is_ok)
      × ((check_line_quantity (integer requested) paid already).refundable
          ≡ (check_refund (integer requested) paid already).refundable)
unfolding check_refund check_line_quantity
check_refund-granted requested paid already = (ground arith, ground arith, ground arith)

-- Refunds one after the other: what each asks is checked against what was refunded before it.
unfoldable pub refunded_after : List Asked → ℤ → ℤ → ℤ
refunded_after [] paid already = already
refunded_after (integer requested ∷ rest) paid already = refunded_after rest paid (
    if (check_refund (integer requested) paid already).is_ok then already +ℤ requested else already)
refunded_after (not_an_integer ∷ rest) paid already = refunded_after rest paid already

-- If no more was refunded than was paid, whatever is asked for then, never more is refunded in all
-- than was paid, and never less than before.
pub refunded_after-ceiling :
    (asks : List Asked) (paid already : ℤ)
    → already ≤ℤ paid
    → (refunded_after asks paid already ≤ℤ paid) × (already ≤ℤ refunded_after asks paid already)
unfolding refunded_after check_refund
refunded_after-ceiling [] paid already h = (h, omega int_laws)
refunded_after-ceiling (not_an_integer ∷ rest) paid already h =
    refunded_after-ceiling rest paid already h
refunded_after-ceiling (integer requested ∷ rest) paid already h =
    let (below, above) = one_step in
    let (ceiling, kept) = refunded_after-ceiling rest paid next below in
    (ceiling, ≤ℤ-trans already next _ above kept)
  where
    next : ℤ
    next =
        if (check_refund (integer requested) paid already).is_ok
        then already +ℤ requested
        else already

    one_step : (next ≤ℤ paid) × (already ≤ℤ next)
    one_step = elim (Bool-cases (check_refund (integer requested) paid already).is_ok) [
      | inr refused ↦ rw refused (h, omega int_laws)
      | inl granted ↦
          let (positive, within) = (check_refund-granted requested paid already).0.0 granted in
          rw granted (omega int_laws, omega int_laws)
    ]

    ≤ℤ-trans : (a b c : ℤ) → a ≤ℤ b → b ≤ℤ c → a ≤ℤ c
    ≤ℤ-trans a b c p q = omega int_laws
