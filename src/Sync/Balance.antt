-- ===== src/Sync/Balance.antt =====
-- The balance of a loyalty card and its history move together, in whatever order transactions arrive.
use mathlib.Core.List.{foldr, Perm}
use mathlib.Core.List.Perm
use menes_pos.Sync.Stock.{add_zero, add_swap, ℤ_set}
use menes_pos.Prelude.{
  ℕ, ◌≡◌, refl, sym, ap, ◌∙◌, inl, inr, Bool, true, false, not, ◌&&◌, Option, none, some, List, [],
  ◌∷◌, ◌++◌, arith, ◌==◌, if◌then◌else◌, ==_iff, Bool-cases, ℤ, pos, ◌+ℤ◌, ◌-ℤ◌, ltb_ℤ, int_laws,
}
use menes_pos.Sync.Loyalty.{
  Card, HistoryLine, Loyalty, LoyaltyPayload, loyalty_raised, unknown_partner, no_programme,
  points_of, with_card, loyalty_card, balance, write_points, payload_points, credited,
  flag_overdrawn, credit_partner, apply_loyalty_txn, loyalty_after, apply_txns,
}

-- What the history of a partner comes to.
abbrev pub history_sum : ℕ → List HistoryLine → ℤ
history_sum p [] = pos 0
history_sum p (h ∷ hs) =
    let rest = history_sum p hs in if h.partner == p then rest +ℤ (h.issued -ℤ h.used) else rest

points_of-append :
    (p q : ℕ) (cs : List Card) (n : ℤ)
    → points_of q cs ≡ none
    → balance p (cs ++ record { partner = q; points = pos 0 } ∷ []) ≡ balance p cs
points_of-append p q [] n h = ground arith
points_of-append p q (c ∷ cs) n h = ground (arith, points_of-append p q cs n)

balance-loyalty_card : (p q : ℕ) (cs : List Card) → balance p (loyalty_card q cs) ≡ balance p cs
unfolding loyalty_card
balance-loyalty_card p q cs = go (points_of q cs) refl
  where
    go : (o : Option ℤ) → points_of q cs ≡ o → balance p (with_card q cs o) ≡ balance p cs
    go none h = points_of-append p q cs (pos 0) h
    go (some n) h = refl

has_card : (q : ℕ) (cs : List Card) → (n : ℤ) × (points_of q (loyalty_card q cs) ≡ some n)
unfolding loyalty_card
has_card q cs = go (points_of q cs) refl
  where
    minted :
        (ds : List Card)
        → points_of q ds ≡ none
        → points_of q (ds ++ record { partner = q; points = pos 0 } ∷ []) ≡ some (pos 0)
    minted [] h = ground arith
    minted (c ∷ ds) h = ground (arith, minted ds)

    go : (o : Option ℤ) → points_of q cs ≡ o → (n : ℤ) × (points_of q (with_card q cs o) ≡ some n)
    go none h = (pos 0, minted cs h)
    go (some n) h = (n, h)

balance-write :
    (p q : ℕ) (n m : ℤ) (cs : List Card)
    → points_of q cs ≡ some m
    → balance p (write_points q n cs) ≡ (if q == p then n else balance p cs)
balance-write p q n m [] h = cc
balance-write p q n m (c ∷ cs) h = ground (arith, balance-write p q n m cs)

-- What a transaction adds to a partner's points: nothing when it raises.
abbrev pub earned : (ℕ → Bool) → Bool → ℕ → LoyaltyPayload → ℤ
earned partner_exists has_program p t = elim t.partner_id [
  | none ↦ pos 0
  | some q ↦
      if (not (q == 0) && partner_exists q) && has_program && q == p
      then payload_points t
      else pos 0
]

same_or :
    (b : Bool) (x y n : ℤ)
    → (b ≡ true → x ≡ y +ℤ n)
    → (if b then x else y) ≡ y +ℤ (if b then n else pos 0)
same_or true x y n h = h refl
same_or false x y n h = add_zero y

signed :
    (n : ℤ)
    → (if ltb_ℤ (pos 0) n then n else pos 0) -ℤ (if ltb_ℤ n (pos 0) then pos 0 -ℤ n else pos 0) ≡ n
signed n = ground (arith, minus n, twice n)
  where
    minus : (n : ℤ) → n -ℤ pos 0 ≡ n
    minus n = omega int_laws

    twice : (n : ℤ) → pos 0 -ℤ (pos 0 -ℤ n) ≡ n
    twice n = omega int_laws

credited-balance :
    (p q : ℕ) (n : ℤ) (l : Loyalty)
    → balance p (credited q n l).cards ≡ balance p l.cards +ℤ (if q == p then n else pos 0)
credited-balance p q n l =
    let (m, found) = has_card q l.cards in
    balance-write p q (balance q (loyalty_card q l.cards) +ℤ n) m (loyalty_card q l.cards) found
    ∙ rw (balance-loyalty_card q q l.cards, balance-loyalty_card p q l.cards)
        (same_or (q == p) _ _ _ (λ e. ap (λ x. balance x l.cards +ℤ n) ((==_iff q p).0 e)))

credited-history :
    (p q : ℕ) (n : ℤ) (l : Loyalty)
    → history_sum p (credited q n l).history
      ≡ history_sum p l.history +ℤ (if q == p then n else pos 0)
credited-history p q n l =
    rw (signed n) (same_or (q == p) (history_sum p l.history +ℤ n) _ n (λ e. refl))

module _ (partner_exists : ℕ → Bool) (has_program : Bool) where
  -- Both books of a partner move by what a transaction adds.
  abbrev Moves : ℕ → Loyalty → Loyalty → ℤ → Type 0
  Moves p l l' d =
      (balance p l'.cards ≡ balance p l.cards +ℤ d)
      × (history_sum p l'.history ≡ history_sum p l.history +ℤ d)

  unmoved : (p : ℕ) (l : Loyalty) → Moves p l l (pos 0)
  unmoved p l = (add_zero (balance p l.cards), add_zero (history_sum p l.history))

  flag_overdrawn-after :
      (l l' : Loyalty) (q : ℕ)
      → loyalty_after partner_exists has_program l' (flag_overdrawn q l) ≡ l
  flag_overdrawn-after l l' q = elim (Bool-cases (ltb_ℤ (balance q l.cards) (pos 0))) [
    | inl low ↦ rw low refl
    | inr high ↦ rw high refl
  ]

  txn-Moves :
      (p : ℕ) (t : LoyaltyPayload) (l : Loyalty)
      → Moves p l
          (loyalty_after partner_exists has_program l
            (apply_loyalty_txn partner_exists has_program t l))
          (earned partner_exists has_program p t)
  unfolding apply_loyalty_txn
  txn-Moves p t l = go t.partner_id
    where
      by_tests :
          (q : ℕ) (real run : Bool)
          → Moves p l
              (loyalty_after partner_exists has_program l (
                if real
                then if run
                  then flag_overdrawn q (credited q (payload_points t) l)
                  else loyalty_raised no_programme
                else loyalty_raised unknown_partner))
              (if real && run && q == p then payload_points t else pos 0)
      by_tests q false run = unmoved p l
      by_tests q true false = unmoved p l
      by_tests q true true =
          rw (flag_overdrawn-after (credited q (payload_points t) l) l q)
            (credited-balance p q (payload_points t) l, credited-history p q (payload_points t) l)

      go :
          (o : Option ℕ)
          → Moves p l
              (loyalty_after partner_exists has_program l
                (credit_partner partner_exists has_program t l o))
              (elim o [
                | none ↦ pos 0
                | some q ↦
                    if (not (q == 0) && partner_exists q) && has_program && q == p
                    then payload_points t
                    else pos 0
              ])
      go none = unmoved p l
      go (some q) = by_tests q (not (q == 0) && partner_exists q) has_program

  apply_txns-Moves :
      (p : ℕ) (ts : List LoyaltyPayload) (l : Loyalty)
      → Moves p l
          (apply_txns partner_exists has_program ts l)
          (foldr (λ t d. earned partner_exists has_program p t +ℤ d) (pos 0) ts)
  apply_txns-Moves p [] l = unmoved p l
  apply_txns-Moves p (t ∷ ts) l =
      let (card, line) = txn-Moves p t l in
      let (cards, lines) = apply_txns-Moves p ts (
        loyalty_after partner_exists has_program l
          (apply_loyalty_txn partner_exists has_program t l)) in
      (cards ∙ rw card (omega int_laws), lines ∙ rw line (omega int_laws))

  -- Whatever loyalty transactions arrive, those that raise included: the balance of every partner
  -- moves by exactly what the history of that partner does, and the same transactions in any other
  -- order leave the same balance.
  pub apply_txns-balance :
      (ts us : List LoyaltyPayload) (l : Loyalty) (p : ℕ)
      → Perm ts us
      → (balance p (apply_txns partner_exists has_program ts l).cards
            -ℤ history_sum p (apply_txns partner_exists has_program ts l).history
          ≡ balance p l.cards -ℤ history_sum p l.history)
        × (balance p (apply_txns partner_exists has_program ts l).cards
            ≡ balance p (apply_txns partner_exists has_program us l).cards)
  apply_txns-balance ts us l p π =
      let (cards, lines) = apply_txns-Moves p ts l in
      (
        rw (cards, lines) (omega int_laws),
        cards
            ∙ ap (λ d. balance p l.cards +ℤ d)
                (Perm.foldr-eq ℤ_set (λ t d. earned partner_exists has_program p t +ℤ d)
                  (λ a b x.
                    add_swap (earned partner_exists has_program p a)
                      (earned partner_exists has_program p b) x)
                  π (pos 0))
            ∙ sym (apply_txns-Moves p us l).0,
      )
