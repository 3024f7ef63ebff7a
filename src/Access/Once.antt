-- ===== src/Access/Once.antt =====
-- addons/mezze_bridge/models/api_nonce.py and controllers/main.py: a signed request passes once.
use menes_pos.Prelude.{
  ℕ, ◌*◌, ◌≤◌, String, ◌≡◌, refl, sym, ◌∙◌, subst, ◌≢◌, ◌⊎◌, inl, inr, Bool, true, false, not, ◌&&◌,
  ◌||◌, none, some, some-injective, List, [], ◌∷◌, arith, str_eq, str_eq_iff, Bool-cases, any, In,
  In-last, any-holds, ℤ, pos, ◌+ℤ◌, ◌-ℤ◌, ◌≤ℤ◌, ◌<ℤ◌, ltb_ℤ, ltb_ℤ-true, ltb_ℤ-false, int_laws,
}
use menes_pos.Access.Integrity.{
  Crypto, Timestamp, finite, infinite, minus_infinite, nan, is_future, is_expired, Nonce, is_pair,
  claim, cron_gc, Request, Signer, has, with_claim, check_key, verify_integrity,
}
use menes_pos.Access.Replay.{Verdict, gc-In, verify_integrity-In, check_key-P}

-- A request with its time, its nonce and a signature, in headers that are there once.
abbrev pub is_signed : Request → Bool
is_signed r = not r.duplicate_headers && (has r.timestamp && (has r.nonce && has r.signature))

module _ (skew : ℕ) (principal nonce : String) (ts : ℤ) where
  -- The pair is in the store, seen no earlier than the time of the request allows.
  abbrev Held : List Nonce → Type 0
  Held store =
      (e : Nonce) × In e store × (is_pair principal nonce e ≡ true) × (ts ≤ℤ e.seen_at +ℤ pos skew)

  abbrev Spent : ℤ → List Nonce → Type 0
  Spent now store = Held store ⊎ (ts +ℤ pos skew <ℤ now)

-- What happens to the store: a request is checked, or the stale nonces are cleaned away.
pub data Event : Type 0 where
  checked : ℤ → Request → Signer → Bool → Event
  cleaned : ℤ → ℕ → Event

abbrev pub at : Event → ℤ
at (checked now r s require) = now
at (cleaned now limit) = now

unfoldable pub happen : Crypto → ℕ → ℕ → Event → List Nonce → List Nonce
happen crypto skew retention (checked now r s require) store =
    (verify_integrity crypto now skew require r s store).1
happen crypto skew retention (cleaned now limit) store = cron_gc now retention limit store

unfoldable pub happen_all : Crypto → ℕ → ℕ → List Event → List Nonce → List Nonce
happen_all crypto skew retention [] store = store
happen_all crypto skew retention (e ∷ es) store =
    happen_all crypto skew retention es (happen crypto skew retention e store)

-- The events come in the order of their times, from one time to another.
abbrev pub InTime : ℤ → List Event → ℤ → Type 0
InTime from [] to = from ≤ℤ to
InTime from (e ∷ es) to = (from ≤ℤ at e) × InTime (at e) es to

module _ (skew : ℕ) (principal nonce : String) (ts : ℤ) where
  happen-Spent :
      (crypto : Crypto) (retention : ℕ) (e : Event) (now : ℤ) (store : List Nonce)
      → 2 * skew ≤ retention
      → now ≤ℤ at e
      → Spent skew principal nonce ts now store
      → Spent skew principal nonce ts (at e) (happen crypto skew retention e store)
  unfolding happen
  happen-Spent crypto retention e now store long later (inr past) = inr (omega int_laws)
  happen-Spent crypto retention (checked at_ r s require) now store long later
        (inl (n, m, is, seen)) =
      inl (n, verify_integrity-In crypto at_ skew require r s store n m, is, seen)
  happen-Spent crypto retention (cleaned at_ limit) now store long later (inl (n, m, is, seen)) =
      elim (gc-In (at_ -ℤ pos retention) limit store n m) [
        | inl kept ↦ inl (n, kept, is, seen)
        | inr old ↦ inr (aged (ltb_ℤ-true n.seen_at (at_ -ℤ pos retention) old))
      ]
    where
      aged : n.seen_at <ℤ at_ -ℤ pos retention → ts +ℤ pos skew <ℤ at_
      aged h = omega int_laws

  happen_all-Spent :
      (crypto : Crypto) (retention : ℕ) (es : List Event) (from to : ℤ) (store : List Nonce)
      → 2 * skew ≤ retention
      → InTime from es to
      → Spent skew principal nonce ts from store
      → Spent skew principal nonce ts to (happen_all crypto skew retention es store)
  unfolding happen_all
  happen_all-Spent crypto retention [] from to store long order (inl held) = inl held
  happen_all-Spent crypto retention [] from to store long order (inr past) = inr (omega int_laws)
  happen_all-Spent crypto retention (e ∷ es) from to store long (first, rest) spent =
      happen_all-Spent crypto retention es (at e) to _ long rest
        (happen-Spent crypto retention e from store long first spent)

is_signed-parts :
    (d t n g : Bool)
    → (not d && (t && (n && g))) ≡ true
    → (d ≡ false) × ((t || n || g) ≡ true) × ((t && n && g) ≡ true)
is_signed-parts d t n g h = ground arith

-- A signed request is answered by the check of its key and what follows.
signed_check :
    (crypto : Crypto) (now : ℤ) (skew : ℕ) (require : Bool) (r : Request) (s : Signer)
    (store : List Nonce)
    → is_signed r ≡ true
    → verify_integrity crypto now skew require r s store
      ≡ check_key crypto now skew r s s.key_reason store
unfolding verify_integrity
signed_check crypto now skew require r s store h =
    let (single, some_there, all_there) =
      is_signed-parts r.duplicate_headers (has r.timestamp) (has r.nonce) (has r.signature) h in
    rw (single, some_there, all_there) refl

claimed-Held :
    (skew : ℕ) (principal nonce : String) (now ts : ℤ) (store : List Nonce)
    → ltb_ℤ (pos skew) (ts -ℤ now) ≡ false
    → ((with_claim (claim principal nonce now store)).0 ≡ none)
    → Held skew principal nonce ts (with_claim (claim principal nonce now store)).1
unfolding claim
claimed-Held skew principal nonce now ts store past =
    elim (Bool-cases (str_eq principal "" || str_eq nonce "")) [
      | inl empty ↦ rw empty (λ e. cc)
      | inr given ↦ elim (Bool-cases (any (is_pair principal nonce) store)) [
        | inl used ↦ rw (given, used) (λ e. cc)
        | inr new ↦
            rw (given, new)
              (λ e. (
                record { principal = principal; nonce = nonce; seen_at = now },
                In-last store _,
                rw ((str_eq_iff principal principal).1 refl, (str_eq_iff nonce nonce).1 refl) refl,
                in_time (ltb_ℤ-false (pos skew) (ts -ℤ now) past),
              ))
      ]
    ]
  where
    in_time : ts -ℤ now ≤ℤ pos skew → ts ≤ℤ now +ℤ pos skew
    in_time h = omega int_laws

-- A signed request that passed has spent its pair.
passed-Held :
    (crypto : Crypto) (now : ℤ) (skew : ℕ) (require : Bool) (r : Request) (s : Signer) (ts : ℤ)
    (store : List Nonce)
    → is_signed r ≡ true
    → r.parsed ≡ some (finite ts)
    → (verify_integrity crypto now skew require r s store).0 ≡ none
    → Held skew s.principal r.nonce ts (verify_integrity crypto now skew require r s store).1
passed-Held crypto now skew require r s ts store signed parsed =
    rw (signed_check crypto now skew require r s store signed) (
      check_key-P (λ (v : Verdict). v.0 ≡ none → Held skew s.principal r.nonce ts v.1) crypto now
        skew r s s.key_reason store (λ reason e. cc)
        (λ t e past young passed.
          claimed-Held skew s.principal r.nonce now ts store
            (subst (λ u. is_future skew now u ≡ false) (some-injective _ _ (sym e ∙ parsed)) past)
            passed))

refused_again :
    (crypto : Crypto) (now : ℤ) (skew : ℕ) (require : Bool) (r : Request) (s : Signer) (ts : ℤ)
    (store : List Nonce)
    → is_signed r ≡ true
    → r.parsed ≡ some (finite ts)
    → Spent skew s.principal r.nonce ts now store
    → (verify_integrity crypto now skew require r s store).0 ≢ none
unfolding claim
refused_again crypto now skew require r s ts store signed parsed spent =
    rw (signed_check crypto now skew require r s store signed) (
      check_key-P (λ (v : Verdict). v.0 ≢ none) crypto now skew r s s.key_reason store
        (λ reason e. cc)
        (λ t e past young.
          refused spent (
            subst (λ u. is_expired skew now u ≡ false) (some-injective _ _ (sym e ∙ parsed))
              young)))
  where
    used_up :
        any (is_pair s.principal r.nonce) store ≡ true
        → (with_claim (claim s.principal r.nonce now store)).0 ≢ none
    used_up used = elim (Bool-cases (str_eq s.principal "" || str_eq r.nonce "")) [
      | inl empty ↦ rw empty (λ e. cc)
      | inr given ↦ rw (given, used) (λ e. cc)
    ]

    too_old : now -ℤ ts ≤ℤ pos skew → ts +ℤ pos skew <ℤ now → ⊥
    too_old h k = omega int_laws

    refused :
        Spent skew s.principal r.nonce ts now store
        → ltb_ℤ (pos skew) (now -ℤ ts) ≡ false
        → (with_claim (claim s.principal r.nonce now store)).0 ≢ none
    refused (inl (n, m, is, seen)) young = used_up (any-holds _ store n m is)
    refused (inr past) young = absurd (too_old (ltb_ℤ-false (pos skew) (now -ℤ ts) young) past)

-- A signed request that passes has a number for its time, when that is not NaN.
passed-finite :
    (crypto : Crypto) (now : ℤ) (skew : ℕ) (require : Bool) (r : Request) (s : Signer)
    (store : List Nonce)
    → is_signed r ≡ true
    → r.parsed ≢ some nan
    → (verify_integrity crypto now skew require r s store).0 ≡ none
    → (ts : ℤ) × (r.parsed ≡ some (finite ts))
passed-finite crypto now skew require r s store signed number =
    rw (signed_check crypto now skew require r s store signed) (
      check_key-P (λ (v : Verdict). v.0 ≡ none → (ts : ℤ) × (r.parsed ≡ some (finite ts))) crypto
        now skew r s s.key_reason store (λ reason e. cc)
        (λ t e past young passed. by_time t e past young))
  where
    by_time :
        (t : Timestamp)
        → r.parsed ≡ some t
        → is_future skew now t ≡ false
        → is_expired skew now t ≡ false
        → (ts : ℤ) × (r.parsed ≡ some (finite ts))
    by_time (finite ts) e past young = (ts, e)
    by_time infinite e past young = cc
    by_time minus_infinite e past young = cc
    by_time nan e past young = absurd (number e)

-- A signed request that has passed, its timestamp not being a text that Python's `float` reads as NaN,
-- never passes again, whatever other requests are checked in between and however often the stale nonces
-- are cleaned away, as long as the clock does not run back and nonces are kept for twice the clock skew
-- at least.
pub passed_once :
    (crypto : Crypto) (skew retention : ℕ) (r : Request) (s s' : Signer) (require require' : Bool)
    (from to : ℤ) (es : List Event) (store : List Nonce)
    → 2 * skew ≤ retention
    → is_signed r ≡ true
    → r.parsed ≢ some nan
    → s'.principal ≡ s.principal
    → InTime from es to
    → (verify_integrity crypto from skew require r s store).0 ≡ none
    → (verify_integrity crypto to skew require' r s' (
        happen_all crypto skew retention es
          (verify_integrity crypto from skew require r s store).1)).0
      ≢ none
passed_once crypto skew retention r s s' require require' from to es store long signed number same
      order passed =
    let (ts, parsed) = passed-finite crypto from skew require r s store signed number passed in
    refused_again crypto to skew require' r s' ts _ signed parsed (
      rw same (
        happen_all-Spent skew s.principal r.nonce ts crypto retention es from to _ long order
          (inl (passed-Held crypto from skew require r s ts store signed parsed passed))))
