-- ===== src/Access/Replay.antt =====
-- addons/mezze_bridge/models/api_nonce.py and controllers/main.py: the nonces that the checks keep.
use menes_pos.Prelude.{
  ℕ, zero, suc, String, ◌≡◌, refl, sym, subst, ◌⊎◌, inl, inr, Bool, true, false, not, ◌&&◌, ◌||◌,
  Option, none, some, List, [], ◌∷◌, if◌then◌else◌, str_eq, Bool-cases, any, In, In-left, In-kept,
  ℤ, ltb_ℤ,
}
use menes_pos.Access.Integrity.{
  Crypto, Reason, invalid_signature, future_timestamp, expired_signature, Nonce, is_pair, claim,
  drop_stale, gc, Request, Signer, has, signatures_equal, expected_signature, with_claim,
  check_time, check_key, Timestamp, is_future, is_expired, verify_integrity,
}

abbrev pub Verdict : Type 0
Verdict = Option Reason × List Nonce

drop_stale-In :
    (before : ℤ) (left : ℕ) (store : List Nonce) (e : Nonce)
    → In e store
    → In e (drop_stale before left store) ⊎ (ltb_ℤ e.seen_at before ≡ true)
drop_stale-In before zero [] e m = absurd m
drop_stale-In before (suc left) [] e m = absurd m
drop_stale-In before zero (n ∷ ns) e (inl h) = inl (inl h)
drop_stale-In before zero (n ∷ ns) e (inr m) = elim (drop_stale-In before zero ns e m) [
  | inl k ↦ inl (inr k)
  | inr old ↦ inr old
]
drop_stale-In before (suc left) (n ∷ ns) e (inl h) = elim (Bool-cases (ltb_ℤ n.seen_at before)) [
  | inl old ↦ inr (subst (λ (v : Nonce). ltb_ℤ v.seen_at before ≡ true) (sym h) old)
  | inr young ↦ rw young (inl (inl h))
]
drop_stale-In before (suc left) (n ∷ ns) e (inr m) = elim (Bool-cases (ltb_ℤ n.seen_at before)) [
  | inl old ↦ rw old (drop_stale-In before left ns e m)
  | inr young ↦ rw young (further (drop_stale-In before (suc left) ns e m))
]
  where
    further :
        In e (drop_stale before (suc left) ns) ⊎ (ltb_ℤ e.seen_at before ≡ true)
        → In e (n ∷ drop_stale before (suc left) ns) ⊎ (ltb_ℤ e.seen_at before ≡ true)
    further (inl k) = inl (inr k)
    further (inr old) = inr old

pub gc-In :
    (before : ℤ) (limit : ℕ) (store : List Nonce) (e : Nonce)
    → In e store
    → In e (gc before limit store) ⊎ (ltb_ℤ e.seen_at before ≡ true)
unfolding gc
gc-In before zero store e m = elim (Bool-cases (ltb_ℤ e.seen_at before)) [
  | inl old ↦ inr old
  | inr young ↦
      inl (In-kept (λ (n : Nonce). not (ltb_ℤ n.seen_at before)) store e m (rw young refl))
]
gc-In before (suc limit) store e m = drop_stale-In before (suc limit) store e m

claim-In :
    (principal nonce : String) (now : ℤ) (store : List Nonce) (e : Nonce)
    → In e store
    → In e (claim principal nonce now store).1
unfolding claim
claim-In principal nonce now store e m =
    elim (Bool-cases (str_eq principal "" || str_eq nonce "")) [
      | inl empty ↦ rw empty m
      | inr given ↦ elim (Bool-cases (any (is_pair principal nonce) store)) [
        | inl used ↦ rw (given, used) m
        | inr new ↦ rw (given, new) (In-left store _ e m)
      ]
    ]

pub with_claim-store : (c : Bool × List Nonce) → (with_claim c).1 ≡ c.1
with_claim-store (true, store) = refl
with_claim-store (false, store) = refl

-- What holds of the answer that changes nothing and of the one that claims holds of every answer.
module _ (P : Verdict → Type 0) where
  pub if-P : (b : Bool) (x y : Verdict) → P x → P y → P (if b then x else y)
  if-P true x y h k = h
  if-P false x y h k = k

  pub check_time-P :
      (crypto : Crypto) (now : ℤ) (skew : ℕ) (r : Request) (s : Signer) (parsed : Option Timestamp)
      (store : List Nonce)
      → ((reason : Reason) → P (some reason, store))
      → ((ts : Timestamp)
          → parsed ≡ some ts
          → is_future skew now ts ≡ false
          → is_expired skew now ts ≡ false
          → P (with_claim (claim s.principal r.nonce now store)))
      → P (check_time crypto now skew r s parsed store)
  check_time-P crypto now skew r s none store no_change claimed = no_change invalid_signature
  check_time-P crypto now skew r s (some ts) store no_change claimed =
      elim (Bool-cases (is_future skew now ts)) [
        | inl future ↦ rw future (no_change future_timestamp)
        | inr past ↦ elim (Bool-cases (is_expired skew now ts)) [
          | inl old ↦ rw (past, old) (no_change expired_signature)
          | inr young ↦
              rw (past, young)
                (if-P (not (signatures_equal crypto (expected_signature crypto r s) r.signature)) _
                  _ (no_change invalid_signature) (claimed ts refl past young))
        ]
      ]

  pub check_key-P :
      (crypto : Crypto) (now : ℤ) (skew : ℕ) (r : Request) (s : Signer) (key : Option Reason)
      (store : List Nonce)
      → ((reason : Reason) → P (some reason, store))
      → ((ts : Timestamp)
          → r.parsed ≡ some ts
          → is_future skew now ts ≡ false
          → is_expired skew now ts ≡ false
          → P (with_claim (claim s.principal r.nonce now store)))
      → P (check_key crypto now skew r s key store)
  check_key-P crypto now skew r s (some reason) store no_change claimed = no_change reason
  check_key-P crypto now skew r s none store no_change claimed =
      if-P (not (has s.secret)) _ _ (no_change invalid_signature)
        (check_time-P crypto now skew r s r.parsed store no_change claimed)

-- Whatever the outcome of a check, no nonce is lost.
pub verify_integrity-In :
    (crypto : Crypto) (now : ℤ) (skew : ℕ) (require : Bool) (r : Request) (s : Signer)
    (store : List Nonce) (e : Nonce)
    → In e store
    → In e (verify_integrity crypto now skew require r s store).1
unfolding verify_integrity
verify_integrity-In crypto now skew require r s store e m = if-P P r.duplicate_headers _ _ m (
    if-P P (not (has r.timestamp || has r.nonce || has r.signature)) _ _ m (
      if-P P (not (has r.timestamp && has r.nonce && has r.signature)) _ _ m (
        check_key-P P crypto now skew r s s.key_reason store (λ reason. m)
          (λ ts e1 e2 e3.
            rw (with_claim-store (claim s.principal r.nonce now store))
              (claim-In s.principal r.nonce now store e m)))))
  where
    P : Verdict → Type 0
    P v = In e v.1
