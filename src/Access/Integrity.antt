-- ===== src/Access/Integrity.antt =====
-- addons/mezze_bridge/domain/authz.py, domain/signing_policy.py, models/api_nonce.py and
-- controllers/main.py: the signature of a request, its time and its single-use nonce. Times are whole
-- numbers of one unit.
use menes_pos.Prelude.{
  ℕ, zero, suc, String, Bool, true, false, not, ◌&&◌, ◌||◌, Option, none, some, List, [], ◌∷◌, ◌++◌,
  if◌then◌else◌, str_eq, any, keep, ℤ, pos, ◌-ℤ◌, ltb_ℤ,
}
use Prim.Native.String.{◌++◌ as ◌+++◌}

-- Hashing, Python's `upper` and the comparison of digests are not this program's.
pub record Crypto : Type 0 where
  pub sha256 : String → String
  pub hmac : String → String → String
  pub compare_digest : String → String → Bool
  pub upper : String → String

pub data Reason : Type 0 where
  signature_missing invalid_signature future_timestamp expired_signature : Reason
  unknown_key revoked_key replayed_request : Reason

-- ## The nonces: models/api_nonce.py

pub record Nonce : Type 0 where
  pub principal : String
  pub nonce : String
  pub seen_at : ℤ

abbrev pub is_pair : String → String → Nonce → Bool
is_pair principal nonce n = str_eq n.principal principal && str_eq n.nonce nonce

-- `claim`: whether it is the first use, and the store.
unfoldable pub claim : String → String → ℤ → List Nonce → Bool × List Nonce
claim principal nonce now store =
    if str_eq principal "" || str_eq nonce ""
    then (false, store)
    else if any (is_pair principal nonce) store
    then (false, store)
    else (true, store ++ record { principal = principal; nonce = nonce; seen_at = now } ∷ [])

-- `gc`: so many stale ones go, the first of them; all of them where the limit is 0.
abbrev pub drop_stale : ℤ → ℕ → List Nonce → List Nonce
drop_stale before left [] = []
drop_stale before zero (n ∷ ns) = n ∷ drop_stale before zero ns
drop_stale before (suc left) (n ∷ ns) =
    let dropped = drop_stale before left ns in
    let kept = drop_stale before (suc left) ns in
    if ltb_ℤ n.seen_at before then dropped else n ∷ kept

unfoldable pub gc : ℤ → ℕ → List Nonce → List Nonce
gc before zero store = keep (λ (n : Nonce). not (ltb_ℤ n.seen_at before)) store
gc before (suc limit) store = drop_stale before (suc limit) store

abbrev pub cron_gc : ℤ → ℕ → ℕ → List Nonce → List Nonce
cron_gc now retention limit store = gc (now -ℤ pos retention) limit store

-- ## The canonical string: domain/signing_policy.py

abbrev pub join : String → List String → String
join sep [] = ""
join sep (s ∷ []) = s
join sep (s ∷ t ∷ rest) = s +++ (sep +++ join sep (t ∷ rest))

unfoldable pub canonical_string :
    Crypto → String → String → String → String → String → String → String → String → String
canonical_string crypto method path body_sha256 timestamp nonce principal kid version =
    join "\n" (
      version ∷ kid ∷ principal ∷ crypto.upper method ∷ path ∷ body_sha256 ∷ timestamp ∷ nonce ∷ [])

-- ## _verify_integrity: controllers/main.py

-- What Python's `float` reads: a number, or one of the texts for an infinity or for no number.
pub data Timestamp : Type 0 where
  finite : ℤ → Timestamp
  infinite minus_infinite nan : Timestamp

-- `ts_i - now > skew` and `now - ts_i > skew`; no comparison with NaN holds.
abbrev pub is_future : ℕ → ℤ → Timestamp → Bool
is_future skew now (finite ts) = ltb_ℤ (pos skew) (ts -ℤ now)
is_future skew now infinite = true
is_future skew now _ = false

abbrev pub is_expired : ℕ → ℤ → Timestamp → Bool
is_expired skew now (finite ts) = ltb_ℤ (pos skew) (now -ℤ ts)
is_expired skew now minus_infinite = true
is_expired skew now _ = false

-- The headers are empty where they are missing; `parsed` is what `float` makes of the timestamp, none
-- where it raises.
pub record Request : Type 0 where
  pub method : String
  pub path : String
  pub body : String
  pub timestamp : String
  pub parsed : Option Timestamp
  pub nonce : String
  pub signature : String
  pub key_id : String
  pub duplicate_headers : Bool

-- What of the principal the check reads.
pub record Signer : Type 0 where
  pub principal : String
  pub kid : String
  pub key_reason : Option Reason
  pub secret : String

abbrev pub has : String → Bool
has s = not (str_eq s "")

abbrev kid_of : Request → Signer → String
kid_of r s = if has r.key_id then r.key_id else s.kid

-- `authz.signatures_equal`
unfoldable pub signatures_equal : Crypto → String → String → Bool
signatures_equal crypto expected provided =
    if not (has expected) || not (has provided)
    then false
    else crypto.compare_digest expected provided

abbrev pub expected_signature : Crypto → Request → Signer → String
expected_signature crypto r s = crypto.hmac s.secret (
    canonical_string crypto r.method r.path (crypto.sha256 r.body) r.timestamp r.nonce s.principal
      (kid_of r s) "v1")

abbrev pub with_claim : Bool × List Nonce → Option Reason × List Nonce
with_claim (true, store) = (none, store)
with_claim (false, store) = (some replayed_request, store)

abbrev pub check_time :
    Crypto → ℤ → ℕ → Request → Signer → Option Timestamp → List Nonce → Option Reason × List Nonce
check_time crypto now skew r s none store = (some invalid_signature, store)
check_time crypto now skew r s (some ts) store =
    if is_future skew now ts
    then (some future_timestamp, store)
    else if is_expired skew now ts
    then (some expired_signature, store)
    else if not (signatures_equal crypto (expected_signature crypto r s) r.signature)
    then (some invalid_signature, store)
    else with_claim (claim s.principal r.nonce now store)

abbrev pub check_key :
    Crypto → ℤ → ℕ → Request → Signer → Option Reason → List Nonce → Option Reason × List Nonce
check_key crypto now skew r s (some reason) store = (some reason, store)
check_key crypto now skew r s none store =
    if not (has s.secret)
    then (some invalid_signature, store)
    else check_time crypto now skew r s r.parsed store

-- The first check of a request; a later one in the same request answers as this one did if it passed.
unfoldable pub verify_integrity :
    Crypto → ℤ → ℕ → Bool → Request → Signer → List Nonce → Option Reason × List Nonce
verify_integrity crypto now skew require_signature r s store =
    let t = has r.timestamp in
    let n = has r.nonce in
    let g = has r.signature in
    if r.duplicate_headers
    then (some invalid_signature, store)
    else if not (t || n || g)
    then (if require_signature then some signature_missing else none, store)
    else if not (t && n && g)
    then (if require_signature then some signature_missing else some invalid_signature, store)
    else check_key crypto now skew r s s.key_reason store
