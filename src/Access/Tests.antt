-- ===== src/Access/Tests.antt =====
-- Runs of the gate, of the check of a signature and of the counter.
use menes_pos.Prelude.{
  ◌-◌, ◌≡◌, refl, ◌≢◌, true, false, none, some, List, [], ◌∷◌, arith, str_eq, pos, ◌-ℤ◌,
}
use menes_pos.Access.Routes.{capability_of}
use menes_pos.Access.Authz.{check_scope}
use menes_pos.Access.Integrity.{
  finite, nan, gc, claim, signatures_equal, Crypto, Request, Signer, verify_integrity,
}
use menes_pos.Access.Once.{Event, checked, cleaned, happen, happen_all, passed_once}
use menes_pos.Access.Gate.{Context, Stores, Call, security_gate}
use menes_pos.Access.Rate.{Limiter, hit, limit_for, is_rate_limited}
use menes_pos.Access.Enforce.{Cleared, security_gate-Cleared}
use menes_pos.Access.Hits.{count_of, lesser, allowed, allowed_within}

-- A stand-in whose signature is the secret.
abbrev toy : Crypto
toy = record {
  sha256 = λ s. s;
  hmac = λ secret text. secret;
  compare_digest = str_eq;
  upper = λ s. s;
}

abbrev request : Request
request = record {
  method = "POST";
  path = "/mezze/orders/refund";
  body = "{}";
  timestamp = "1000";
  parsed = some (finite (pos 1000));
  nonce = "n-1";
  signature = "s3cret";
  key_id = "";
  duplicate_headers = false;
}

abbrev terminal : Signer
terminal = record { principal = "terminal:4"; kid = "k1"; key_reason = none; secret = "s3cret" }

abbrev in_between : List Event
in_between =
    cleaned (pos 1100) 0 ∷ checked (pos 1150) request terminal true ∷ cleaned (pos 1200) 10 ∷ []

passed_once_example :
    (verify_integrity toy (pos 1250) 300 true request terminal (
      happen_all toy 300 3600 in_between
        (verify_integrity toy (pos 1000) 300 true request terminal []).1)).0
    ≢ none
unfolding verify_integrity ◌-ℤ◌ signatures_equal claim
passed_once_example =
    passed_once toy 300 3600 request terminal terminal true true (pos 1000) (pos 1250) in_between []
      (omega arith) refl (λ e. cc) refl (omega arith, (omega arith, (omega arith, omega arith)))
      refl

-- With NaN for its time the same request passes again once its nonce is cleaned away.
nan_passes_again :
    (verify_integrity toy
      (pos 9000)
      300
      true
      (record request { parsed = some nan })
      terminal
      (happen_all toy 300 3600
        (cleaned (pos 8000) 0 ∷ [])
        (verify_integrity toy
          (pos 1000)
          300
          true
          (record request { parsed = some nan })
          terminal
          []).1)).0
    ≡ none
unfolding verify_integrity ◌-ℤ◌ signatures_equal claim happen_all happen gc
nan_passes_again = refl

abbrev manager : Context
manager = record {
  is_ok = true;
  signer = terminal;
  is_admin = false;
  company = some 1;
  branch = some 2;
  permissions = "orders.refund" ∷ [];
  limit_key = "orders/refund|terminal:4";
}

abbrev refund_call : Call
refund_call = record {
  endpoint = "orders/refund";
  target = some (some 1, some 2);
  request = request;
  require_signature = true;
  own_mode = some "enforce";
  general_mode = none;
  skew = 300;
  now = 1000;
  limiter_down = false;
}

abbrev empty_stores : Stores
empty_stores = record { nonces = []; limiter = record { counters = []; local = [] } }

security_gate-Cleared_example : Cleared toy manager refund_call empty_stores
unfolding security_gate capability_of check_scope verify_integrity ◌-ℤ◌ signatures_equal claim
    is_rate_limited limit_for hit
security_gate-Cleared_example = security_gate-Cleared toy manager refund_call empty_stores refl

abbrev counters : Limiter
counters = record {
  counters = record { key = "k"; window_start = 960; count = 8 } ∷ [];
  local = [];
}

allowed_within_example :
    allowed "k" 10 60 (970 ∷ 980 ∷ 990 ∷ []) counters
    ≡ lesser 3 (10 - count_of "k" 960 counters.counters)
allowed_within_example =
    allowed_within "k" 10 60 960 (970 ∷ 980 ∷ 990 ∷ []) counters (refl, (refl, (refl, tt)))
