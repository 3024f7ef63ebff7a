-- ===== src/Access/Enforce.antt =====
-- addons/mezze_bridge/controllers/main.py: what a request that the enforcing gate lets through has shown,
-- and the counter of models/rate_limit.py.
use menes_pos.Prelude.{
  ℕ, ◌≡◌, refl, ◌≢◌, ◌↔◌, inl, inr, Bool, true, false, not, Option, none, some, List, arith,
  if◌then◌else◌, Bool-cases, pos,
}
use menes_pos.Access.Authz.{ScopeReason, scope_ok}
use menes_pos.Access.Routes.{capability_of}
use menes_pos.Access.Integrity.{Crypto, Reason, Nonce, verify_integrity}
use menes_pos.Access.Gate.{
  Context, gate_observe, gate_enforce, Denial, not_authenticated, permission_denied, proceed,
  reject, lacks, scope_of, out_of, authorise, signature_denial, Stores, Call, handling_of,
  check_signature_in, check_signature, limited, check_limit, check_rate, after_signature,
  after_authorise, security_gate,
}
use menes_pos.Access.Rate.{failure_mode, Hit, Limiter, is_rate_limited, limit_for, hit}
use menes_pos.Access.Signing.{Handling, off, observe, enforce}

-- What the request has shown.
pub record Cleared (crypto : Crypto) (ctx : Context) (c : Call) (st : Stores) : Type 0 where
  pub authenticated : ctx.is_ok ≡ true
  pub capable : lacks (capability_of c.endpoint) ctx.permissions ≡ false
  pub in_scope : scope_of ctx c.target ≡ scope_ok
  pub signed :
      handling_of c ≡ enforce
      → (verify_integrity crypto (pos c.now) c.skew true c.request ctx.signer st.nonces).0 ≡ none

rejected : (d : Denial) → reject d ≢ proceed
rejected d e = cc

signature_cleared :
    (crypto : Crypto) (ctx : Context) (c : Call) (st : Stores) (h : Handling)
    → (after_signature gate_enforce ctx c (check_signature_in h crypto ctx c st)).0 ≡ proceed
    → h ≡ enforce
    → (verify_integrity crypto (pos c.now) c.skew true c.request ctx.signer st.nonces).0 ≡ none
signature_cleared crypto ctx c st off e h = cc
signature_cleared crypto ctx c st observe e h = cc
signature_cleared crypto ctx c st enforce e h =
    from (verify_integrity crypto (pos c.now) c.skew true c.request ctx.signer st.nonces) e
  where
    from :
        (v : Option Reason × List Nonce)
        → (after_signature gate_enforce ctx c
            (signature_denial enforce v.0, record st { nonces = v.1 })).0
          ≡ proceed
        → v.0 ≡ none
    from (none, nonces) e = refl
    from (some reason, nonces) e = cc

out_of-scope : (s : ScopeReason) → out_of s ≡ none → s ≡ scope_ok
out_of-scope s e = ground arith

authorised :
    (ctx : Context) (c : Call)
    → authorise ctx c.endpoint c.target ≡ none
    → (lacks (capability_of c.endpoint) ctx.permissions ≡ false)
      × (scope_of ctx c.target ≡ scope_ok)
authorised ctx c e = from (lacks (capability_of c.endpoint) ctx.permissions) e
  where
    from :
        (b : Bool)
        → (if b then some permission_denied else out_of (scope_of ctx c.target)) ≡ none
        → (b ≡ false) × (scope_of ctx c.target ≡ scope_ok)
    from true e = cc
    from false e = (refl, out_of-scope _ e)

-- A request that the enforcing gate lets through, its principal being resolved, is of an authenticated
-- principal that holds the endpoint's capability, is about a record in the principal's scope, and passed
-- the check of its signature where the endpoint's signature is enforced.
pub security_gate-Cleared :
    (crypto : Crypto) (ctx : Context) (c : Call) (st : Stores)
    → (security_gate gate_enforce crypto (some ctx) c st).0 ≡ proceed
    → Cleared crypto ctx c st
unfolding security_gate
security_gate-Cleared crypto ctx c st e = authentic ctx.is_ok refl e
  where
    cleared :
        ctx.is_ok ≡ true
        → (d : Option Denial) → authorise ctx c.endpoint c.target ≡ d
        → (after_authorise gate_enforce crypto ctx c st d).0 ≡ proceed
        → Cleared crypto ctx c st
    cleared known (some d) is e = absurd (rejected d e)
    cleared known none is e =
        let (capable, in_scope) = authorised ctx c is in
        record {
          authenticated = known;
          capable = capable;
          in_scope = in_scope;
          signed = signature_cleared crypto ctx c st (handling_of c) e;
        }

    authentic :
        (b : Bool)
        → ctx.is_ok ≡ b
        → (if not b
            then (reject not_authenticated, st)
            else after_authorise gate_enforce crypto ctx c st (authorise ctx c.endpoint c.target)).0
          ≡ proceed
        → Cleared crypto ctx c st
    authentic false is e = absurd (rejected not_authenticated e)
    authentic true is e = cleared is _ refl e

check_rate-observe :
    (ctx : Context) (c : Call) (st : Stores) → (check_rate gate_observe ctx c st).0 ≡ proceed
check_rate-observe ctx c st = whether (is_rate_limited c.endpoint)
  where
    counted : (r : Hit × Limiter) → (limited gate_observe r st).0 ≡ proceed
    counted (h, l) = elim (Bool-cases h.is_allowed) [
      | inl fine ↦ rw fine refl
      | inr too_many ↦ rw too_many refl
    ]

    limit : (l : Option (ℕ × ℕ)) → (check_limit gate_observe ctx c st l).0 ≡ proceed
    limit none = refl
    limit (some (n, seconds)) =
        counted
          (hit c.limiter_down (failure_mode c.endpoint) ctx.limit_key n seconds c.now st.limiter)

    whether :
        (b : Bool)
        → (if b then check_limit gate_observe ctx c st (limit_for c.endpoint) else (proceed, st)).0
          ≡ proceed
    whether true = limit _
    whether false = refl

after_authorise-observe :
    (crypto : Crypto) (ctx : Context) (c : Call) (st : Stores) (d : Option Denial)
    → (after_authorise gate_observe crypto ctx c st d).0 ≡ proceed
after_authorise-observe crypto ctx c st (some d) = refl
after_authorise-observe crypto ctx c st none = signature (check_signature crypto ctx c st)
  where
    signature : (r : Option Denial × Stores) → (after_signature gate_observe ctx c r).0 ≡ proceed
    signature (some d, after) = refl
    signature (none, after) = check_rate-observe ctx c after

-- A principal that is not authenticated is stopped when the gate only observes, too.
pub security_gate-observe :
    (crypto : Crypto) (ctx : Context) (c : Call) (st : Stores)
    → ((security_gate gate_observe crypto (some ctx) c st).0 ≡ proceed) ↔ (ctx.is_ok ≡ true)
unfolding security_gate
security_gate-observe crypto ctx c st = from ctx.is_ok
  where
    from :
        (b : Bool)
        → ((if not b
              then (reject not_authenticated, st)
              else after_authorise gate_observe crypto ctx c st
                  (authorise ctx c.endpoint c.target)).0
            ≡ proceed)
          ↔ (b ≡ true)
    from true = ((λ e. refl), (λ e. after_authorise-observe crypto ctx c st _))
    from false = ((λ e. absurd (rejected not_authenticated e)), (λ e. cc))
