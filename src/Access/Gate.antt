-- ===== src/Access/Gate.antt =====
-- addons/mezze_bridge/controllers/main.py: `_security_gate`. Who calls is resolved by
-- `_resolve_principal`, which is an argument; the audit lines are not modelled. A mode that is neither
-- `off` nor `enforce` observes.
use menes_pos.Prelude.{
  ℕ, String, Bool, true, false, not, Option, none, some, List, if◌then◌else◌, elem, pos,
}
use menes_pos.Access.Signing.{Handling, off, enforce, mode_for, effective}
use menes_pos.Access.Rate.{limit_for, is_rate_limited, failure_mode, Limiter, Hit, hit}
use menes_pos.Access.Authz.{ScopeReason, scope_ok, check_scope}
use menes_pos.Access.Routes.{capability_of, signature_required}
use menes_pos.Access.Integrity.{Crypto, Reason, Nonce, Request, Signer, verify_integrity}

-- What `_resolve_principal` answers.
pub record Context : Type 0 where
  pub is_ok : Bool
  pub signer : Signer
  pub is_admin : Bool
  pub company : Option ℕ
  pub branch : Option ℕ
  pub permissions : List String
  pub limit_key : String

pub data GateMode : Type 0 where
  gate_off gate_observe gate_enforce : GateMode

pub data Denial : Type 0 where
  not_authenticated permission_denied : Denial
  out_of_scope : ScopeReason → Denial
  bad_signature : Reason → Denial
  rate_limited rate_limiter_unavailable : ℕ → Denial

pub data Answer : Type 0 where
  proceed : Answer
  reject : Denial → Answer

-- The company and the branch of the record that is asked for, if one is.
abbrev pub Target : Type 0
Target = Option (Option ℕ × Option ℕ)

abbrev pub lacks : Option String → List String → Bool
lacks none permissions = false
lacks (some cap) permissions = not (elem cap permissions)

abbrev pub scope_of : Context → Target → ScopeReason
scope_of ctx none = scope_ok
scope_of ctx (some (company, branch)) =
    check_scope ctx.company ctx.branch company branch ctx.is_admin ctx.is_admin

abbrev pub out_of : ScopeReason → Option Denial
out_of scope_ok = none
out_of reason = some (out_of_scope reason)

-- The capability, then the scope.
abbrev pub authorise : Context → String → Target → Option Denial
authorise ctx endpoint target =
    if lacks (capability_of endpoint) ctx.permissions
    then some permission_denied
    else out_of (scope_of ctx target)

-- What of a signature's failure counts: nothing unless it is enforced.
abbrev pub signature_denial : Handling → Option Reason → Option Denial
signature_denial enforce (some reason) = some (bad_signature reason)
signature_denial _ _ = none

abbrev pub is_enforce : Handling → Bool
is_enforce enforce = true
is_enforce _ = false

-- The stores that a gate changes.
pub record Stores : Type 0 where
  pub nonces : List Nonce
  pub limiter : Limiter

-- The request with the settings that the gate reads.
pub record Call : Type 0 where
  pub endpoint : String
  pub target : Target
  pub request : Request
  pub require_signature : Bool
  pub own_mode : Option String
  pub general_mode : Option String
  pub skew : ℕ
  pub now : ℕ
  pub limiter_down : Bool

abbrev pub handling_of : Call → Handling
handling_of c =
    if c.require_signature
    then enforce
    else effective (mode_for c.own_mode c.general_mode) c.endpoint signature_required

abbrev pub check_signature_in : Handling → Crypto → Context → Call → Stores → Option Denial × Stores
check_signature_in off crypto ctx c st = (none, st)
check_signature_in h crypto ctx c st =
    let (reason, nonces) =
      verify_integrity crypto (pos c.now) c.skew (is_enforce h) c.request ctx.signer st.nonces in
    (signature_denial h reason, record st { nonces = nonces })

abbrev pub check_signature : Crypto → Context → Call → Stores → Option Denial × Stores
check_signature crypto ctx c st = check_signature_in (handling_of c) crypto ctx c st

-- A denial stops the request where the gate enforces.
abbrev pub stop : GateMode → Denial → Stores → Answer × Stores
stop gate_enforce d st = (reject d, st)
stop _ d st = (proceed, st)

-- The denial of a hit: its count is missing where the limiter was unavailable.
abbrev pub denial_of : Option ℕ → ℕ → Denial
denial_of none retry = rate_limiter_unavailable retry
denial_of (some count) retry = rate_limited retry

abbrev pub limited : GateMode → Hit × Limiter → Stores → Answer × Stores
limited mode (h, l) st =
    if h.is_allowed
    then (proceed, record st { limiter = l })
    else stop mode (denial_of h.count h.retry_after) (record st { limiter = l })

abbrev pub check_limit : GateMode → Context → Call → Stores → Option (ℕ × ℕ) → Answer × Stores
check_limit mode ctx c st none = (proceed, st)
check_limit mode ctx c st (some (limit, seconds)) =
    limited mode
      (hit c.limiter_down (failure_mode c.endpoint) ctx.limit_key limit seconds c.now st.limiter) st

abbrev pub check_rate : GateMode → Context → Call → Stores → Answer × Stores
check_rate mode ctx c st =
    if is_rate_limited c.endpoint
    then check_limit mode ctx c st (limit_for c.endpoint)
    else (proceed, st)

abbrev pub after_signature : GateMode → Context → Call → Option Denial × Stores → Answer × Stores
after_signature mode ctx c (some d, st) = stop mode d st
after_signature mode ctx c (none, st) = check_rate mode ctx c st

abbrev pub after_authorise :
    GateMode → Crypto → Context → Call → Stores → Option Denial → Answer × Stores
after_authorise mode crypto ctx c st (some d) = stop mode d st
after_authorise mode crypto ctx c st none =
    after_signature mode ctx c (check_signature crypto ctx c st)

abbrev pub gate_in : GateMode → Crypto → Context → Call → Stores → Answer × Stores
gate_in gate_off crypto ctx c st = (proceed, st)
gate_in mode crypto ctx c st =
    if not ctx.is_ok
    then (reject not_authenticated, st)
    else after_authorise mode crypto ctx c st (authorise ctx c.endpoint c.target)

-- A principal that is not resolved stands for an exception in the gate, which lets the request through.
unfoldable pub security_gate : GateMode → Crypto → Option Context → Call → Stores → Answer × Stores
security_gate gate_off crypto who c st = (proceed, st)
security_gate mode crypto none c st = (proceed, st)
security_gate mode crypto (some ctx) c st = gate_in mode crypto ctx c st
