-- ===== src/Access/Rate.antt =====
-- addons/mezze_bridge/domain/rate_policy.py and models/rate_limit.py: the limits, and the counter of the
-- hits in a window.
use menes_pos.Prelude.{
  ℕ, suc, ◌+◌, ◌-◌, ◌/◌, ◌%◌, String, Bool, true, false, ◌&&◌, Option, none, some, List, [], ◌∷◌,
  leb, ◌==◌, if◌then◌else◌, str_eq, get, get_or, elem,
}

abbrev limits : List (String × (ℕ × ℕ))
limits =
    ("orders/refund", (10, 60))
    ∷ ("orders/comp", (10, 60))
    ∷ ("orders/void", (10, 60))
    ∷ ("drawer/open", (20, 60))
    ∷ ("reports/refunds.csv", (5, 300))
    ∷ ("gl/export.csv", (5, 300))
    ∷ ("breakglass", (3, 300))
    ∷ ("auth_fail", (30, 60))
    ∷ []

abbrev rate_limited_endpoints : List String
rate_limited_endpoints =
    "orders/refund" ∷ "orders/comp" ∷ "orders/void" ∷ "drawer/open" ∷ "reports/refunds.csv"
    ∷ "gl/export.csv" ∷ []

unfoldable pub limit_for : String → Option (ℕ × ℕ)
limit_for op = get limits op

unfoldable pub is_rate_limited : String → Bool
is_rate_limited endpoint = elem endpoint rate_limited_endpoints

-- One counter for a key and a window.
pub record Counter : Type 0 where
  pub key : String
  pub window_start : ℕ
  pub count : ℕ

abbrev pub is_counter : String → ℕ → Counter → Bool
is_counter key window c = str_eq c.key key && c.window_start == window

-- The upsert: the count it returns, and the counters.
abbrev pub add_hit : String → ℕ → List Counter → ℕ × List Counter
add_hit key window [] = (1, record { key = key; window_start = window; count = 1 } ∷ [])
add_hit key window (c ∷ cs) =
    let rest = add_hit key window cs in
    if is_counter key window c
    then (suc c.count, record c { count = suc c.count } ∷ cs)
    else (rest.0, c ∷ rest.1)

abbrev pub window_of : ℕ → ℕ → ℕ
window_of now seconds = now - now % seconds

-- What a limit does while the shared counters cannot be reached.
pub data FailMode : Type 0 where
  fail_closed degraded fail_open : FailMode

abbrev failure_modes : List (String × FailMode)
failure_modes =
    ("orders/refund", fail_closed)
    ∷ ("orders/comp", fail_closed)
    ∷ ("orders/void", fail_closed)
    ∷ ("drawer/open", fail_closed)
    ∷ ("reports/refunds.csv", fail_closed)
    ∷ ("gl/export.csv", fail_closed)
    ∷ ("breakglass", fail_closed)
    ∷ ("auth_fail", degraded)
    ∷ []

unfoldable pub failure_mode : String → FailMode
failure_mode op = get_or failure_modes op fail_closed

-- The shared counters, and the process's own: one for a key.
pub record Limiter : Type 0 where
  pub counters : List Counter
  pub local : List Counter

-- The count is missing where the limiter is unavailable.
pub record Hit : Type 0 where
  pub is_allowed : Bool
  pub retry_after : ℕ
  pub count : Option ℕ

-- The count of a key in the process's own counters, which start again with a new window.
abbrev pub add_local : String → ℕ → List Counter → ℕ × List Counter
add_local key window [] = (1, record { key = key; window_start = window; count = 1 } ∷ [])
add_local key window (c ∷ cs) =
    let rest = add_local key window cs in
    let old = if c.window_start == window then c.count else 0 in
    if str_eq c.key key
    then (suc old, record { key = key; window_start = window; count = suc old } ∷ cs)
    else (rest.0, c ∷ rest.1)

-- Half of the limit, and 1 at least.
abbrev ceiling : ℕ → ℕ
ceiling limit = if limit / 2 == 0 then 1 else limit / 2

abbrev pub on_unavailable : FailMode → String → ℕ → ℕ → ℕ → Limiter → Hit × Limiter
on_unavailable fail_open key limit window retry l =
    (record { is_allowed = true; retry_after = 0; count = none }, l)
on_unavailable degraded key limit window retry l =
    let (count, next) = add_local key window l.local in
    (
      record { is_allowed = leb count (ceiling limit); retry_after = retry; count = none },
      record l { local = next },
    )
on_unavailable fail_closed key limit window retry l =
    (record { is_allowed = false; retry_after = retry; count = none }, l)

abbrev pub on_available : String → ℕ → ℕ → ℕ → Limiter → Hit × Limiter
on_available key limit window retry l =
    let (count, next) = add_hit key window l.counters in
    (
      record {
        is_allowed = leb count limit;
        retry_after = if leb count limit then 0 else retry;
        count = some count;
      },
      record l { counters = next },
    )

-- `is_down`: all tries of the upsert failed.
unfoldable pub hit : Bool → FailMode → String → ℕ → ℕ → ℕ → Limiter → Hit × Limiter
hit is_down fail_mode key limit seconds now l =
    let window = window_of now seconds in
    let retry = window + seconds - now in
    if is_down
    then on_unavailable fail_mode key limit window retry l
    else on_available key limit window retry l
