-- ===== src/Access/Signing.antt =====
-- addons/mezze_bridge/domain/signing_policy.py: how a request's signature is handled.
use menes_pos.Prelude.{String, Bool, true, false, Option, none, some, List, [], ◌∷◌, get, elem}

pub data Handling : Type 0 where
  off observe enforce : Handling

abbrev mode_of : String → Option Handling
mode_of text = get (("off", off) ∷ ("observe", observe) ∷ ("enforce", enforce) ∷ []) text

abbrev or_mode : Option Handling → Handling → Handling
or_mode none d = d
or_mode (some m) d = m

abbrev named : Option String → Option Handling
named none = none
named (some text) = mode_of text

-- `mode_for`, of the parameter of the principal's type and the general one.
unfoldable pub mode_for : Option String → Option String → Handling
mode_for own general = or_mode (named own) (or_mode (named general) observe)

abbrev effective_in : Handling → Bool → Handling
effective_in off sensitive = off
effective_in m true = m
effective_in enforce false = enforce
effective_in observe false = off

unfoldable pub effective : Handling → String → List String → Handling
effective mode endpoint sig_required = effective_in mode (elem endpoint sig_required)
