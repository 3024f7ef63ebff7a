-- ===== src/Prelude/Texts.antt =====
-- Texts as their code points, and Python's `strip`.
use Prim.Native.Nat.{ℕ}
use Prim.Native.String.{String}
use Prim.Native.Char.{code}
use mathlib.Core.Bool.{Bool, ◌&&◌, ◌||◌}
use mathlib.Core.Option.{Option, none, some}
use mathlib.Core.List.{List, [], ◌∷◌}
use menes_pos.Prelude.Tests.{leb, ◌==◌, str_eq, if◌then◌else◌}
use menes_pos.Prelude.Lists.{all}

abbrev pub codes : String → List ℕ
codes String.[] = []
codes (String.◌∷◌ c s) = code c ∷ codes s

-- The code points that Python counts as white space.
abbrev pub is_space : ℕ → Bool
is_space c =
    (leb 9 c && leb c 13)
    || (leb 28 c && leb c 32)
    || c == 0x85
    || c == 0xa0
    || c == 0x1680
    || (leb 0x2000 c && leb c 0x200a)
    || c == 0x2028
    || c == 0x2029
    || c == 0x202f
    || c == 0x205f
    || c == 0x3000

-- `not text.strip()`
abbrev pub is_blank : String → Bool
is_blank s = all is_space (codes s)

-- A text that Python takes for true: there, and not empty.
abbrev pub or_absent : Option String → Option String
or_absent none = none
or_absent (some s) = if str_eq s "" then none else some s
