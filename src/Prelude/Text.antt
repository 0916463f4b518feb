-- ===== src/Prelude/Text.antt =====
-- Python's text methods that the services call.
use Prim.Native.Nat.{ℕ}
use Prim.Native.Char.{Char, code}
use Prim.Native.String.{String}
use mathlib.Core.Bool.{Bool, true, false, ◌||◌, ◌&&◌}
use cheering_shop_backend.Prelude.Tests.{◌==◌, leb, if◌then◌else◌}

abbrev between : ℕ → ℕ → ℕ → Bool
between low high c = leb low c && leb c high

-- `str.isspace` of one character
pub is_space : Char → Bool
is_space c =
    between 0x9 0xd (code c)
    || between 0x1c 0x20 (code c)
    || code c == 0x85
    || code c == 0xa0
    || code c == 0x1680
    || between 0x2000 0x200a (code c)
    || between 0x2028 0x2029 (code c)
    || code c == 0x202f
    || code c == 0x205f
    || code c == 0x3000

abbrev pub is_empty : String → Bool
is_empty String.[] = true
is_empty (String.◌∷◌ c s) = false

pub strip_start : String → String
strip_start String.[] = String.[]
strip_start (String.◌∷◌ c s) =
    let rest = strip_start s in if is_space c then rest else String.◌∷◌ c s

pub strip_end : String → String
strip_end String.[] = String.[]
strip_end (String.◌∷◌ c s) =
    let rest = strip_end s in if is_space c && is_empty rest then String.[] else String.◌∷◌ c rest

-- `str.strip`
unfoldable pub strip : String → String
unfolding strip_start strip_end is_space
strip s = strip_end (strip_start s)

-- `if not s`
abbrev pub is_blank : String → Bool
is_blank s = is_empty (strip s)
