-- ===== src/Base/Text.antt =====
-- Rust's `str` as a list of code points, and the `str` methods that the sources call.
use Prim.Native.Char.{code}
use Prim.Native.String.{String}
use mathlib.Core.List.{reverse}
use Prim.Native.Nat.{ℕ}
use mathlib.Core.Bool.{Bool, false, ◌&&◌, ◌||◌}
use mathlib.Core.Option.{Option, none, some}
use mathlib.Core.List.{List, [], ◌∷◌}
use ws_usb_linux.Base.Tests.{◌==◌, leb, if◌then◌else◌}

abbrev pub Text : Type 0
Text = List ℕ

-- The code points of a literal.
abbrev pub codes : String → Text
codes String.[] = []
codes (String.◌∷◌ c s) = code c ∷ codes s

-- `char::is_whitespace`: the code points with the property White_Space.
unfoldable pub is_whitespace : ℕ → Bool
is_whitespace c =
    (leb 9 c && leb c 13)
    || c == 0x20
    || c == 0x85
    || c == 0xa0
    || c == 0x1680
    || (leb 0x2000 c && leb c 0x200a)
    || c == 0x2028
    || c == 0x2029
    || c == 0x202f
    || c == 0x205f
    || c == 0x3000

unfoldable pub trim_start : Text → Text
trim_start [] = []
trim_start (c ∷ s) = if is_whitespace c then trim_start s else c ∷ s

-- `str::trim`
unfoldable pub trim : Text → Text
trim s = reverse (trim_start (reverse (trim_start s)))

-- `str::strip_prefix`
unfoldable pub strip_prefix : Text → Text → Option Text
strip_prefix [] s = some s
strip_prefix (p ∷ ps) [] = none
strip_prefix (p ∷ ps) (c ∷ s) = if p == c then strip_prefix ps s else none

-- `str::split_once` with a test for the separator.
unfoldable pub split_once : (ℕ → Bool) → Text → Option (Text × Text)
split_once sep [] = none
split_once sep (c ∷ s) =
    if sep c
    then some ([], s)
    else elim (split_once sep s) [ none ↦ none | some (a, b) ↦ some (c ∷ a, b) ]

unfoldable pub next_is_newline : Text → Bool
next_is_newline [] = false
next_is_newline (c ∷ s) = c == b'\n'

-- Puts a character in front of the first line.
unfoldable pub onto_first : ℕ → List Text → List Text
onto_first c [] = (c ∷ []) ∷ []
onto_first c (l ∷ ls) = (c ∷ l) ∷ ls

-- `str::lines`: a line ends at a newline, and a carriage return before the newline belongs to the
-- ending. What follows the last newline is a line only if it is not empty.
unfoldable pub lines : Text → List Text
unfolding next_is_newline onto_first
lines [] = []
lines (c ∷ s) =
    let rest = lines s in
    if c == b'\n'
    then [] ∷ rest
    else if c == b'\r' && next_is_newline s
    then rest
    else onto_first c rest
