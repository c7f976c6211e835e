-- ===== src/Base/Lines.antt =====
-- `str::lines` over texts that are put together line by line, and `split_once` at a known place.
use Prim.Native.Nat.{ℕ}
use mathlib.Core.Path.{◌≡◌, refl}
use mathlib.Core.Bool.{Bool, true, false}
use mathlib.Core.Option.{some, none}
use mathlib.Core.List.{List, [], ◌∷◌, ◌++◌}
use native.Mathlib.Omega.{arith}
use ws_usb_linux.Base.Tests.{◌==◌}
use ws_usb_linux.Base.Lists.{All}
use ws_usb_linux.Base.Text.{Text, lines, onto_first, split_once}

-- A text is empty or ends with a newline.
abbrev pub Ended : Text → Type 0
Ended [] = Unit
Ended (c ∷ []) = (c == b'\n') ≡ true
Ended (c ∷ d ∷ s) = Ended (d ∷ s)

-- A character that can stand inside a line.
abbrev pub IsInline : ℕ → Type 0
IsInline c = ((c == b'\n') ≡ false) × ((c == b'\r') ≡ false)

abbrev NonEmpty : List Text → Type 0
NonEmpty [] = ⊥
NonEmpty (l ∷ ls) = Unit

lines-NonEmpty : (c : ℕ) (s : Text) → Ended (c ∷ s) → NonEmpty (lines (c ∷ s))
unfolding lines
lines-NonEmpty c [] h = ground arith
lines-NonEmpty c (d ∷ s) h = ground (arith, lines-NonEmpty d s h)

onto_first-append :
    (c : ℕ) (ls ms : List Text) → NonEmpty ls → onto_first c (ls ++ ms) ≡ onto_first c ls ++ ms
unfolding onto_first
onto_first-append c [] ms h = absurd h
onto_first-append c (l ∷ ls) ms h = refl

-- Reading lines can stop and go on behind a newline.
pub lines-append : (s t : Text) → Ended s → lines (s ++ t) ≡ lines s ++ lines t
unfolding lines
lines-append [] t h = refl
lines-append (c ∷ []) t h = rw h refl
lines-append (c ∷ d ∷ s) t h = ground (
  arith,
  lines-append (d ∷ s) t h,
  onto_first-append c (lines (d ∷ s)) (lines t) (lines-NonEmpty d s h),
)

-- One line with its ending.
pub lines_line : (l : Text) → All IsInline l → lines (l ++ b'\n' ∷ []) ≡ l ∷ []
unfolding lines
lines_line [] h = refl
lines_line (c ∷ l) h = rw (h.0.0, h.0.1, lines_line l h.1) refl

-- The text before the first separator has none.
pub split_once-append :
    (sep : ℕ → Bool) (a b : Text) (x : ℕ)
    → All (λ c. sep c ≡ false) a
    → sep x ≡ true
    → split_once sep (a ++ x ∷ b) ≡ some (a, b)
unfolding split_once
split_once-append sep [] b x h e = rw e refl
split_once-append sep (c ∷ a) b x h e = rw (h.0, split_once-append sep a b x h.1 e) refl

pub split_once-none :
    (sep : ℕ → Bool) (a : Text) → All (λ c. sep c ≡ false) a → split_once sep a ≡ none
unfolding split_once
split_once-none sep [] h = refl
split_once-none sep (c ∷ a) h = rw (h.0, split_once-none sep a h.1) refl

pub Ended-newline : (s : Text) → Ended (s ++ b'\n' ∷ [])
Ended-newline [] = refl
Ended-newline (c ∷ []) = refl
Ended-newline (c ∷ d ∷ s) = Ended-newline (d ∷ s)

pub Ended-append : (s t : Text) → Ended s → Ended t → Ended (s ++ t)
Ended-append [] t h k = k
Ended-append (c ∷ []) [] h k = h
Ended-append (c ∷ []) (d ∷ t) h k = k
Ended-append (c ∷ d ∷ s) t h k = Ended-append (d ∷ s) t h k
