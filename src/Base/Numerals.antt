-- ===== src/Base/Numerals.antt =====
-- What Rust's standard library does at `str::parse` to an unsigned integer.
use Prim.Native.Nat.{ℕ, ◌+◌, ◌-◌, ◌*◌, ◌≤◌, ◌<◌}
use mathlib.Core.Path.{◌≡◌, refl, sym, ap, subst, ◌∙◌}
use mathlib.Core.Bool.{◌&&◌}
use mathlib.Core.Logic.{◌≢◌, ◌↔◌, ◌⊎◌, inl, inr}
use mathlib.Core.Option.{Option, none, some}
use mathlib.Core.List.{[], ◌∷◌}
use native.Mathlib.Omega.{arith}
use ws_usb_linux.Base.Tests.{◌==◌, ltb, leb, if◌then◌else◌, Bool-cases}
use ws_usb_linux.Base.Lists.{All}
use ws_usb_linux.Base.Text.{Text}

-- `str::parse` at an unsigned type of that many values: digits, with a plus sign before them or not.
unfoldable pub parse_digits : ℕ → ℕ → Text → Option ℕ
parse_digits bound n [] = some n
parse_digits bound n (d ∷ s) =
    let rest = parse_digits bound (n * 10 + (d - b'0')) s in
    if leb b'0' d && leb d b'9' && ltb (n * 10 + (d - b'0')) bound then rest else none

unfoldable pub parse_unsigned : ℕ → Text → Option ℕ
parse_unsigned bound [] = none
parse_unsigned bound (d ∷ []) = if d == b'+' then none else parse_digits bound 0 (d ∷ [])
parse_unsigned bound (d ∷ e ∷ s) =
    if d == b'+' then parse_digits bound 0 (e ∷ s) else parse_digits bound 0 (d ∷ e ∷ s)

abbrev pub IsDigit : ℕ → Type 0
IsDigit d = (b'0' ≤ d) × (d ≤ b'9')

-- What decimal digits spell behind a number.
abbrev pub value : ℕ → Text → ℕ
value n [] = n
value n (d ∷ s) = value (n * 10 + (d - b'0')) s

-- The text without its plus sign.
abbrev pub unsigned : Text → Text
unsigned [] = []
unsigned (d ∷ s) = if d == b'+' then s else d ∷ s

le-value : (n : ℕ) (s : Text) → n ≤ value n s
le-value n [] = omega arith
le-value n (d ∷ s) = omega (arith, le-value (n * 10 + (d - b'0')) s)

parse_digits_sound :
    (bound n r : ℕ) (s : Text)
    → n < bound
    → parse_digits bound n s ≡ some r
    → All IsDigit s × (r ≡ value n s) × (r < bound)
unfolding parse_digits
parse_digits_sound bound n r [] fits h = ground arith
parse_digits_sound bound n r (d ∷ s) fits h =
    ground (arith, parse_digits_sound bound (n * 10 + (d - b'0')) r s)

parse_digits_complete :
    (bound n : ℕ) (s : Text)
    → All IsDigit s
    → value n s < bound
    → parse_digits bound n s ≡ some (value n s)
unfolding parse_digits
parse_digits_complete bound n [] h fits = refl
parse_digits_complete bound n (d ∷ s) (h, hs) fits =
    let m = n * 10 + (d - b'0') in
    ground (arith, parse_digits_complete bound m s hs fits, le-value m s)

-- What is read, when there is something behind the sign.
parse_unsigned-unsigned :
    (bound : ℕ) (s : Text)
    → ((unsigned s ≡ []) × (parse_unsigned bound s ≡ none))
      ⊎ ((unsigned s ≢ []) × (parse_unsigned bound s ≡ parse_digits bound 0 (unsigned s)))
unfolding parse_unsigned
parse_unsigned-unsigned bound [] = inl (refl, refl)
parse_unsigned-unsigned bound (d ∷ []) = elim (Bool-cases (d == b'+')) [
  | inl plus ↦ rw plus (inl (refl, refl))
  | inr digit ↦ rw digit (inr ((λ e. absurd (cc e)), refl))
]
parse_unsigned-unsigned bound (d ∷ e ∷ s) = elim (Bool-cases (d == b'+')) [
  | inl plus ↦ rw plus (inr ((λ e. absurd (cc e)), refl))
  | inr digit ↦ rw digit (inr ((λ e. absurd (cc e)), refl))
]

-- A text is read as a number exactly when, behind at most one plus sign, it is one or more decimal
-- digits whose value is the number and is below the bound.
pub parse_unsigned_iff :
    (bound r : ℕ) (s : Text)
    → 0 < bound
    → (parse_unsigned bound s ≡ some r)
      ↔ ((unsigned s ≢ []) × All IsDigit (unsigned s) × (r ≡ value 0 (unsigned s)) × (r < bound))
parse_unsigned_iff bound r s p = elim (parse_unsigned-unsigned bound s) [
  | inl (empty, refused) ↦ ((λ h. absurd (cc (h, refused))), (λ q. absurd (q.0 empty)))
  | inr (some_left, read) ↦ (
    λ h.
        let (digits, exact, fits) = parse_digits_sound bound 0 r (unsigned s) p (sym read ∙ h) in
        (some_left, digits, exact, fits),
    λ q.
        let (_, digits, exact, fits) = q in
        read
        ∙ parse_digits_complete bound 0 (unsigned s) digits (subst (λ k. k < bound) exact fits)
        ∙ ap some (sym exact),
  )
]
