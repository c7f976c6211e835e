-- ===== src/Base/Trim.antt =====
-- `str::trim` and `str::strip_prefix` on texts whose ends are known.
use mathlib.Core.List.{reverse, reverse-append, reverse-reverse, reverse-cons}
use ws_usb_linux.Base.Tests.{==_refl}
use ws_usb_linux.Base.Lists.{All, All-append}
use ws_usb_linux.Base.Text.{Text, is_whitespace, trim_start, trim, strip_prefix}
use Prim.Native.Nat.{ℕ}
use mathlib.Core.Path.{◌≡◌, refl, ap, sym, ◌∙◌}
use mathlib.Core.Bool.{true, false}
use mathlib.Core.Logic.{◌⊎◌, inl, inr}
use mathlib.Core.Option.{some}
use mathlib.Core.List.{List, [], ◌∷◌, ◌++◌}
use native.Mathlib.Omega.{arith}

abbrev pub IsSpace : ℕ → Type 0
IsSpace c = is_whitespace c ≡ true

abbrev pub IsInk : ℕ → Type 0
IsInk c = is_whitespace c ≡ false

pub All-reverse {ℓ κ} : {A : Type ℓ} (P : A → Type κ) (xs : List A) → All P xs → All P (reverse xs)
All-reverse P [] h = tt
All-reverse P (x ∷ xs) h =
    rw (reverse-cons x xs) (All-append P (reverse xs) (x ∷ []) (All-reverse P xs h.1) (h.0, tt))

trim_start_space : (w : Text) → All IsSpace w → trim_start w ≡ []
unfolding trim_start
trim_start_space [] h = refl
trim_start_space (c ∷ w) h = rw h.0 (trim_start_space w h.1)

pub trim_start-append : (w s : Text) → All IsSpace w → trim_start (w ++ s) ≡ trim_start s
unfolding trim_start
trim_start-append [] s h = refl
trim_start-append (c ∷ w) s h = rw h.0 (trim_start-append w s h.1)

trim_start_ink : (c : ℕ) (s : Text) → IsInk c → trim_start (c ∷ s) ≡ c ∷ s
unfolding trim_start
trim_start_ink c s h = rw h refl

pub trim_start-ink : (s : Text) → All IsInk s → trim_start s ≡ s
unfolding trim_start
trim_start-ink [] h = refl
trim_start-ink (c ∷ s) h = rw h.0 refl

-- Whitespace behind a text stays where the text has an inked character, and goes where it has none.
trim_start-append_space :
    (s w : Text)
    → All IsSpace w
    → (trim_start (s ++ w) ≡ trim_start s ++ w) ⊎ ((trim_start s ≡ []) × (trim_start (s ++ w) ≡ []))
unfolding trim_start
trim_start-append_space [] w h = inr (refl, trim_start_space w h)
trim_start-append_space (c ∷ s) w h = ground (arith, trim_start-append_space s w h)

-- Trimming is not affected by the whitespace around a text.
pub trim-pad :
    (before s after : Text)
    → All IsSpace before
    → All IsSpace after
    → trim (before ++ (s ++ after)) ≡ trim s
unfolding trim
trim-pad before s after b a =
    rw (trim_start-append before (s ++ after) b) (elim (trim_start-append_space s after a) [
      | inl kept ↦
          rw (kept, reverse-append (trim_start s) after)
            (ap reverse (
              trim_start-append (reverse after) (reverse (trim_start s))
                (All-reverse IsSpace after a)))
      | inr (e, gone) ↦ rw (gone, e)
    ])

pub trim-ink : (s : Text) → All IsInk s → trim s ≡ s
unfolding trim
trim-ink s h =
    rw (trim_start-ink s h, trim_start-ink (reverse s) (All-reverse IsInk s h)) (reverse-reverse s)

pub strip_prefix-append : (p s : Text) → strip_prefix p (p ++ s) ≡ some s
unfolding strip_prefix
strip_prefix-append [] s = refl
strip_prefix-append (c ∷ p) s = rw (==_refl c) (strip_prefix-append p s)

-- A text that begins and ends with an inked character is as it is after trimming.
pub trim-ends :
    (c d : ℕ) (p q : Text) → c ∷ p ≡ q ++ d ∷ [] → IsInk c → IsInk d → trim (c ∷ p) ≡ c ∷ p
unfolding trim
trim-ends c d p q e hc hd =
    ap (λ x. reverse (trim_start (reverse x))) (trim_start_ink c p hc)
    ∙ ap (λ x. reverse (trim_start x)) back
    ∙ ap reverse (trim_start_ink d (reverse q) hd)
    ∙ ap reverse (sym back)
    ∙ reverse-reverse (c ∷ p)
  where
    back : reverse (c ∷ p) ≡ d ∷ reverse q
    back = ap reverse e ∙ reverse-append q (d ∷ [])
