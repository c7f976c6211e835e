-- ===== src/Base/Maps.antt =====
-- Maps with number keys as functions, and bounded queues.
use Prim.Native.Nat.{ℕ, ◌+◌}
use mathlib.Core.Path.{◌≡◌, refl, subst}
use mathlib.Core.Bool.{Bool, true, false}
use mathlib.Core.Logic.{◌≢◌, inl, inr}
use mathlib.Core.Option.{Option, none, some}
use mathlib.Core.List.{List, [], ◌∷◌, ◌++◌}
use native.Mathlib.Omega.{arith}
use ws_usb_linux.Base.Tests.{◌==◌, if◌then◌else◌, Bool-cases}
use ws_usb_linux.Base.Lists.{length, length-append}

abbrev pub update {ℓ} : {A : Type ℓ} → (ℕ → A) → ℕ → A → ℕ → A
update f i a j = if i == j then a else f j

abbrev pub is_some {ℓ} : {A : Type ℓ} → Option A → Bool
is_some none = false
is_some (some a) = true

pub update_self {ℓ} : {A : Type ℓ} (f : ℕ → A) (i : ℕ) (a : A) → update f i a i ≡ a
update_self f i a = ground arith

pub update_ne {ℓ} : {A : Type ℓ} (f : ℕ → A) (i j : ℕ) (a : A) → i ≢ j → update f i a j ≡ f j
update_ne f i j a h = ground arith

pub update_hit {ℓ} :
    {A : Type ℓ} (f : ℕ → A) (i : ℕ) (a : A) (j : ℕ) → (i == j) ≡ true → update f i a j ≡ a
update_hit f i a j h = rw (h, update) refl

pub update_miss {ℓ} :
    {A : Type ℓ} (f : ℕ → A) (i : ℕ) (a : A) (j : ℕ) → (i == j) ≡ false → update f i a j ≡ f j
update_miss f i a j h = rw (h, update) refl

pub length-concat {ℓ} : {A : Type ℓ} (xs : List A) (x : A) → length (xs ++ x ∷ []) ≡ length xs + 1
length-concat xs x = omega (arith, length-append xs (x ∷ []))

pub update-all {ℓ κ} :
    {A : Type ℓ} (P : A → Type κ) (f : ℕ → A) (i : ℕ) (a : A)
    → ((j : ℕ) → P (f j))
    → P a
    → (j : ℕ) → P (update f i a j)
update-all P f i a h p j = elim (Bool-cases (i == j)) [
  | inl e ↦ rw (e, update) p
  | inr e ↦ rw (e, update) (h j)
]

-- A property that an optional result has, if there is one.
abbrev pub Holds {ℓ κ} : {A : Type ℓ} → (A → Type κ) → Option A → Type κ
Holds P none = Unit
Holds P (some a) = P a

pub Holds-some {ℓ κ} :
    {A : Type ℓ} (P : A → Type κ) (o : Option A) (a : A) → Holds P o → o ≡ some a → P a
Holds-some P none a h e = absurd (cc)
Holds-some P (some b) a h e = subst P {x = b} (ground arith) h
