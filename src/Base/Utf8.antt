-- ===== src/Base/Utf8.antt =====
-- UTF-8, as `str::as_bytes` and `String::from_utf8_lossy` have it.
use Prim.Native.Nat.{ℕ, ◌+◌, ◌-◌, ◌*◌, ◌/◌, ◌%◌, ◌≤◌, ◌<◌}
use mathlib.Core.Path.{◌≡◌, refl, ap, ◌∙◌}
use mathlib.Core.Logic.{◌⊎◌}
use mathlib.Core.Bool.{◌&&◌}
use mathlib.Core.List.{List, [], ◌∷◌, ◌++◌}
use native.Mathlib.Omega.{arith}
use ws_usb_linux.Base.Tests.{◌==◌, ltb, leb, if◌then◌else◌}
use ws_usb_linux.Base.Lists.{All, All-append}
use ws_usb_linux.Base.Text.{Text}

-- The bytes of one character.
encode_char : ℕ → List ℕ
encode_char c =
    if ltb c 0x80
    then c ∷ []
    else if ltb c 0x800
    then (0xc0 + c / 64) ∷ (0x80 + c % 64) ∷ []
    else if ltb c 0x10000
    then (0xe0 + c / 4096) ∷ (0x80 + c / 64 % 64) ∷ (0x80 + c % 64) ∷ []
    else (0xf0 + c / 262144) ∷ (0x80 + c / 4096 % 64) ∷ (0x80 + c / 64 % 64) ∷ (0x80 + c % 64) ∷ []

unfoldable pub as_bytes : Text → List ℕ
unfolding encode_char
as_bytes [] = []
as_bytes (c ∷ s) = encode_char c ++ as_bytes s

-- Between characters, or inside one: the bytes still to come, the bits so far and the range in
-- which the next byte must lie.
pub data Pending : Type 0 where
  idle : Pending
  more : ℕ → ℕ → ℕ → ℕ → Pending

abbrev replacement : ℕ
replacement = 0xfffd

-- A byte between two characters.
lead : ℕ → List ℕ × Pending
lead b =
    if ltb b 0x80
    then (b ∷ [], idle)
    else if leb 0xc2 b && leb b 0xdf
    then ([], more 1 (b - 0xc0) 0x80 0xbf)
    else if b == 0xe0
    then ([], more 2 0 0xa0 0xbf)
    else if b == 0xed
    then ([], more 2 13 0x80 0x9f)
    else if leb 0xe1 b && leb b 0xef
    then ([], more 2 (b - 0xe0) 0x80 0xbf)
    else if b == 0xf0
    then ([], more 3 0 0x90 0xbf)
    else if b == 0xf4
    then ([], more 3 4 0x80 0x8f)
    else if leb 0xf1 b && leb b 0xf3
    then ([], more 3 (b - 0xf0) 0x80 0xbf)
    else (replacement ∷ [], idle)

-- A character that breaks off becomes one replacement, and the byte is read again.
decode_step : Pending → ℕ → List ℕ × Pending
unfolding lead
decode_step idle b = lead b
decode_step (more n bits low high) b =
    if leb low b && leb b high
    then (
      if n == 1 then (bits * 64 + (b - 0x80)) ∷ [] else [],
      if n == 1 then idle else more (n - 1) (bits * 64 + (b - 0x80)) 0x80 0xbf,
    )
    else (replacement ∷ (lead b).0, (lead b).1)

decode : Pending → List ℕ → Text
decode idle [] = []
decode (more n bits low high) [] = replacement ∷ []
decode idle (b ∷ bs) = (decode_step idle b).0 ++ decode (decode_step idle b).1 bs
decode (more n bits low high) (b ∷ bs) =
    (decode_step (more n bits low high) b).0 ++ decode (decode_step (more n bits low high) b).1 bs

unfoldable pub from_utf8_lossy : List ℕ → Text
unfolding decode decode_step
from_utf8_lossy = decode idle

-- A Unicode scalar value: what a Rust `char` can be.
abbrev pub IsScalar : ℕ → Type 0
IsScalar c = (c < 0xd800) ⊎ ((0xe000 ≤ c) × (c < 0x110000))

abbrev pub IsText : Text → Type 0
IsText = All IsScalar

decode-lead :
    (b : ℕ) (rest : List ℕ) → decode idle (b ∷ rest) ≡ (lead b).0 ++ decode (lead b).1 rest
unfolding decode decode_step
decode-lead b rest = refl

-- The last byte of a character, and one before it.
decode_last :
    (bits low high b : ℕ) (rest : List ℕ)
    → low ≤ b
    → b ≤ high
    → decode (more 1 bits low high) (b ∷ rest) ≡ (bits * 64 + (b - 0x80)) ∷ decode idle rest
unfolding decode decode_step
decode_last bits low high b rest p q = ground arith

decode_inner :
    (n bits low high b : ℕ) (rest : List ℕ)
    → low ≤ b
    → b ≤ high
    → decode (more (n + 2) bits low high) (b ∷ rest)
      ≡ decode (more (n + 1) (bits * 64 + (b - 0x80)) 0x80 0xbf) rest
unfolding decode decode_step
decode_inner n bits low high b rest p q = ground arith

lead_two : (n : ℕ) → 2 ≤ n → n < 32 → lead (0xc0 + n) ≡ ([], more 1 n 0x80 0xbf)
unfolding lead
lead_two n p q = ground arith

-- Where the second byte of a character of three or four bytes may lie.
abbrev low_three : ℕ → ℕ
low_three n = if n == 0 then 0xa0 else 0x80

abbrev high_three : ℕ → ℕ
high_three n = if n == 13 then 0x9f else 0xbf

abbrev low_four : ℕ → ℕ
low_four n = if n == 0 then 0x90 else 0x80

abbrev high_four : ℕ → ℕ
high_four n = if n == 4 then 0x8f else 0xbf

lead_three : (n : ℕ) → n < 16 → lead (0xe0 + n) ≡ ([], more 2 n (low_three n) (high_three n))
unfolding lead
lead_three n p = ground arith

lead_four : (n : ℕ) → n < 5 → lead (0xf0 + n) ≡ ([], more 3 n (low_four n) (high_four n))
unfolding lead
lead_four n p = ground arith

-- A lead byte that starts a longer character.
decode-open :
    (b n bits low high : ℕ) (rest : List ℕ)
    → lead b ≡ ([], more n bits low high)
    → decode idle (b ∷ rest) ≡ decode (more n bits low high) rest
decode-open b n bits low high rest e = decode-lead b rest ∙ rw e

decode_two :
    (c : ℕ) (rest : List ℕ)
    → 0x80 ≤ c
    → c < 0x800
    → decode idle ((0xc0 + c / 64) ∷ (0x80 + c % 64) ∷ rest) ≡ c ∷ decode idle rest
decode_two c rest p q =
    decode-open _ 1 (c / 64) 0x80 0xbf _ (lead_two (c / 64) (omega arith) (omega arith))
    ∙ decode_last (c / 64) 0x80 0xbf (0x80 + c % 64) rest (omega arith) (omega arith)
    ∙ ap (λ x. x ∷ decode idle rest) (omega arith)

decode_three :
    (c : ℕ) (rest : List ℕ)
    → 0x800 ≤ c
    → c < 0x10000
    → IsScalar c
    → decode idle ((0xe0 + c / 4096) ∷ (0x80 + c / 64 % 64) ∷ (0x80 + c % 64) ∷ rest)
      ≡ c ∷ decode idle rest
decode_three c rest p q h =
    decode-open _ 2 (c / 4096) (low_three (c / 4096)) (high_three (c / 4096)) _
      (lead_three (c / 4096) (omega arith))
    ∙ decode_inner 0 (c / 4096) _ _ (0x80 + c / 64 % 64) _ (ground arith) (ground arith)
    ∙ decode_last _ 0x80 0xbf (0x80 + c % 64) rest (omega arith) (omega arith)
    ∙ ap (λ x. x ∷ decode idle rest) (omega arith)

decode_four :
    (c : ℕ) (rest : List ℕ)
    → 0x10000 ≤ c
    → c < 0x110000
    → decode idle (
        (0xf0 + c / 262144)
        ∷ (0x80 + c / 4096 % 64)
        ∷ (0x80 + c / 64 % 64)
        ∷ (0x80 + c % 64)
        ∷ rest)
      ≡ c ∷ decode idle rest
decode_four c rest p q =
    decode-open _ 3 (c / 262144) (low_four (c / 262144)) (high_four (c / 262144)) _
      (lead_four (c / 262144) (omega arith))
    ∙ decode_inner 1 (c / 262144) _ _ (0x80 + c / 4096 % 64) _ (ground arith) (ground arith)
    ∙ decode_inner 0 _ 0x80 0xbf (0x80 + c / 64 % 64) _ (omega arith) (omega arith)
    ∙ decode_last _ 0x80 0xbf (0x80 + c % 64) rest (omega arith) (omega arith)
    ∙ ap (λ x. x ∷ decode idle rest) (omega arith)

decode_one : (c : ℕ) (rest : List ℕ) → c < 0x80 → decode idle (c ∷ rest) ≡ c ∷ decode idle rest
decode_one c rest h = decode-lead c rest ∙ unfold lead in ground arith

decode-encode_char :
    (c : ℕ) (rest : List ℕ)
    → IsScalar c
    → decode idle (encode_char c ++ rest) ≡ c ∷ decode idle rest
unfolding encode_char
decode-encode_char c rest h =
    ground (arith, decode_one c rest, decode_two c rest, decode_three c rest, decode_four c rest)

-- Whatever text is written is read back.
pub from_utf8_lossy-as_bytes : (s : Text) → IsText s → from_utf8_lossy (as_bytes s) ≡ s
unfolding as_bytes from_utf8_lossy
from_utf8_lossy-as_bytes [] h = refl
from_utf8_lossy-as_bytes (c ∷ s) h =
    decode-encode_char c (as_bytes s) h.0 ∙ ap (◌∷◌ c) (from_utf8_lossy-as_bytes s h.1)

encode_char-small : (c : ℕ) → IsScalar c → All (λ b. b < 256) (encode_char c)
unfolding encode_char
encode_char-small c h = ground arith

pub as_bytes-small : (s : Text) → IsText s → All (λ b. b < 256) (as_bytes s)
unfolding as_bytes
as_bytes-small [] h = tt
as_bytes-small (c ∷ s) h =
    All-append _ (encode_char c) (as_bytes s) (encode_char-small c h.0) (as_bytes-small s h.1)
