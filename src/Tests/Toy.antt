-- ===== src/Tests/Toy.antt =====
-- A concrete choice for the crates, under which every law that is assumed of them holds.
use ws_usb_linux.Base.{
  ℕ, zero, suc, ◌+◌, ◌-◌, ◌*◌, ◌/◌, ◌%◌, ◌<◌, ◌≡◌, refl, ap, ◌&&◌, Option, none, some, [], ◌∷◌,
  ◌++◌, length, replicate, take, drop, map, ltb, leb, list_eq, list_eq_refl, if◌then◌else◌, All,
  arith, ◌==◌, Bytes, IsBytes,
}
use mathlib.Core.Path.{ap₂}
use ws_usb_linux.Base.Text.{Text}
use ws_usb_linux.Crypto.{Crypto, CryptoLaws}

abbrev head : Bytes → ℕ
head [] = 0
head (x ∷ xs) = x

abbrev mark : Bytes → Bytes → Bytes
mark p m = replicate 64 ((head p + length m) % 256)

abbrev tag : Bytes → Bytes
tag k = replicate 16 (head k % 256)

abbrev flip : ℕ → ℕ
flip x = if ltb x 256 then 255 - x else x

abbrev digit : ℕ → ℕ
digit d = if ltb d 10 then 48 + d else 87 + d

abbrev encode : Bytes → Text
encode [] = []
encode (b ∷ bs) = digit (b % 256 / 16) ∷ digit (b % 16) ∷ encode bs

abbrev value : ℕ → Option ℕ
value c =
    if leb 48 c && leb c 57
    then some (c - 48)
    else if leb 97 c && leb c 102
    then some (c - 87)
    else none

abbrev joined : Option ℕ → Option ℕ → Option Bytes → Option Bytes
joined (some h) (some l) (some bs) = some ((16 * h + l) ∷ bs)
joined _ _ _ = none

abbrev decode : Text → Option Bytes
decode [] = some []
decode (h ∷ []) = none
decode (h ∷ l ∷ s) = joined (value h) (value l) (decode s)

abbrev pub toy : Crypto
toy = record {
  x25519 = λ a p. replicate 32 ((head a + head p) % 256);
  basepoint = replicate 32 0;
  ed_public = λ seed. replicate 32 (head seed % 256);
  ed_sign = λ seed m. mark (replicate 32 (head seed % 256)) m;
  ed_verify = λ p m sig. list_eq sig (mark p m);
  ed_valid = λ p. length p == 32;
  aead_seal = λ k n m. tag k ++ m;
  aead_open = λ k n ct. if list_eq (take 16 ct) (tag k) then some (drop 16 ct) else none;
  apply_keystream = λ k n d. map flip d;
  derive_key = λ context m. replicate 32 (head m % 256);
  base64_encode = encode;
  base64_decode = decode;
  hex_encode = encode;
  hex_decode = decode;
}

flip_twice : (d : Bytes) → map flip (map flip d) ≡ d
flip_twice [] = refl
flip_twice (x ∷ d) = ap₂ ◌∷◌ (ground arith) (flip_twice d)

length-flip : (d : Bytes) → length (map flip d) ≡ length d
length-flip [] = refl
length-flip (x ∷ d) = ap suc (length-flip d)

value-digit : (d : ℕ) → d < 16 → value (digit d) ≡ some d
value-digit d h = ground arith

decode-encode : (b : Bytes) → IsBytes b → decode (encode b) ≡ some b
decode-encode [] h = refl
decode-encode (x ∷ b) h =
    rw
      (
        value-digit (x % 256 / 16) (omega arith),
        value-digit (x % 16) (omega arith),
        decode-encode b h.1,
      )
      (ap (λ y. some (y ∷ b)) (omega (arith, h.0)))

encode-All : (P : ℕ → Type 0) → ((d : ℕ) → d < 16 → P (digit d)) → (b : Bytes) → All P (encode b)
encode-All P f [] = tt
encode-All P f (x ∷ b) = (f _ (omega arith), (f _ (omega arith), encode-All P f b))

length-encode : (b : Bytes) → length (encode b) ≡ 2 * length b
length-encode [] = refl
length-encode (x ∷ b) = omega (arith, length-encode b)

pub replicate-IsBytes : (n x : ℕ) → x < 256 → IsBytes (replicate n x)
replicate-IsBytes zero x h = tt
replicate-IsBytes (suc n) x h = (h, replicate-IsBytes n x h)

open-seal : (k m : Bytes) → toy.aead_open k [] (tag k ++ m) ≡ some m
open-seal k m = rw (list_eq_refl (tag k)) refl

pub toy_laws : CryptoLaws toy
toy_laws = record {
  x25519_comm = λ a b. ap (replicate 32) (omega arith);
  length-x25519 = λ a p. refl;
  length-ed_public = λ seed. refl;
  ed_public_valid = λ seed. refl;
  length-ed_sign = λ seed m. refl;
  verify-sign = λ seed m. list_eq_refl (mark (replicate 32 (head seed % 256)) m);
  length-seal = λ k n m. omega arith;
  open-seal = λ k n m. open-seal k m;
  keystream_involutive = λ k n d. flip_twice d;
  length-keystream = λ k n d. length-flip d;
  x25519-IsBytes = λ a p. replicate-IsBytes 32 _ (omega arith);
  ed_public-IsBytes = λ seed. replicate-IsBytes 32 _ (omega arith);
  base64_decode-encode = decode-encode;
  base64_encode-IsUrlSafe = encode-All _ (λ d h. ground arith);
  hex_decode-encode = decode-encode;
  hex_encode-IsHex = encode-All _ (λ d h. ground arith);
  length-hex_encode = length-encode;
}
