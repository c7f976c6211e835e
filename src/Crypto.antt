-- ===== src/Crypto.antt =====
-- The crates that the program calls: x25519-dalek, ed25519-dalek, chacha20poly1305, chacha20,
-- blake3, base64 and hex. None of their code is in the repository, so they are a parameter.
-- Keys, nonces and signatures are byte strings; a verifying key is its 32 bytes.
use ws_usb_linux.Base.{
  ℕ, ◌+◌, ◌*◌, ◌≡◌, Bool, true, ◌&&◌, ◌||◌, Option, some, length, leb, ◌==◌, All, Bytes, IsBytes,
}
use ws_usb_linux.Base.Text.{Text}

pub record Crypto : Type 0 where
  -- `x25519(scalar, point)`, which clamps the scalar itself
  pub x25519 : Bytes → Bytes → Bytes
  pub basepoint : Bytes
  -- `SigningKey::from_bytes(seed).verifying_key()`
  pub ed_public : Bytes → Bytes
  -- `SigningKey::from_bytes(seed).sign(message)`
  pub ed_sign : Bytes → Bytes → Bytes
  -- `verifying_key.verify(message, signature).is_ok()`
  pub ed_verify : Bytes → Bytes → Bytes → Bool
  -- `VerifyingKey::from_bytes(bytes).is_ok()`
  pub ed_valid : Bytes → Bool
  -- XChaCha20Poly1305 with a key, a nonce of 24 bytes and a message
  pub aead_seal : Bytes → Bytes → Bytes → Bytes
  pub aead_open : Bytes → Bytes → Bytes → Option Bytes
  -- ChaCha20 with a key and a nonce of 12 bytes, applied to data
  pub apply_keystream : Bytes → Bytes → Bytes → Bytes
  -- `blake3::derive_key(context, material)`
  pub derive_key : Text → Bytes → Bytes
  -- base64 URL_SAFE_NO_PAD
  pub base64_encode : Bytes → Text
  pub base64_decode : Text → Option Bytes
  -- crate hex
  pub hex_encode : Bytes → Text
  pub hex_decode : Text → Option Bytes

-- The digits that `hex::encode` writes.
abbrev pub is_hex_digit : ℕ → Bool
is_hex_digit c = (leb b'0' c && leb c b'9') || (leb b'a' c && leb c b'f')

-- The alphabet of URL_SAFE base64.
abbrev pub is_url_safe : ℕ → Bool
is_url_safe c =
    (leb b'0' c && leb c b'9')
    || (leb b'a' c && leb c b'z')
    || (leb b'A' c && leb c b'Z')
    || c == b'-'
    || c == b'_'

abbrev pub IsHex : Text → Type 0
IsHex = All (λ c. is_hex_digit c ≡ true)

abbrev pub IsUrlSafe : Text → Type 0
IsUrlSafe = All (λ c. is_url_safe c ≡ true)

-- What the documentation of the crates promises.
pub record CryptoLaws (c : Crypto) : Type 0 where
  pub x25519_comm :
      (a b : Bytes) → c.x25519 a (c.x25519 b c.basepoint) ≡ c.x25519 b (c.x25519 a c.basepoint)
  pub length-x25519 : (a p : Bytes) → length (c.x25519 a p) ≡ 32
  pub length-ed_public : (seed : Bytes) → length (c.ed_public seed) ≡ 32
  pub ed_public_valid : (seed : Bytes) → c.ed_valid (c.ed_public seed) ≡ true
  pub length-ed_sign : (seed m : Bytes) → length (c.ed_sign seed m) ≡ 64
  pub verify-sign : (seed m : Bytes) → c.ed_verify (c.ed_public seed) m (c.ed_sign seed m) ≡ true
  pub length-seal : (k n m : Bytes) → length (c.aead_seal k n m) ≡ length m + 16
  pub open-seal : (k n m : Bytes) → c.aead_open k n (c.aead_seal k n m) ≡ some m
  pub keystream_involutive : (k n d : Bytes) → c.apply_keystream k n (c.apply_keystream k n d) ≡ d
  pub length-keystream : (k n d : Bytes) → length (c.apply_keystream k n d) ≡ length d
  pub x25519-IsBytes : (a p : Bytes) → IsBytes (c.x25519 a p)
  pub ed_public-IsBytes : (seed : Bytes) → IsBytes (c.ed_public seed)
  pub base64_decode-encode : (b : Bytes) → IsBytes b → c.base64_decode (c.base64_encode b) ≡ some b
  pub base64_encode-IsUrlSafe : (b : Bytes) → IsUrlSafe (c.base64_encode b)
  pub hex_decode-encode : (b : Bytes) → IsBytes b → c.hex_decode (c.hex_encode b) ≡ some b
  pub hex_encode-IsHex : (b : Bytes) → IsHex (c.hex_encode b)
  pub length-hex_encode : (b : Bytes) → length (c.hex_encode b) ≡ 2 * length b
