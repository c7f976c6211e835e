-- ===== src/Proto/Envelope.antt =====
-- src/proto.rs: the signed and encrypted packet, nonce (24) ++ ciphertext ++ signature (64).
-- The nonce that `fresh_nonce_24` draws is an argument.
use ws_usb_linux.Base.{
  ℕ, ◌+◌, ◌-◌, ◌≤◌, ◌≡◌, refl, sym, ap, ◌∙◌, ◌↔◌, true, not, Option, none, some, ◌++◌, length, take,
  drop, length-append, length-take, length-drop, take-append-drop, take-append, drop-append, ltb,
  ltb-false, if◌then◌else◌, arith, Bytes,
}
use ws_usb_linux.Crypto.{Crypto, CryptoLaws}
use ws_usb_linux.Proto.{Identity, from_seeds}

unfoldable pub encrypt_and_sign : Crypto → Bytes → Bytes → Bytes → Bytes → Bytes → Bytes
encrypt_and_sign c nonce plain my_x_priv my_ed their_x_pub =
    let shared = c.x25519 my_x_priv their_x_pub in
    let packet = nonce ++ c.aead_seal shared nonce plain in packet ++ c.ed_sign my_ed packet

-- With the packet cut before its signature.
open_signed : Crypto → Bytes → Bytes → Bytes → Bytes → Bytes → Option Bytes
open_signed c nc sig my_x_priv their_x_pub their_ed_pub =
    if not (c.ed_verify their_ed_pub nc sig)
    then none
    else c.aead_open (c.x25519 my_x_priv their_x_pub) (take 24 nc) (drop 24 nc)

unfoldable pub verify_and_decrypt : Crypto → Bytes → Bytes → Bytes → Bytes → Option Bytes
unfolding open_signed
verify_and_decrypt c packet my_x_priv their_x_pub their_ed_pub =
    if ltb (length packet) (24 + 16 + 64)
    then none
    else (let cut = length packet - 64 in
        open_signed c (take cut packet) (drop cut packet) my_x_priv their_x_pub their_ed_pub)

-- The packet that a peer accepts, described by its parts.
pub record IsEnvelope (c : Crypto) (packet my_x_priv their_x_pub their_ed_pub plain : Bytes)
    : Type 0 where
  pub nonce : Bytes
  pub ct : Bytes
  pub sig : Bytes
  pub splits : packet ≡ (nonce ++ ct) ++ sig
  pub length-nonce : length nonce ≡ 24
  pub length-ct : 16 ≤ length ct
  pub length-sig : length sig ≡ 64
  pub signed : c.ed_verify their_ed_pub (nonce ++ ct) sig ≡ true
  pub opens : c.aead_open (c.x25519 my_x_priv their_x_pub) nonce ct ≡ some plain

module _ (c : Crypto) (my_x_priv their_x_pub their_ed_pub : Bytes) where
  open_signed-append :
      (nonce ct sig : Bytes)
      → length nonce ≡ 24
      → c.ed_verify their_ed_pub (nonce ++ ct) sig ≡ true
      → open_signed c (nonce ++ ct) sig my_x_priv their_x_pub their_ed_pub
        ≡ c.aead_open (c.x25519 my_x_priv their_x_pub) nonce ct
  unfolding open_signed
  open_signed-append nonce ct sig n v =
      rw v (rw (take-append 24 nonce ct n, drop-append 24 nonce ct n))

  -- A packet of the right length is cut where its signature begins.
  verify_and_decrypt-append :
      (nc sig : Bytes)
      → 24 + 16 ≤ length nc
      → length sig ≡ 64
      → verify_and_decrypt c (nc ++ sig) my_x_priv their_x_pub their_ed_pub
        ≡ open_signed c nc sig my_x_priv their_x_pub their_ed_pub
  unfolding verify_and_decrypt
  verify_and_decrypt-append nc sig n s =
      let e : length (nc ++ sig) - 64 ≡ length nc = omega (arith, length-append nc sig) in
      rw (ltb-false (length (nc ++ sig)) 104 (omega (arith, length-append nc sig)))
        (rw e (rw (take-append (length nc) nc sig refl, drop-append (length nc) nc sig refl)))

  verify_and_decrypt-of_IsEnvelope :
      (packet plain : Bytes)
      → IsEnvelope c packet my_x_priv their_x_pub their_ed_pub plain
      → verify_and_decrypt c packet my_x_priv their_x_pub their_ed_pub ≡ some plain
  verify_and_decrypt-of_IsEnvelope packet plain e = rw e.splits (
      verify_and_decrypt-append (e.nonce ++ e.ct) e.sig (omega (arith, length-append e.nonce e.ct))
        e.length-sig
      ∙ open_signed-append e.nonce e.ct e.sig e.length-nonce e.signed
      ∙ e.opens)

  IsEnvelope-of_parts :
      (packet plain : Bytes)
      → 24 + 16 + 64 ≤ length packet
      → open_signed c
          (take (length packet - 64) packet)
          (drop (length packet - 64) packet)
          my_x_priv
          their_x_pub
          their_ed_pub
        ≡ some plain
      → IsEnvelope c packet my_x_priv their_x_pub their_ed_pub plain
  unfolding open_signed
  IsEnvelope-of_parts packet plain long h = record {
    nonce = take 24 nc;
    ct = drop 24 nc;
    sig = drop cut packet;
    splits = sym (ap (λ x. x ++ drop cut packet) whole ∙ take-append-drop cut packet);
    length-nonce = omega (arith, length-take 24 nc, length-take cut packet);
    length-ct = omega (arith, length-drop 24 nc, length-take cut packet);
    length-sig = omega (arith, length-drop cut packet);
    signed = rw whole (ground arith);
    opens = ground arith;
  }
    where
      cut : ℕ
      cut = length packet - 64

      nc : Bytes
      nc = take cut packet

      whole : take 24 nc ++ drop 24 nc ≡ nc
      whole = take-append-drop 24 nc

  IsEnvelope-of_verify_and_decrypt :
      (packet plain : Bytes)
      → verify_and_decrypt c packet my_x_priv their_x_pub their_ed_pub ≡ some plain
      → IsEnvelope c packet my_x_priv their_x_pub their_ed_pub plain
  unfolding verify_and_decrypt
  IsEnvelope-of_verify_and_decrypt packet plain h =
      IsEnvelope-of_parts packet plain (ground arith) (ground arith)

  -- A packet is accepted, with a plaintext, exactly when it is a nonce of 24 bytes, a ciphertext of
  -- at least 16 and a signature of 64, where the signature is the sender's over the first two and
  -- the ciphertext opens to that plaintext under the shared key.
  pub verify_and_decrypt_iff :
      (packet plain : Bytes)
      → (verify_and_decrypt c packet my_x_priv their_x_pub their_ed_pub ≡ some plain)
        ↔ IsEnvelope c packet my_x_priv their_x_pub their_ed_pub plain
  verify_and_decrypt_iff packet plain =
      (IsEnvelope-of_verify_and_decrypt packet plain, verify_and_decrypt-of_IsEnvelope packet plain)

-- The public halves of an identity belong to its private ones.
pub record IsIdentity (c : Crypto) (me : Identity) : Type 0 where
  pub x_pub_is : me.x_pub ≡ c.x25519 me.x_priv c.basepoint
  pub ed_pub_is : me.ed_pub ≡ c.ed_public me.ed
  pub id_is : me.id ≡ take 8 me.x_pub

pub from_seeds-IsIdentity :
    (c : Crypto) (x_seed ed_seed : Bytes) → IsIdentity c (from_seeds c x_seed ed_seed)
unfolding from_seeds
from_seeds-IsIdentity c x_seed ed_seed = record { x_pub_is = refl; ed_pub_is = refl; id_is = refl }

module _ {c : Crypto} (laws : CryptoLaws c) where
  pub length-encrypt_and_sign :
      (nonce plain my_x_priv my_ed their_x_pub : Bytes)
      → length (encrypt_and_sign c nonce plain my_x_priv my_ed their_x_pub)
        ≡ length nonce + length plain + 80
  unfolding encrypt_and_sign
  length-encrypt_and_sign nonce plain my_x_priv my_ed their_x_pub =
      let ct = c.aead_seal (c.x25519 my_x_priv their_x_pub) nonce plain in
      omega (
        arith,
        length-append (nonce ++ ct) (c.ed_sign my_ed (nonce ++ ct)),
        length-append nonce ct,
        laws.length-seal (c.x25519 my_x_priv their_x_pub) nonce plain,
        laws.length-ed_sign my_ed (nonce ++ ct),
      )

  -- What one identity seals and signs for another, the other verifies and opens to the same
  -- plaintext, for identities whose public halves belong to their private ones, a nonce of 24
  -- bytes, and crates that keep their laws.
  pub verify_and_decrypt-encrypt_and_sign :
      (me them : Identity) (nonce plain : Bytes)
      → IsIdentity c me
      → IsIdentity c them
      → length nonce ≡ 24
      → verify_and_decrypt c
          (encrypt_and_sign c nonce plain me.x_priv me.ed them.x_pub)
          them.x_priv
          me.x_pub
          me.ed_pub
        ≡ some plain
  unfolding encrypt_and_sign
  verify_and_decrypt-encrypt_and_sign me them nonce plain mine theirs n =
      (verify_and_decrypt_iff c them.x_priv me.x_pub me.ed_pub _ plain).1 (record {
        nonce = nonce;
        ct = ct;
        sig = c.ed_sign me.ed (nonce ++ ct);
        splits = refl;
        length-nonce = n;
        length-ct = omega (arith, laws.length-seal shared nonce plain);
        length-sig = laws.length-ed_sign me.ed (nonce ++ ct);
        signed = rw mine.ed_pub_is (laws.verify-sign me.ed (nonce ++ ct));
        opens = rw same (laws.open-seal shared nonce plain);
      })
    where
      shared : Bytes
      shared = c.x25519 me.x_priv them.x_pub

      ct : Bytes
      ct = c.aead_seal shared nonce plain

      same : c.x25519 them.x_priv me.x_pub ≡ shared
      same = rw (mine.x_pub_is, theirs.x_pub_is) (laws.x25519_comm them.x_priv me.x_priv)

pub length-id : {c : Crypto} → CryptoLaws c → (me : Identity) → IsIdentity c me → length me.id ≡ 8
length-id {c} laws me i =
    rw (i.id_is, i.x_pub_is)
      (omega (
        arith,
        length-take 8 (c.x25519 me.x_priv c.basepoint),
        laws.length-x25519 me.x_priv c.basepoint,
      ))

module _ {c : Crypto} {packet my_x_priv their_x_pub their_ed_pub plain : Bytes} where
  pub length-IsEnvelope :
      IsEnvelope c packet my_x_priv their_x_pub their_ed_pub plain → 24 + 16 + 64 ≤ length packet
  length-IsEnvelope e = rw e.splits (
      omega (arith, length-append (e.nonce ++ e.ct) e.sig, length-append e.nonce e.ct, e.length-ct))
