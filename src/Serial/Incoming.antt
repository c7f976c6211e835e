-- ===== src/Serial/Incoming.antt =====
-- src/main.rs: `handle_incoming` of the serial bridge, which frames reach the device.
use ws_usb_linux.Base.{
  ℕ, ◌+◌, ◌≤◌, ◌≡◌, ◌≢◌, refl, ap, ◌↔◌, false, Option, none, some, [], ◌∷◌, length, drop, ltb-false,
  list_eq, list_eq_iff, list_eq-false, arith, Bytes,
}
use ws_usb_linux.Crypto.{Crypto}
use ws_usb_linux.Proto.{Identity, Peer}
use ws_usb_linux.Proto.Envelope.{verify_and_decrypt, IsEnvelope, verify_and_decrypt_iff}
use ws_usb_linux.Proto.Frames.{frame_header, zero_header}
use ws_usb_linux.Serial.{serial_body, opened_body, serial_incoming}

-- A frame of the peer with these bytes for the device.
pub record CarriesSerial (c : Crypto) (me : Identity) (peer : Peer) (k_s2c frame chunk : Bytes)
    : Type 0 where
  pub id_low : ℕ
  pub id_high : ℕ
  pub some_bytes : chunk ≢ []
  pub long : 8 + 24 + 16 + 64 ≤ length frame
  pub not_server : frame_header c k_s2c frame ≢ zero_header
  pub sealed :
      IsEnvelope c (drop 8 frame) me.x_priv peer.x_pub peer.ed_pub (id_low ∷ id_high ∷ 0x30 ∷ chunk)

serial_body-eq_some :
    (inner chunk : Bytes)
    → serial_body inner ≡ some chunk
    → (a : ℕ) × (b : ℕ) × (chunk ≢ []) × (inner ≡ a ∷ b ∷ 0x30 ∷ chunk)
unfolding serial_body
serial_body-eq_some (a ∷ (b ∷ (cmd ∷ (x ∷ body)))) chunk e =
    (a, b, (λ z. absurd (ground (arith, z))), ground arith)
serial_body-eq_some _ chunk e = absurd (cc)

opened_body-eq_some :
    (o : Option Bytes) (chunk : Bytes)
    → opened_body o ≡ some chunk
    → (a : ℕ) × (b : ℕ) × (chunk ≢ []) × (o ≡ some (a ∷ b ∷ 0x30 ∷ chunk))
unfolding opened_body
opened_body-eq_some none chunk e = absurd (cc)
opened_body-eq_some (some inner) chunk e =
    let (a, b, ne, q) = serial_body-eq_some inner chunk e in (a, b, ne, ap some q)

serial_body-of_parts :
    (a b : ℕ) (chunk : Bytes) → chunk ≢ [] → serial_body (a ∷ b ∷ 0x30 ∷ chunk) ≡ some chunk
unfolding serial_body
serial_body-of_parts a b [] ne = absurd (ne refl)
serial_body-of_parts a b (x ∷ chunk) ne = refl

module _ (c : Crypto) (me : Identity) (peer : Peer) (k_s2c frame chunk : Bytes) where
  CarriesSerial-of_serial_incoming :
      serial_incoming c me peer k_s2c frame ≡ some chunk → CarriesSerial c me peer k_s2c frame chunk
  unfolding serial_incoming
  CarriesSerial-of_serial_incoming h =
      let (a, b, ne, q) =
        opened_body-eq_some (verify_and_decrypt c (drop 8 frame) me.x_priv peer.x_pub peer.ed_pub)
          chunk (ground arith) in
      record {
        id_low = a;
        id_high = b;
        some_bytes = ne;
        long = ground arith;
        not_server = λ z. cc ((list_eq_iff (frame_header c k_s2c frame) zero_header).1 z, not_zero);
        sealed = (verify_and_decrypt_iff c me.x_priv peer.x_pub peer.ed_pub (drop 8 frame) _).0 q;
      }
    where
      not_zero : list_eq (frame_header c k_s2c frame) zero_header ≡ false
      not_zero = ground arith

  serial_incoming-of_CarriesSerial :
      CarriesSerial c me peer k_s2c frame chunk → serial_incoming c me peer k_s2c frame ≡ some chunk
  unfolding serial_incoming
  serial_incoming-of_CarriesSerial k = rw (ltb-false (length frame) 112 k.long) (
      rw (list_eq-false (frame_header c k_s2c frame) zero_header k.not_server) (
        rw ((verify_and_decrypt_iff c me.x_priv peer.x_pub peer.ed_pub (drop 8 frame) _).1 k.sealed)
          (serial_body-of_parts k.id_low k.id_high chunk k.some_bytes)))

  -- Bytes go to the device exactly when they are not empty and the frame is at least 112 bytes long,
  -- its header does not unmask to zero, and what is behind the header is an envelope of the peer
  -- whose plaintext is two bytes, the command 0x30 and these bytes.
  pub serial_incoming_iff :
      (serial_incoming c me peer k_s2c frame ≡ some chunk)
      ↔ CarriesSerial c me peer k_s2c frame chunk
  serial_incoming_iff = (CarriesSerial-of_serial_incoming, serial_incoming-of_CarriesSerial)
