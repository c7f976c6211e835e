-- ===== src/Serial/Stream.antt =====
-- src/main.rs: the bytes from one device to the other, through both bridges and the relay.
use ws_usb_linux.Base.{
  ℕ, ◌+◌, ◌≡◌, ◌≢◌, refl, ap, ◌∙◌, Bool, true, some, List, [], ◌∷◌, ◌++◌, map, length, drop, arith,
  Bytes, drop-append, length-append, All,
}
use ws_usb_linux.Crypto.{Crypto, CryptoLaws}
use ws_usb_linux.Proto.{Identity, Peer, pack_inner, cmd_serial_data}
use ws_usb_linux.Proto.Envelope.{
  verify_and_decrypt, IsEnvelope, verify_and_decrypt_iff, IsIdentity, length-IsEnvelope, length-id,
}
use ws_usb_linux.Proto.Frames.{frame_header, zero_header, build_peer_frame-routes}
use ws_usb_linux.Serial.{
  serial_incoming, serial_frame, ReadResult, got, timed_out, interrupted, eio, failed,
  device_read_loop, device_write_loop, frames_of, chunks_of, forward,
}
use ws_usb_linux.Serial.Incoming.{serial_incoming_iff}

-- All bytes of a sequence of chunks.
abbrev pub joined : List Bytes → Bytes
joined [] = []
joined (chunk ∷ rest) = chunk ++ joined rest

-- The bytes that reads return before the first that ends the loop.
abbrev pub read_bytes : List ReadResult → Bytes
read_bytes [] = []
read_bytes (got [] ∷ rs) = []
read_bytes (got (b ∷ chunk) ∷ rs) = (b ∷ chunk) ++ read_bytes rs
read_bytes (failed ∷ rs) = []
read_bytes (_ ∷ rs) = read_bytes rs

-- The loop sends what it reads, in order, and skips the errors that it may retry after.
device_read_loop-joined : (rs : List ReadResult) → joined (device_read_loop rs) ≡ read_bytes rs
unfolding device_read_loop
device_read_loop-joined [] = refl
device_read_loop-joined (got [] ∷ rs) = refl
device_read_loop-joined (got (b ∷ chunk) ∷ rs) =
    ap (λ z. (b ∷ chunk) ++ z) (device_read_loop-joined rs)
device_read_loop-joined (failed ∷ rs) = refl
device_read_loop-joined (timed_out ∷ rs) = device_read_loop-joined rs
device_read_loop-joined (interrupted ∷ rs) = device_read_loop-joined rs
device_read_loop-joined (eio ∷ rs) = device_read_loop-joined rs

device_read_loop-nonempty : (rs : List ReadResult) → All (λ chunk. chunk ≢ []) (device_read_loop rs)
unfolding device_read_loop
device_read_loop-nonempty [] = tt
device_read_loop-nonempty (got [] ∷ rs) = tt
device_read_loop-nonempty (got (b ∷ chunk) ∷ rs) =
    ((λ z. absurd (cc z)), device_read_loop-nonempty rs)
device_read_loop-nonempty (failed ∷ rs) = tt
device_read_loop-nonempty (timed_out ∷ rs) = device_read_loop-nonempty rs
device_read_loop-nonempty (interrupted ∷ rs) = device_read_loop-nonempty rs
device_read_loop-nonempty (eio ∷ rs) = device_read_loop-nonempty rs

-- A device that takes every write.
abbrev pub taking : List Bytes → List Bool
taking chunks = map (λ _. true) chunks

device_write_loop-joined :
    (chunks : List Bytes) → device_write_loop chunks (taking chunks) ≡ joined chunks
unfolding device_write_loop
device_write_loop-joined [] = refl
device_write_loop-joined (chunk ∷ rest) = ap (λ z. chunk ++ z) (device_write_loop-joined rest)

-- Two bridges with each other as peers.
pub record AreBridged (c : Crypto) (me : Identity) (peer : Peer) (you : Identity) (origin : Peer)
    : Type 0 where
  pub mine : IsIdentity c me
  pub yours : IsIdentity c you
  pub to_you : (peer.x_pub ≡ you.x_pub) × (peer.id ≡ you.id)
  pub from_me : (origin.x_pub ≡ me.x_pub) × (origin.ed_pub ≡ me.ed_pub)

-- What the relay does with a frame: it puts a header of its own, which is not the server's, in place
-- of the sender's, and leaves the rest.
pub record Relayed (c : Crypto) (k_s2c frame relayed : Bytes) : Type 0 where
  pub header : Bytes
  pub sized : length header ≡ 8
  pub rest_kept : relayed ≡ header ++ drop 8 frame
  pub foreign : frame_header c k_s2c relayed ≢ zero_header

abbrev pub AllRelayed : Crypto → Bytes → List Bytes → List Bytes → Type 0
AllRelayed c k_s2c [] [] = Unit
AllRelayed c k_s2c (f ∷ fs) (r ∷ rs) = Relayed c k_s2c f r × AllRelayed c k_s2c fs rs
AllRelayed c k_s2c _ _ = ⊥

-- The chunks, each with a nonce of its own.
abbrev pub with_nonces : (ℕ → Bytes) → ℕ → List Bytes → List (Bytes × Bytes)
with_nonces nonce i [] = []
with_nonces nonce i (chunk ∷ rest) = (nonce i, chunk) ∷ with_nonces nonce (i + 1) rest

with_nonces-chunks :
    (nonce : ℕ → Bytes) (i : ℕ) (chunks : List Bytes)
    → map (λ s. s.1) (with_nonces nonce i chunks) ≡ chunks
with_nonces-chunks nonce i [] = refl
with_nonces-chunks nonce i (chunk ∷ rest) = ap (◌∷◌ chunk) (with_nonces-chunks nonce (i + 1) rest)

with_nonces-All :
    (nonce : ℕ → Bytes) (i : ℕ) (chunks : List Bytes)
    → ((k : ℕ) → length (nonce k) ≡ 24)
    → All (λ chunk. chunk ≢ []) chunks
    → All (λ s. (length s.0 ≡ 24) × (s.1 ≢ [])) (with_nonces nonce i chunks)
with_nonces-All nonce i [] n h = tt
with_nonces-All nonce i (chunk ∷ rest) n h = ((n i, h.0), with_nonces-All nonce (i + 1) rest n h.1)

module _ {c : Crypto} (laws : CryptoLaws c) (me you : Identity) (peer origin : Peer)
    (k_c2s k_s2c : Bytes) (bridged : AreBridged c me peer you origin) where
  serial_incoming-Relayed :
      (nonce chunk relayed : Bytes)
      → length nonce ≡ 24
      → chunk ≢ []
      → Relayed c k_s2c (serial_frame c nonce me peer k_c2s chunk) relayed
      → serial_incoming c you origin k_s2c relayed ≡ some chunk
  unfolding serial_frame pack_inner
  serial_incoming-Relayed nonce chunk relayed n ne r =
      (serial_incoming_iff c you origin k_s2c relayed chunk).1 (record {
        id_low = 0;
        id_high = 0;
        some_bytes = ne;
        long =
            rw r.rest_kept
              (omega (arith, length-append r.header packet, r.sized, length-IsEnvelope sealed));
        not_server = r.foreign;
        sealed = rw rest sealed;
      })
    where
      packet : Bytes
      packet = drop 8 (serial_frame c nonce me peer k_c2s chunk)

      rest : drop 8 relayed ≡ packet
      rest = rw r.rest_kept (drop-append 8 r.header packet r.sized)

      opens :
          verify_and_decrypt c packet you.x_priv origin.x_pub origin.ed_pub
          ≡ some (pack_inner 0 cmd_serial_data chunk)
      opens =
          rw (bridged.to_you.0, bridged.to_you.1, bridged.from_me.0, bridged.from_me.1)
            (build_peer_frame-routes laws me you bridged.mine bridged.yours nonce k_c2s
              (pack_inner 0 cmd_serial_data chunk) n (length-id laws you bridged.yours)).1

      sealed :
          IsEnvelope c packet you.x_priv origin.x_pub origin.ed_pub
            (pack_inner 0 cmd_serial_data chunk)
      sealed = (verify_and_decrypt_iff c you.x_priv origin.x_pub origin.ed_pub packet _).0 opens

  -- Each chunk under its nonce.
  chunks_of-frames_of :
      (sent : List (Bytes × Bytes)) (relayed : List Bytes)
      → All (λ s. (length s.0 ≡ 24) × (s.1 ≢ [])) sent
      → AllRelayed c k_s2c (frames_of c me peer k_c2s sent) relayed
      → chunks_of c you origin k_s2c relayed ≡ map (λ s. s.1) sent
  unfolding chunks_of frames_of
  chunks_of-frames_of [] [] h r = refl
  chunks_of-frames_of ((nonce, chunk) ∷ rest) (f ∷ fs) h r =
      rw (serial_incoming-Relayed nonce chunk f h.0.0 h.0.1 r.0, forward)
        (ap (◌∷◌ chunk) (chunks_of-frames_of rest fs h.1 r.1))
  chunks_of-frames_of [] (f ∷ fs) h r = absurd r
  chunks_of-frames_of ((nonce, chunk) ∷ rest) [] h r = absurd r

  -- From device to device, for two bridges with each other as peers, crates that keep their laws,
  -- nonces of 24 bytes, and a relay that passes every frame on in order, with a header of 8 bytes of
  -- its own that does not unmask to zero: a device that takes every write is given exactly the bytes
  -- that the reads of the other returned before their end or a failure that is not retried.
  pub written-read :
      (rs : List ReadResult) (nonce : ℕ → Bytes) (relayed : List Bytes)
      → ((k : ℕ) → length (nonce k) ≡ 24)
      → AllRelayed c k_s2c
          (frames_of c me peer k_c2s (with_nonces nonce 0 (device_read_loop rs)))
          relayed
      → let chunks = chunks_of c you origin k_s2c relayed in
        device_write_loop chunks (taking chunks) ≡ read_bytes rs
  written-read rs nonce relayed n r =
      device_write_loop-joined (chunks_of c you origin k_s2c relayed)
      ∙ ap joined (
          chunks_of-frames_of (with_nonces nonce 0 (device_read_loop rs)) relayed
            (with_nonces-All nonce 0 (device_read_loop rs) n (device_read_loop-nonempty rs)) r
          ∙ with_nonces-chunks nonce 0 (device_read_loop rs))
      ∙ device_read_loop-joined rs
