-- ===== src/Relay/Bootstrap.antt =====
-- src/relay.rs: when a session comes up, and what the relay reads of its first frames.
use ws_usb_linux.Base.{
  ℕ, ◌+◌, ◌%◌, ◌<◌, ◌≤◌, ◌≡◌, ◌↔◌, refl, ap, subst, Bool, true, false, Option, none, some, ◌∷◌,
  ◌++◌, length, drop, arith, Bytes,
}
use ws_usb_linux.Base.Text.{Text}
use ws_usb_linux.Base.Utf8.{as_bytes}
use ws_usb_linux.Crypto.{Crypto, CryptoLaws}
use ws_usb_linux.Proto.{Identity, Peer, pack_inner, derive_session}
use ws_usb_linux.Proto.Envelope.{IsIdentity, IsEnvelope}
use ws_usb_linux.Proto.Frames.{
  decode_server_frame, frame_header, zero_header, decode_server_frame_iff,
  decode_server_frame-build_server_bound,
}
use ws_usb_linux.Relay.{
  Relay, is_handshake_ok, replied, connect_and_handshake, introduce_and_subscribe,
}

-- A frame that the configured server signed and sealed for us, with the command HANDSHAKE_OK.
pub record Confirms (c : Crypto) (relay : Relay) (me : Identity) (k_s2c frame : Bytes)
    : Type 0 where
  pub id_low : ℕ
  pub id_high : ℕ
  pub body : Bytes
  pub long : 8 + 24 + 16 + 64 ≤ length frame
  pub from_server : frame_header c k_s2c frame ≡ zero_header
  pub sealed :
      IsEnvelope c
        (drop 8 frame)
        me.x_priv
        relay.server_x_pub
        relay.server_ed_vk
        (id_low ∷ id_high ∷ 0x02 ∷ body)

is_handshake_ok-true :
    (o : Option Bytes)
    → is_handshake_ok o ≡ true
    → (a : ℕ) × (b : ℕ) × (body : Bytes) × (o ≡ some (a ∷ b ∷ 0x02 ∷ body))
unfolding is_handshake_ok
is_handshake_ok-true (some (a ∷ (b ∷ (cmd ∷ body)))) h = (a, b, body, ground arith)
is_handshake_ok-true _ h = absurd (cc)

module _ (c : Crypto) (nonce : Bytes) (relay : Relay) (me : Identity) (k_s2c : Bytes) where
  replied_iff :
      (frame : Bytes)
      → (replied c me relay k_s2c (some frame) ≡ true) ↔ Confirms c relay me k_s2c frame
  unfolding replied is_handshake_ok
  replied_iff frame = (
    λ h.
        let (a, b, body, e) = is_handshake_ok-true _ h in
        let (long, zero, sealed) =
          (decode_server_frame_iff c frame k_s2c me.x_priv relay.server_x_pub relay.server_ed_vk
              _).0
            e in
        record {
          id_low = a;
          id_high = b;
          body = body;
          long = long;
          from_server = zero;
          sealed = sealed;
        },
    λ k.
        rw
          ((decode_server_frame_iff c frame k_s2c me.x_priv relay.server_x_pub relay.server_ed_vk
              _).1
            (k.long, k.from_server, k.sealed))
          refl,
  )

  -- A session comes up exactly when the connection is made, the handshake is sent, and the next
  -- message is binary and is a frame of at least 112 bytes whose header unmasks to zero and which is
  -- behind it an envelope of the configured server with the command 2.
  pub connect_and_handshake_iff :
      (connects sends : Bool) (reply : Option Bytes)
      → ((connect_and_handshake c nonce relay me k_s2c connects sends reply).0 ≡ true) ↔ (
          (connects ≡ true)
          × (sends ≡ true)
          × ((frame : Bytes) × (reply ≡ some frame) × Confirms c relay me k_s2c frame))
  unfolding connect_and_handshake
  connect_and_handshake_iff false sends reply = ((λ h. absurd (cc)), (λ p. absurd (cc (p.0))))
  connect_and_handshake_iff true false reply = ((λ h. absurd (cc)), (λ p. absurd (cc (p.1))))
  connect_and_handshake_iff true true none =
      ((λ h. absurd (unfold replied in cc)), (λ p. absurd (cc (p.2.1))))
  connect_and_handshake_iff true true (some b) = (
    λ h. (refl, refl, (b, refl, (replied_iff b).0 h)),
    λ p. (replied_iff b).1 (subst (Confirms c relay me k_s2c) {x = p.2.0} (ground arith) p.2.2),
  )

module _ {c : Crypto} (laws : CryptoLaws c) where
  -- Under the law of X25519, two identities derive the same two route keys from each other's public keys.
  pub derive_session-agree :
      (me server : Identity)
      → IsIdentity c me
      → IsIdentity c server
      → derive_session c (c.x25519 me.x_priv server.x_pub)
        ≡ derive_session c (c.x25519 server.x_priv me.x_pub)
  derive_session-agree me server mine theirs =
      ap (derive_session c)
        (rw (mine.x_pub_is, theirs.x_pub_is) (laws.x25519_comm me.x_priv server.x_priv))

  -- Under the laws of the crates, for two identities with matching halves, the second of them the
  -- configured server's, nonces of 24 bytes and a sequence number below 65536: the server decodes the
  -- first frame to the introduction of the peer's id and the nick, under that number, and the second
  -- to the subscription to the peer's public key, under the next, and the number returned is two
  -- further on, all modulo 65536.
  pub introduce_and_subscribe_lem :
      (nonce nonce' : Bytes) (me server : Identity) (peer : Peer) (nick : Text) (relay : Relay)
      (k_c2s : Bytes) (seq : ℕ)
      → IsIdentity c me
      → IsIdentity c server
      → relay.server_x_pub ≡ server.x_pub
      → length nonce ≡ 24
      → length nonce' ≡ 24
      → seq < 65536
      → let (introduce, subscribe, next) =
          introduce_and_subscribe c nonce nonce' me peer nick relay k_c2s seq in
        (decode_server_frame c introduce k_c2s server.x_priv me.x_pub me.ed_pub
          ≡ some (pack_inner seq 0x46 (peer.id ++ as_bytes nick)))
        × (decode_server_frame c subscribe k_c2s server.x_priv me.x_pub me.ed_pub
            ≡ some (pack_inner ((seq + 1) % 65536) 0x40 peer.x_pub))
        × (next ≡ (seq + 2) % 65536)
  unfolding introduce_and_subscribe
  introduce_and_subscribe_lem nonce nonce' me server peer nick relay k_c2s seq mine theirs r n n'
        small =
      (
        rw r (decode_server_frame-build_server_bound laws me server mine theirs nonce k_c2s _ n),
        rw r (decode_server_frame-build_server_bound laws me server mine theirs nonce' k_c2s _ n'),
        omega arith,
      )
