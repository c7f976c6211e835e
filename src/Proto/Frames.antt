-- ===== src/Proto/Frames.antt =====
-- src/proto.rs: the frames on the websocket, a masked header of 8 bytes and an envelope.
use ws_usb_linux.Base.{
  ◌+◌, ◌≤◌, ◌≡◌, refl, ◌∙◌, ◌↔◌, not, Option, none, some, ◌++◌, ◌∷◌, [], length, take, drop,
  replicate, length-append, take-append, drop-append, list_eq, list_eq_iff, ltb, ltb-false,
  if◌then◌else◌, arith, Bytes,
}
use ws_usb_linux.Crypto.{Crypto, CryptoLaws}
use ws_usb_linux.Proto.{Identity, xor_header, pack_inner, protocol_version, cmd_handshake_request}
use ws_usb_linux.Proto.Envelope.{
  encrypt_and_sign, verify_and_decrypt, IsIdentity, verify_and_decrypt-encrypt_and_sign,
  verify_and_decrypt_iff, IsEnvelope, length-encrypt_and_sign,
}

abbrev pub zero_header : Bytes
zero_header = replicate 8 0

unfoldable pub build_handshake_request : Crypto → Bytes → Identity → Bytes → Bytes
build_handshake_request c nonce me server_x_pub =
    let body = me.ed_pub ++ protocol_version ∷ [] in
    let inner = pack_inner 0 cmd_handshake_request body in
    let packet = encrypt_and_sign c nonce inner me.x_priv me.ed server_x_pub in me.x_pub ++ packet

-- The header is the peer's id under the route key, so only the relay can read it.
unfoldable pub build_peer_frame : Crypto → Bytes → Identity → Bytes → Bytes → Bytes → Bytes → Bytes
build_peer_frame c nonce me peer_x_pub peer_id k_c2s inner =
    let packet = encrypt_and_sign c nonce inner me.x_priv me.ed peer_x_pub in
    let nonce_24 = take 24 packet in
    let header = xor_header c k_c2s nonce_24 peer_id in header ++ packet

unfoldable pub build_server_bound : Crypto → Bytes → Identity → Bytes → Bytes → Bytes → Bytes
build_server_bound c nonce me server_x_pub k_c2s inner =
    let packet = encrypt_and_sign c nonce inner me.x_priv me.ed server_x_pub in
    let nonce_24 = take 24 packet in
    let header = xor_header c k_c2s nonce_24 zero_header in header ++ packet

-- `nonce_24 = frame[8..32]` and `header = frame[..8]`, unmasked.
abbrev pub frame_header : Crypto → Bytes → Bytes → Bytes
frame_header c k_s2c frame = xor_header c k_s2c (take 24 (drop 8 frame)) (take 8 frame)

unfoldable pub decode_server_frame : Crypto → Bytes → Bytes → Bytes → Bytes → Bytes → Option Bytes
decode_server_frame c frame k_s2c my_x_priv server_x_pub server_ed =
    if ltb (length frame) (8 + 24 + 16 + 64)
    then none
    else if not (list_eq (frame_header c k_s2c frame) zero_header)
    then none
    else verify_and_decrypt c (drop 8 frame) my_x_priv server_x_pub server_ed

module _ (c : Crypto) (frame k_s2c my_x_priv server_x_pub server_ed : Bytes) where
  decode_server_frame-of_parts :
      8 + 24 + 16 + 64 ≤ length frame
      → frame_header c k_s2c frame ≡ zero_header
      → decode_server_frame c frame k_s2c my_x_priv server_x_pub server_ed
        ≡ verify_and_decrypt c (drop 8 frame) my_x_priv server_x_pub server_ed
  unfolding decode_server_frame
  decode_server_frame-of_parts long zero = rw (ltb-false (length frame) 112 long) (rw zero refl)

  -- A frame is taken for the server's exactly when it is long enough, its header unmasks to zero
  -- under the route key, and its packet is one that the server signed and sealed for us.
  pub decode_server_frame_iff :
      (plain : Bytes)
      → (decode_server_frame c frame k_s2c my_x_priv server_x_pub server_ed ≡ some plain) ↔ (
          (8 + 24 + 16 + 64 ≤ length frame)
          × (frame_header c k_s2c frame ≡ zero_header)
          × IsEnvelope c (drop 8 frame) my_x_priv server_x_pub server_ed plain)
  unfolding decode_server_frame
  decode_server_frame_iff plain = (
    λ h. (
      ground arith,
      (list_eq_iff (frame_header c k_s2c frame) zero_header).0 (ground arith),
      envelope.0 (ground arith),
    ),
    λ p. decode_server_frame-of_parts p.0 p.1 ∙ envelope.1 p.2,
  )
    where
      envelope :
          (verify_and_decrypt c (drop 8 frame) my_x_priv server_x_pub server_ed ≡ some plain)
          ↔ IsEnvelope c (drop 8 frame) my_x_priv server_x_pub server_ed plain
      envelope = verify_and_decrypt_iff c my_x_priv server_x_pub server_ed (drop 8 frame) plain

module _ {c : Crypto} (laws : CryptoLaws c) where
  length-xor_header : (key nonce h : Bytes) → length (xor_header c key nonce h) ≡ length h
  unfolding xor_header
  length-xor_header key nonce h = laws.length-keystream key (take 12 nonce) h

  xor_header_twice : (key nonce h : Bytes) → xor_header c key nonce (xor_header c key nonce h) ≡ h
  unfolding xor_header
  xor_header_twice key nonce h = laws.keystream_involutive key (take 12 nonce) h

  -- A header that was masked over a packet, as the other side cuts it off and unmasks it.
  masked_header :
      (key packet h : Bytes)
      → length h ≡ 8
      → let frame = xor_header c key (take 24 packet) h ++ packet in
        (frame_header c key frame ≡ h) × (drop 8 frame ≡ packet)
  masked_header key packet h n =
      let m = xor_header c key (take 24 packet) h in
      let sized : length m ≡ 8 = length-xor_header key (take 24 packet) h ∙ n in
      let rest : drop 8 (m ++ packet) ≡ packet = drop-append 8 m packet sized in
      (rw (rest, take-append 8 m packet sized) (xor_header_twice key (take 24 packet) h), rest)

  module _ (me them : Identity) (mine : IsIdentity c me) (theirs : IsIdentity c them) where
    -- Under the laws of the crates, for two identities with matching halves, a nonce of 24 bytes
    -- and an id of 8: the header of a peer frame unmasks under the sender's route key to the
    -- peer's id, and the peer opens the rest to the inner message.
    pub build_peer_frame-routes :
        (nonce k_c2s inner : Bytes)
        → length nonce ≡ 24
        → length them.id ≡ 8
        → let frame = build_peer_frame c nonce me them.x_pub them.id k_c2s inner in
          (frame_header c k_c2s frame ≡ them.id)
          × (verify_and_decrypt c (drop 8 frame) them.x_priv me.x_pub me.ed_pub ≡ some inner)
    unfolding build_peer_frame
    build_peer_frame-routes nonce k_c2s inner n i =
        let packet = encrypt_and_sign c nonce inner me.x_priv me.ed them.x_pub in
        let (named, rest) = masked_header k_c2s packet them.id i in
        (
          named,
          rw rest (verify_and_decrypt-encrypt_and_sign laws me them nonce inner mine theirs n),
        )

    -- Under the laws of the crates, for two identities with matching halves and a nonce of 24
    -- bytes: what one side builds as a server-bound frame, the other decodes as a server frame
    -- under the same route key, to the same inner message.
    pub decode_server_frame-build_server_bound :
        (nonce key inner : Bytes)
        → length nonce ≡ 24
        → decode_server_frame c
            (build_server_bound c nonce me them.x_pub key inner)
            key
            them.x_priv
            me.x_pub
            me.ed_pub
          ≡ some inner
    unfolding build_server_bound
    decode_server_frame-build_server_bound nonce key inner n =
        let packet = encrypt_and_sign c nonce inner me.x_priv me.ed them.x_pub in
        let m = xor_header c key (take 24 packet) zero_header in
        let (zero, rest) = masked_header key packet zero_header refl in
        let sized = length-encrypt_and_sign laws nonce inner me.x_priv me.ed them.x_pub in
        decode_server_frame-of_parts c (m ++ packet) key them.x_priv me.x_pub me.ed_pub
          (omega (
            arith,
            length-append m packet,
            length-xor_header key (take 24 packet) zero_header,
            sized,
          ))
          zero
        ∙ rw rest (verify_and_decrypt-encrypt_and_sign laws me them nonce inner mine theirs n)

    -- Under the laws of the crates, for two identities with matching halves, a nonce of 24 bytes
    -- and a public key of 32: the handshake begins with the sender's public key, and the receiver
    -- opens what is behind these 32 bytes to the handshake command with the sender's verifying key
    -- and the protocol version 2.
    build_handshake_request_lem :
        (nonce : Bytes)
        → length nonce ≡ 24
        → length me.x_pub ≡ 32
        → let frame = build_handshake_request c nonce me them.x_pub in
          (take 32 frame ≡ me.x_pub)
          × (verify_and_decrypt c (drop 32 frame) them.x_priv me.x_pub me.ed_pub
              ≡ some (0 ∷ 0 ∷ 1 ∷ (me.ed_pub ++ 2 ∷ [])))
    unfolding build_handshake_request pack_inner
    build_handshake_request_lem nonce n sized =
        let inner = pack_inner 0 cmd_handshake_request (me.ed_pub ++ protocol_version ∷ []) in
        let packet = encrypt_and_sign c nonce inner me.x_priv me.ed them.x_pub in
        (
          take-append 32 me.x_pub packet sized,
          rw (drop-append 32 me.x_pub packet sized)
              (verify_and_decrypt-encrypt_and_sign laws me them nonce inner mine theirs n),
        )
