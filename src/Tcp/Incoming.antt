-- ===== src/Tcp/Incoming.antt =====
-- src/tcp.rs: `Ctx::send_peer` and `handle_incoming`, between the bytes on the websocket and the
-- commands of the tunnel.
use ws_usb_linux.Base.{
  ℕ, ◌+◌, ◌≤◌, ◌≡◌, ◌≢◌, inl, inr, refl, ap, ◌↔◌, Bool, false, Option, none, some, ◌∷◌, ◌++◌,
  length, drop, ltb, ltb-false, list_eq, list_eq_iff, list_eq-false, if◌then◌else◌, Option-cases,
  arith, Bytes, drop-append, length-append,
}
use ws_usb_linux.Crypto.{Crypto, CryptoLaws}
use ws_usb_linux.Proto.{Identity, Peer, pack_inner}
use ws_usb_linux.Proto.Envelope.{
  verify_and_decrypt, IsEnvelope, verify_and_decrypt_iff, IsIdentity, length-IsEnvelope, length-id,
}
use ws_usb_linux.Proto.Frames.{build_peer_frame, frame_header, zero_header, build_peer_frame-routes}
use ws_usb_linux.Tcp.{Tunnel, dispatch}

-- The part of the shared context that a frame is built and opened with.
pub record Ctx : Type 0 where
  pub me : Identity
  pub peer : Peer
  pub k_c2s : Bytes

unfoldable pub peer_frame : Crypto → Bytes → Ctx → ℕ → Bytes → Bytes
peer_frame c nonce ctx cmd body =
    build_peer_frame c nonce ctx.me ctx.peer.x_pub ctx.peer.id ctx.k_c2s (pack_inner 0 cmd body)

-- `cmd = inner[2]`, `body = inner[3..]`, `conn_id = body[0]` and `body[1..]`.
unfoldable pub split_inner : Bytes → Option (ℕ × ℕ × Bytes)
split_inner (_ ∷ (_ ∷ (cmd ∷ (conn_id ∷ payload)))) = some (cmd, conn_id, payload)
split_inner _ = none

split_opened : Option Bytes → Option (ℕ × ℕ × Bytes)
split_opened none = none
split_opened (some inner) = split_inner inner

-- The guards of `handle_incoming` up to its `match cmd`.
unfoldable pub incoming_command : Crypto → Ctx → Bytes → Bytes → Option (ℕ × ℕ × Bytes)
unfolding split_opened
incoming_command c ctx k_s2c frame =
    if ltb (length frame) (8 + 24 + 16 + 64)
    then none
    else if list_eq (frame_header c k_s2c frame) zero_header
    then none
    else split_opened
        (verify_and_decrypt c (drop 8 frame) ctx.me.x_priv ctx.peer.x_pub ctx.peer.ed_pub)

act : Bool → Tunnel → Option (ℕ × ℕ × Bytes) → Tunnel
act dials s none = s
act dials s (some (cmd, conn_id, payload)) = dispatch dials s cmd conn_id payload

unfoldable pub handle_incoming : Crypto → Ctx → Bytes → Bool → Bytes → Tunnel → Tunnel
unfolding act
handle_incoming c ctx k_s2c dials frame s = act dials s (incoming_command c ctx k_s2c frame)

-- A frame that carries this command, signed by the configured peer and sealed for us.
pub record Carries (c : Crypto) (ctx : Ctx) (k_s2c frame : Bytes) (cmd conn_id : ℕ)
    (payload : Bytes) : Type 0 where
  pub id_low : ℕ
  pub id_high : ℕ
  pub long : 8 + 24 + 16 + 64 ≤ length frame
  pub not_server : frame_header c k_s2c frame ≢ zero_header
  pub sealed :
      IsEnvelope c
        (drop 8 frame)
        ctx.me.x_priv
        ctx.peer.x_pub
        ctx.peer.ed_pub
        (id_low ∷ id_high ∷ cmd ∷ conn_id ∷ payload)

split_inner-eq_some :
    (inner : Bytes) (cmd conn_id : ℕ) (payload : Bytes)
    → split_inner inner ≡ some (cmd, conn_id, payload)
    → (a : ℕ) × (b : ℕ) × (inner ≡ a ∷ b ∷ cmd ∷ conn_id ∷ payload)
unfolding split_inner
split_inner-eq_some (a ∷ (b ∷ (cmd' ∷ (conn_id' ∷ payload')))) cmd conn_id payload e =
    (a, b, ground arith)
split_inner-eq_some _ cmd conn_id payload e = absurd (cc)

split_opened-eq_some :
    (o : Option Bytes) (cmd conn_id : ℕ) (payload : Bytes)
    → split_opened o ≡ some (cmd, conn_id, payload)
    → (a : ℕ) × (b : ℕ) × (o ≡ some (a ∷ b ∷ cmd ∷ conn_id ∷ payload))
unfolding split_opened
split_opened-eq_some none cmd conn_id payload e = absurd (cc)
split_opened-eq_some (some inner) cmd conn_id payload e =
    let (a, b, q) = split_inner-eq_some inner cmd conn_id payload e in (a, b, ap some q)

module _ (c : Crypto) (ctx : Ctx) (k_s2c frame : Bytes) (cmd conn_id : ℕ) (payload : Bytes) where
  abbrev opened : Option Bytes
  opened = verify_and_decrypt c (drop 8 frame) ctx.me.x_priv ctx.peer.x_pub ctx.peer.ed_pub

  Carries-of_incoming_command :
      incoming_command c ctx k_s2c frame ≡ some (cmd, conn_id, payload)
      → Carries c ctx k_s2c frame cmd conn_id payload
  unfolding incoming_command
  Carries-of_incoming_command h =
      let (a, b, q) = split_opened-eq_some opened cmd conn_id payload (ground arith) in
      record {
        id_low = a;
        id_high = b;
        long = ground arith;
        not_server = λ z. cc ((list_eq_iff (frame_header c k_s2c frame) zero_header).1 z, not_zero);
        sealed =
            (verify_and_decrypt_iff c ctx.me.x_priv ctx.peer.x_pub ctx.peer.ed_pub (drop 8 frame)
                _).0
              q;
      }
    where
      not_zero : list_eq (frame_header c k_s2c frame) zero_header ≡ false
      not_zero = ground arith

  incoming_command-of_Carries :
      Carries c ctx k_s2c frame cmd conn_id payload
      → incoming_command c ctx k_s2c frame ≡ some (cmd, conn_id, payload)
  unfolding incoming_command split_inner
  incoming_command-of_Carries k = rw (ltb-false (length frame) 112 k.long) (
      rw (list_eq-false (frame_header c k_s2c frame) zero_header k.not_server) (
        rw
          ((verify_and_decrypt_iff c ctx.me.x_priv ctx.peer.x_pub ctx.peer.ed_pub (drop 8 frame)
              _).1
            k.sealed)
          refl))

  -- handle_incoming gets as far as a command with its conn_id and payload exactly when the frame
  -- is at least 112 bytes long, its header does not unmask to zero, and what is behind the header
  -- is an envelope of the configured peer whose plaintext is two bytes, the command, the conn_id
  -- and the payload.
  pub incoming_command_iff :
      (incoming_command c ctx k_s2c frame ≡ some (cmd, conn_id, payload))
      ↔ Carries c ctx k_s2c frame cmd conn_id payload
  incoming_command_iff = (Carries-of_incoming_command, incoming_command-of_Carries)

-- A frame that, behind its header, is not an envelope of the configured peer for any plaintext
-- leaves the tunnel as it was.
pub handle_incoming-unsigned :
    (c : Crypto) (ctx : Ctx) (k_s2c frame : Bytes) (dials : Bool) (s : Tunnel)
    → ((plain : Bytes)
        → ¬ IsEnvelope c (drop 8 frame) ctx.me.x_priv ctx.peer.x_pub ctx.peer.ed_pub plain)
    → handle_incoming c ctx k_s2c dials frame s ≡ s
unfolding handle_incoming
handle_incoming-unsigned c ctx k_s2c frame dials s unsigned =
    elim (Option-cases (incoming_command c ctx k_s2c frame)) [
      | inl e ↦ rw (e, handle_incoming) refl
      | inr ((cmd, conn_id, payload), e) ↦
          absurd (
            unsigned _ (Carries-of_incoming_command c ctx k_s2c frame cmd conn_id payload e).sealed)
    ]

-- Two ends of a tunnel: the peer of each is the other.
pub record ArePeers (c : Crypto) (a b : Ctx) : Type 0 where
  pub a_paired : IsIdentity c a.me
  pub b_paired : IsIdentity c b.me
  pub a_peer : (a.peer.x_pub ≡ b.me.x_pub) × (a.peer.id ≡ b.me.id)
  pub b_peer : (b.peer.x_pub ≡ a.me.x_pub) × (b.peer.ed_pub ≡ a.me.ed_pub)

-- Under the laws of the crates, for two ends that have each other as peers, a nonce of 24 bytes,
-- and a header of 8 bytes that the relay puts in place of the sender's and that does not unmask to
-- zero: what one end sends as a command, the other reads as that command, conn_id and payload.
pub incoming_command-peer_frame :
    {c : Crypto} (laws : CryptoLaws c) (a b : Ctx) (nonce k_s2c header frame : Bytes)
    (cmd conn_id : ℕ) (payload : Bytes)
    → ArePeers c a b
    → length nonce ≡ 24
    → length header ≡ 8
    → frame ≡ header ++ drop 8 (peer_frame c nonce a cmd (conn_id ∷ payload))
    → frame_header c k_s2c frame ≢ zero_header
    → incoming_command c b k_s2c frame ≡ some (cmd, conn_id, payload)
unfolding peer_frame pack_inner
incoming_command-peer_frame {c} laws a b nonce k_s2c header frame cmd conn_id payload p n h e
      foreign =
    (incoming_command_iff c b k_s2c frame cmd conn_id payload).1 (record {
      id_low = 0;
      id_high = 0;
      long = rw e (omega (arith, length-append header packet, length-IsEnvelope sealed_packet));
      not_server = foreign;
      sealed = rw rest sealed_packet;
    })
  where
    packet : Bytes
    packet = drop 8 (peer_frame c nonce a cmd (conn_id ∷ payload))

    rest : drop 8 frame ≡ packet
    rest = rw e (drop-append 8 header packet h)

    inner : Bytes
    inner = pack_inner 0 cmd (conn_id ∷ payload)

    opens : verify_and_decrypt c packet b.me.x_priv b.peer.x_pub b.peer.ed_pub ≡ some inner
    opens =
        rw (p.a_peer.0, p.a_peer.1, p.b_peer.0, p.b_peer.1)
          (build_peer_frame-routes laws a.me b.me p.a_paired p.b_paired nonce a.k_c2s inner n
            (length-id laws b.me p.b_paired)).1

    sealed_packet : IsEnvelope c packet b.me.x_priv b.peer.x_pub b.peer.ed_pub inner
    sealed_packet =
        (verify_and_decrypt_iff c b.me.x_priv b.peer.x_pub b.peer.ed_pub packet inner).0 opens
