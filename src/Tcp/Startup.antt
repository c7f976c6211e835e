-- ===== src/Tcp/Startup.antt =====
-- src/tcp.rs: `build_ctx`, and `run_tcp_listen`, `run_tcp_connect` and `run_tcp_connect_accept` up to
-- the session loop. What the identity file gives is an argument, and so is whether the port could be
-- bound.
use ws_usb_linux.Base.{
  ℕ, ◌≡◌, ◌≢◌, sym, ap, subst, ◌∙◌, Bool, false, ◌||◌, Option, none, some, List, [], ◌∷◌, ◌++◌,
  length, drop, ◌==◌, if◌then◌else◌, append-nil, Bool-cases, inl, inr, Bytes,
}
use ws_usb_linux.Base.Text.{Text}
use ws_usb_linux.Base.Utf8.{IsText}
use ws_usb_linux.Base.Result.{Result, ok, err, io_error, bad_target}
use ws_usb_linux.Crypto.{Crypto, CryptoLaws}
use ws_usb_linux.Proto.{Identity, Peer, derive_session}
use ws_usb_linux.Proto.Envelope.{IsIdentity}
use ws_usb_linux.Proto.Frames.{frame_header, zero_header}
use ws_usb_linux.Proto.Invite.{decode_qr, make_qr, as_peer, decode_qr-make_qr}
use ws_usb_linux.Authorized.{File}
use ws_usb_linux.Relay.{Relay}
use ws_usb_linux.Tcp.Incoming.{
  Ctx, peer_frame, incoming_command, ArePeers, incoming_command-peer_frame,
}
use ws_usb_linux.Tcp.Waiting.{Arrival, await_initiator}

-- What the session loop is called with.
pub record Started : Type 0 where
  pub ctx : Ctx
  pub k_s2c : Bytes
  pub dial_target : Option Text

unfoldable pub build_ctx : Crypto → Relay → Identity → Peer → Ctx × Bytes
build_ctx c relay me peer =
    let (k_c2s, k_s2c) = derive_session c (c.x25519 me.x_priv relay.server_x_pub) in
    (record { me = me; peer = peer; k_c2s = k_c2s }, k_s2c)

unfoldable pub started : Crypto → Relay → Identity → Peer → Option Text → Started
unfolding build_ctx
started c relay me peer target =
    let (ctx, k_s2c) = build_ctx c relay me peer in
    record { ctx = ctx; k_s2c = k_s2c; dial_target = target }

unfoldable pub run_tcp_listen :
    Crypto → Relay → Result (Identity × Bool) → Bool → Peer → Result Started
unfolding started
run_tcp_listen c relay (err e) bound peer = err e
run_tcp_listen c relay (ok (me, created)) bound peer =
    if bound then ok (started c relay me peer none) else err io_error

-- `target.rsplit_once(':').is_some()`
unfoldable pub has_port : Text → Bool
has_port [] = false
has_port (d ∷ s) = d == b':' || has_port s

unfoldable pub run_tcp_connect :
    Crypto → Relay → Result (Identity × Bool) → Text → Peer → Result Started
unfolding started
run_tcp_connect c relay (err e) target peer = err e
run_tcp_connect c relay (ok (me, created)) target peer =
    if has_port target then ok (started c relay me peer (some target)) else err bad_target

-- `none` while no initiator has been taken.
accepted : Crypto → Relay → Identity → Text → Option (Peer × File) → Option (Started × File)
accepted c relay me target none = none
accepted c relay me target (some (peer, file)) = some (started c relay me peer (some target), file)

-- The binary messages that come are an argument, each with the table file as it stands then; the
-- file that is left comes with the start.
unfoldable pub run_tcp_connect_accept :
    Crypto
    → Bool
    → Relay
    → Result (Identity × Bool)
    → Text
    → List Arrival
    → Result (Option (Started × File))
unfolding accepted started
run_tcp_connect_accept c no_pinning relay (err e) target arrivals = err e
run_tcp_connect_accept c no_pinning relay (ok (me, created)) target arrivals =
    let k_s2c = (derive_session c (c.x25519 me.x_priv relay.server_x_pub)).1 in
    if has_port target
    then ok (accepted c relay me target (await_initiator c no_pinning me relay k_s2c arrivals))
    else err bad_target

-- An end that was started for the peer of an invite.
decoded_peer :
    {c : Crypto} (laws : CryptoLaws c) (me : Identity) (nick : Text) (peer : Peer)
    → IsIdentity c me
    → IsText nick
    → decode_qr c (make_qr c me nick) ≡ ok peer
    → as_peer me nick ≡ peer
decoded_peer {c} laws me nick peer paired t e =
    let decoded : decode_qr c (make_qr c me nick) ≡ ok (as_peer me nick) =
      rw append-nil at (decode_qr-make_qr laws me paired [] [] nick tt tt t) in
    let same : ok (as_peer me nick) ≡ ok peer = sym decoded ∙ e in cc (same)

module _ {c : Crypto} (laws : CryptoLaws c) (relay relay' : Relay) (me other : Identity)
    (nick nick' : Text) (peer peer' : Peer) (target : Text) (home gate : Started)
    (paired : IsIdentity c me) (other_paired : IsIdentity c other) (text : IsText nick)
    (other_text : IsText nick') (invited : decode_qr c (make_qr c other nick') ≡ ok peer)
    (other_invited : decode_qr c (make_qr c me nick) ≡ ok peer') (created created' bound : Bool)
    (listens : run_tcp_listen c relay (ok (me, created)) bound peer ≡ ok home)
    (connects : run_tcp_connect c relay' (ok (other, created')) target peer' ≡ ok gate) where
  home_is : started c relay me peer none ≡ home
  unfolding run_tcp_listen
  home_is = elim (Bool-cases bound) [
    | inl free ↦ cc (rw (free, run_tcp_listen) at listens)
    | inr busy ↦ absurd (cc (rw (busy, run_tcp_listen) at listens))
  ]

  gate_is : started c relay' other peer' (some target) ≡ gate
  unfolding run_tcp_connect
  gate_is = elim (Bool-cases (has_port target)) [
    | inl valid ↦ cc (rw (valid, run_tcp_connect) at connects)
    | inr bad ↦ absurd (cc (rw (bad, run_tcp_connect) at connects))
  ]

  ends :
      (home.ctx.me ≡ me)
      × (home.ctx.peer ≡ as_peer other nick')
      × (gate.ctx.me ≡ other)
      × (gate.ctx.peer ≡ as_peer me nick)
  unfolding started build_ctx
  ends = (
    sym (ap (λ z. z.ctx.me) home_is),
    sym (ap (λ z. z.ctx.peer) home_is)
        ∙ sym (decoded_peer laws other nick' peer other_paired other_text invited),
    sym (ap (λ z. z.ctx.me) gate_is),
    sym (ap (λ z. z.ctx.peer) gate_is)
        ∙ sym (decoded_peer laws me nick peer' paired text other_invited),
  )

  home_paired : IsIdentity c home.ctx.me
  home_paired = subst (IsIdentity c) (sym ends.0) paired

  gate_paired : IsIdentity c gate.ctx.me
  gate_paired = subst (IsIdentity c) (sym ends.2) other_paired

  outbound : ArePeers c home.ctx gate.ctx
  outbound = record {
    a_paired = home_paired;
    b_paired = gate_paired;
    a_peer = (
      ap (λ p. p.x_pub) ends.1 ∙ sym (ap (λ m. m.x_pub) ends.2),
      ap (λ p. p.id) ends.1 ∙ sym (ap (λ m. m.id) ends.2),
    );
    b_peer = (
      ap (λ p. p.x_pub) ends.3 ∙ sym (ap (λ m. m.x_pub) ends.0),
      ap (λ p. p.ed_pub) ends.3 ∙ sym (ap (λ m. m.ed_pub) ends.0),
    );
  }

  inbound : ArePeers c gate.ctx home.ctx
  inbound = record {
    a_paired = gate_paired;
    b_paired = home_paired;
    a_peer = (
      ap (λ p. p.x_pub) ends.3 ∙ sym (ap (λ m. m.x_pub) ends.0),
      ap (λ p. p.id) ends.3 ∙ sym (ap (λ m. m.id) ends.0),
    );
    b_peer = (
      ap (λ p. p.x_pub) ends.1 ∙ sym (ap (λ m. m.x_pub) ends.2),
      ap (λ p. p.ed_pub) ends.1 ∙ sym (ap (λ m. m.ed_pub) ends.2),
    );
  }

  -- Under the laws of the crates, for two identities with matching halves that have exchanged their
  -- invites, with nicks of Unicode scalar values: when `run_tcp_listen` with the one invite and
  -- `run_tcp_connect` with the other come to their session loops, the first dials nothing and the
  -- second its target, and what either end sends as a command under a nonce of 24 bytes, the other
  -- reads as that command, conn_id and payload, when the relay passes the frame on with a header of 8
  -- bytes of its own that does not unmask to zero.
  pub exchanged_invites :
      (nonce header frame nonce' header' frame' : Bytes) (cmd conn_id : ℕ) (payload : Bytes)
      → length nonce ≡ 24
      → length header ≡ 8
      → frame ≡ header ++ drop 8 (peer_frame c nonce home.ctx cmd (conn_id ∷ payload))
      → frame_header c gate.k_s2c frame ≢ zero_header
      → length nonce' ≡ 24
      → length header' ≡ 8
      → frame' ≡ header' ++ drop 8 (peer_frame c nonce' gate.ctx cmd (conn_id ∷ payload))
      → frame_header c home.k_s2c frame' ≢ zero_header
      → (home.dial_target ≡ none)
        × (gate.dial_target ≡ some target)
        × (incoming_command c gate.ctx gate.k_s2c frame ≡ some (cmd, conn_id, payload))
        × (incoming_command c home.ctx home.k_s2c frame' ≡ some (cmd, conn_id, payload))
  unfolding started
  exchanged_invites nonce header frame nonce' header' frame' cmd conn_id payload n h e foreign n' h'
        e' foreign' =
      (
        sym (ap (λ z. z.dial_target) home_is),
        sym (ap (λ z. z.dial_target) gate_is),
        incoming_command-peer_frame laws home.ctx gate.ctx nonce gate.k_s2c header frame cmd conn_id
            payload outbound n h e foreign,
        incoming_command-peer_frame laws gate.ctx home.ctx nonce' home.k_s2c header' frame' cmd
            conn_id payload inbound n' h' e' foreign',
      )
