-- ===== src/Tests/Startups.antt =====
-- src/tcp.rs: two ends that have exchanged their invites.
use ws_usb_linux.Base.{
  ◌≡◌, ◌≢◌, refl, ap, true, false, none, some, [], ◌∷◌, ◌++◌, replicate, take, drop, append-nil,
  Bytes,
}
use ws_usb_linux.Base.Text.{Text, codes}
use ws_usb_linux.Base.Result.{ok}
use ws_usb_linux.Proto.{Identity, xor_header, derive_session}
use ws_usb_linux.Proto.Frames.{frame_header, zero_header}
use ws_usb_linux.Proto.Envelope.{IsIdentity}
use ws_usb_linux.Proto.Invite.{decode_qr, make_qr, as_peer, decode_qr-make_qr}
use ws_usb_linux.Relay.{Relay}
use ws_usb_linux.Tcp.Incoming.{peer_frame, incoming_command}
use ws_usb_linux.Tcp.Startup.{
  Started, started, build_ctx, run_tcp_listen, run_tcp_connect, has_port, exchanged_invites,
}
use ws_usb_linux.Tests.Toy.{toy, toy_laws}
use ws_usb_linux.Tests.Packets.{alice, bob, alice_paired, bob_paired, nonce, nick, nick-IsText}

abbrev relay : Relay
relay = record {
  ws_url = codes "ws://localhost";
  server_x_pub = replicate 32 21;
  server_ed_vk = replicate 32 22;
}

abbrev target : Text
target = codes "localhost:22"

abbrev home : Started
home = started toy relay alice (as_peer bob nick) none

abbrev gate : Started
gate = started toy relay bob (as_peer alice nick) (some target)

invited :
    (me : Identity) → IsIdentity toy me → decode_qr toy (make_qr toy me nick) ≡ ok (as_peer me nick)
invited me paired =
    rw append-nil at (decode_qr-make_qr toy_laws me paired [] [] nick tt tt nick-IsText)

listens : run_tcp_listen toy relay (ok (alice, true)) true (as_peer bob nick) ≡ ok home
unfolding run_tcp_listen
listens = refl

connects : run_tcp_connect toy relay (ok (bob, false)) target (as_peer alice nick) ≡ ok gate
unfolding run_tcp_connect has_port
connects = refl

-- The relay puts a header of its own before what is behind the sender's.
abbrev passed_on : Bytes → Bytes
passed_on frame = replicate 8 0 ++ drop 8 frame

abbrev there : Bytes
there = passed_on (peer_frame toy nonce home.ctx 51 (7 ∷ 200 ∷ []))

abbrev back : Bytes
back = passed_on (peer_frame toy nonce gate.ctx 51 (7 ∷ 200 ∷ []))

there_foreign : frame_header toy gate.k_s2c there ≢ zero_header
unfolding xor_header started build_ctx derive_session
there_foreign e = absurd (cc (ap (take 1) e))

back_foreign : frame_header toy home.k_s2c back ≢ zero_header
unfolding xor_header started build_ctx derive_session
back_foreign e = absurd (cc (ap (take 1) e))

exchanged_invites_example :
    (home.dial_target ≡ none)
    × (gate.dial_target ≡ some target)
    × (incoming_command toy gate.ctx gate.k_s2c there ≡ some (51, 7, 200 ∷ []))
    × (incoming_command toy home.ctx home.k_s2c back ≡ some (51, 7, 200 ∷ []))
exchanged_invites_example =
    exchanged_invites toy_laws relay relay alice bob nick nick (as_peer bob nick)
      (as_peer alice nick) target home gate alice_paired bob_paired nick-IsText nick-IsText
      (invited bob bob_paired) (invited alice alice_paired) true false true listens connects nonce
      (replicate 8 0) there nonce (replicate 8 0) back 51 7 (200 ∷ []) refl refl refl there_foreign
      refl refl refl back_foreign
