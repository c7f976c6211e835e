-- ===== src/Tests/Sessions.antt =====
-- src/relay.rs, src/main.rs and src/stat.rs at concrete inputs.
use ws_usb_linux.Base.{
  append-nil, ◌∙◌, none, ◌+◌, ◌%◌, ◌≡◌, ◌≢◌, ◌↔◌, refl, ap, true, false, some, List, [], ◌∷◌, ◌++◌,
  replicate, take, drop, arith, Bytes,
}
use ws_usb_linux.Base.Text.{codes, is_whitespace}
use ws_usb_linux.Base.Utf8.{as_bytes}
use ws_usb_linux.Base.Result.{ok}
use ws_usb_linux.Proto.{from_seeds, pack_inner, xor_header}
use ws_usb_linux.Proto.Frames.{
  decode_server_frame-build_server_bound, build_server_bound, decode_server_frame, frame_header,
  zero_header,
}
use ws_usb_linux.Proto.Invite.{
  decode_intro_from, decode_intro_from-decode_qr, decode_qr-make_qr, as_peer, make_qr,
}
use ws_usb_linux.Authorized.{missing, unreadable, add, load, File, text, authorize_initiator}
use ws_usb_linux.Authorized.Table.{IsEntry, inked}
use ws_usb_linux.Authorized.Policy.{entry_for}
use ws_usb_linux.Relay.{Relay, connect_and_handshake, introduce_and_subscribe}
use ws_usb_linux.Relay.Bootstrap.{Confirms, connect_and_handshake_iff, introduce_and_subscribe_lem}
use ws_usb_linux.Serial.{
  serial_frame, ReadResult, got, timed_out, failed, device_read_loop, device_write_loop, frames_of,
  chunks_of,
}
use ws_usb_linux.Serial.Stream.{taking, with_nonces, Relayed, AllRelayed, written-read}
use ws_usb_linux.Cli.{authorize_invite}
use ws_usb_linux.Cli.Authorize.{authorize_invite-authorizes}
use ws_usb_linux.Tcp.Waiting.{
  intro_body, on_intro, Arrival, await_initiator, TakenAt, Any, await_initiator-taken,
}
use ws_usb_linux.Tests.Toy.{toy, toy_laws}
use ws_usb_linux.Tests.Packets.{
  alice, bob, alice_paired, bob_paired, nonce, route_key, nick, nick-IsText,
}

-- Bob is the server.
abbrev relay : Relay
relay = record {
  ws_url = codes "ws://localhost";
  server_x_pub = bob.x_pub;
  server_ed_vk = bob.ed_pub;
}

abbrev confirmation : Bytes
confirmation = build_server_bound toy nonce bob alice.x_pub route_key (0 ∷ 0 ∷ 2 ∷ [])

connect_and_handshake_iff_example :
    ((connect_and_handshake toy nonce relay alice route_key true true (some confirmation)).0 ≡ true)
    ↔ ((true ≡ true)
        × (true ≡ true)
        × ((frame : Bytes) × (some confirmation ≡ some frame)
            × Confirms toy relay alice route_key frame))
connect_and_handshake_iff_example =
    connect_and_handshake_iff toy nonce relay alice route_key true true (some confirmation)

introduce_and_subscribe_lem_example :
    let (introduce, subscribe, next) =
      introduce_and_subscribe toy nonce nonce alice (as_peer bob nick) nick relay route_key 65535 in
    (decode_server_frame toy introduce route_key bob.x_priv alice.x_pub alice.ed_pub
      ≡ some (pack_inner 65535 0x46 (bob.id ++ as_bytes nick)))
    × (decode_server_frame toy subscribe route_key bob.x_priv alice.x_pub alice.ed_pub
        ≡ some (pack_inner ((65535 + 1) % 65536) 0x40 bob.x_pub))
    × (next ≡ (65535 + 2) % 65536)
introduce_and_subscribe_lem_example =
    introduce_and_subscribe_lem toy_laws nonce nonce alice bob (as_peer bob nick) nick relay
      route_key 65535 alice_paired bob_paired refl refl refl (omega arith)

abbrev with_header : Bytes → Bytes
with_header frame = replicate 8 0 ++ drop 8 frame

foreign_header : (frame : Bytes) → frame_header toy route_key (with_header frame) ≢ zero_header
unfolding xor_header
foreign_header frame e = absurd (cc (ap (take 1) e))

-- Two reads with a timeout between them, and a failure at the end.
abbrev device : List ReadResult
device = got (65 ∷ 66 ∷ []) ∷ timed_out ∷ got (67 ∷ []) ∷ failed ∷ []

abbrev passed_on : List Bytes
passed_on =
    with_header (serial_frame toy nonce alice (as_peer bob []) route_key (65 ∷ 66 ∷ []))
    ∷ with_header (serial_frame toy nonce alice (as_peer bob []) route_key (67 ∷ []))
    ∷ []

Relayed-with_header : (frame : Bytes) → Relayed toy route_key frame (with_header frame)
Relayed-with_header frame = record {
  header = replicate 8 0;
  sized = refl;
  rest_kept = refl;
  foreign = foreign_header frame;
}

all_passed :
    AllRelayed toy route_key
      (frames_of toy alice
        (as_peer bob [])
        route_key
        (with_nonces (λ _. nonce) 0 (device_read_loop device)))
      passed_on
unfolding frames_of device_read_loop
all_passed = (Relayed-with_header _, (Relayed-with_header _, tt))

written-read_example :
    let chunks = chunks_of toy bob (as_peer alice []) route_key passed_on in
    device_write_loop chunks (taking chunks) ≡ 65 ∷ 66 ∷ 67 ∷ []
written-read_example =
    written-read toy_laws alice bob (as_peer bob []) (as_peer alice []) route_key route_key
      (record {
        mine = alice_paired;
        yours = bob_paired;
        to_you = (refl, refl);
        from_me = (refl, refl);
      })
      device (λ _. nonce) passed_on (λ _. refl) all_passed

alice-IsEntry : IsEntry (entry_for (as_peer alice nick))
unfolding is_whitespace from_seeds
alice-IsEntry = record {
  sized = toy_laws.length-x25519 alice.x_priv toy.basepoint;
  small = toy_laws.x25519-IsBytes alice.x_priv toy.basepoint;
  nick_ok = inked (b'l') (codes "a") refl refl refl ((refl, refl), ((refl, refl), tt));
}

authorize_invite-authorizes_example :
    (file' : File) × (authorize_invite toy true
        (text (codes "# mine\n"))
        (some (make_qr toy alice nick))
      ≡ some (ok (as_peer alice nick), file'))
    × (authorize_initiator toy false false file' (as_peer alice nick)
        ≡ (some (as_peer alice nick), file'))
authorize_invite-authorizes_example =
    authorize_invite-authorizes toy_laws alice alice_paired (text (codes "# mine\n")) nick false
      refl nick-IsText alice-IsEntry

-- Bob, the relay's server here, introduces himself to alice, behind a frame that says nothing.
abbrev introduction : Bytes
introduction =
    build_server_bound toy nonce bob alice.x_pub route_key
      (0 ∷ 0 ∷ 0x47 ∷ (bob.x_pub ++ (bob.ed_pub ++ as_bytes nick)))

introduced :
    decode_server_frame toy introduction route_key alice.x_priv bob.x_pub bob.ed_pub
    ≡ some (0 ∷ 0 ∷ 0x47 ∷ (bob.x_pub ++ (bob.ed_pub ++ as_bytes nick)))
introduced =
    decode_server_frame-build_server_bound toy_laws bob alice bob_paired alice_paired nonce
      route_key _ refl

confirmed :
    decode_server_frame toy confirmation route_key alice.x_priv bob.x_pub bob.ed_pub
    ≡ some (0 ∷ 0 ∷ 2 ∷ [])
confirmed =
    decode_server_frame-build_server_bound toy_laws bob alice bob_paired alice_paired nonce
      route_key _ refl

read_back :
    decode_intro_from toy (bob.x_pub ++ (bob.ed_pub ++ as_bytes nick)) ≡ ok (as_peer bob nick)
read_back =
    decode_intro_from-decode_qr toy_laws bob bob_paired nick nick-IsText
    ∙ rw append-nil at (decode_qr-make_qr toy_laws bob bob_paired [] [] nick tt tt nick-IsText)

passed_over : on_intro toy false true alice relay route_key confirmation missing ≡ (none, missing)
unfolding on_intro intro_body
passed_over = rw confirmed refl

abbrev pinned : File
pinned = (add toy true missing bob.x_pub nick).0

taken :
    on_intro toy false true alice relay route_key introduction missing
    ≡ (some (as_peer bob nick), pinned)
unfolding on_intro intro_body authorize_initiator load
taken = rw introduced (rw read_back refl)

-- While the gate waits, the unreadable table file is replaced by an empty one.
abbrev arrivals : List Arrival
arrivals =
    record { frame = confirmation; file = missing; can_write = true }
    ∷ record { frame = introduction; file = unreadable; can_write = true }
    ∷ record { frame = introduction; file = missing; can_write = true }
    ∷ []

refused : on_intro toy false true alice relay route_key introduction unreadable ≡ (none, unreadable)
unfolding on_intro intro_body authorize_initiator load
refused = rw introduced (rw read_back refl)

waited : await_initiator toy false alice relay route_key arrivals ≡ some (as_peer bob nick, pinned)
unfolding await_initiator
waited =
    rw (passed_over, await_initiator)
      (rw (refused, await_initiator)
        (rw (ap (λ z. z.0) taken) (ap (λ z. some (as_peer bob nick, z.1)) taken)))

await_initiator-taken_example :
    Any (TakenAt toy false alice relay route_key (as_peer bob nick) pinned) arrivals
await_initiator-taken_example =
    await_initiator-taken toy false alice relay route_key arrivals (as_peer bob nick) pinned waited
