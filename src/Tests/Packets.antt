-- ===== src/Tests/Packets.antt =====
-- src/proto.rs at concrete inputs: two identities, an envelope, a frame of each kind and an invite.
use ws_usb_linux.Base.{
  ◌+◌, ◌≤◌, ◌≡◌, ◌≢◌, refl, ap, ◌↔◌, some, [], ◌∷◌, ◌++◌, length, replicate, take, drop, arith,
  Bytes, All,
}
use ws_usb_linux.Base.Text.{Text, codes, is_whitespace}
use ws_usb_linux.Base.Trim.{IsSpace}
use ws_usb_linux.Base.Utf8.{IsText}
use ws_usb_linux.Base.Result.{ok}
use ws_usb_linux.Proto.{Identity, from_seeds, clamp, xor_header}
use ws_usb_linux.Proto.Clamp.{IsClamped, clamp-IsClamped}
use ws_usb_linux.Proto.Envelope.{
  encrypt_and_sign, verify_and_decrypt, IsEnvelope, IsIdentity, from_seeds-IsIdentity,
  verify_and_decrypt_iff, verify_and_decrypt-encrypt_and_sign, length-id,
}
use ws_usb_linux.Proto.Frames.{
  build_peer_frame, build_server_bound, decode_server_frame, frame_header, zero_header,
  decode_server_frame_iff, build_peer_frame-routes,
}
use ws_usb_linux.Proto.Invite.{decode_qr, make_qr, as_peer, decode_qr-make_qr}
use ws_usb_linux.Tcp.Incoming.{Ctx, peer_frame, incoming_command, Carries, incoming_command_iff}
use ws_usb_linux.Tests.Toy.{toy, toy_laws, replicate-IsBytes}

abbrev pub alice : Identity
alice = from_seeds toy (replicate 32 3) (replicate 32 5)

abbrev pub bob : Identity
bob = from_seeds toy (replicate 32 64) (replicate 32 11)

abbrev pub alice_paired : IsIdentity toy alice
alice_paired = from_seeds-IsIdentity toy (replicate 32 3) (replicate 32 5)

abbrev pub bob_paired : IsIdentity toy bob
bob_paired = from_seeds-IsIdentity toy (replicate 32 64) (replicate 32 11)

abbrev pub nonce : Bytes
nonce = replicate 24 9

abbrev pub hello : Bytes
hello = 1 ∷ 2 ∷ 51 ∷ 7 ∷ 200 ∷ []

abbrev packet : Bytes
packet = encrypt_and_sign toy nonce hello alice.x_priv alice.ed bob.x_pub

clamp-IsClamped_example : IsClamped (replicate 32 255) (clamp (replicate 32 255))
clamp-IsClamped_example =
    clamp-IsClamped (replicate 32 255) refl (replicate-IsBytes 32 255 (omega arith))

verify_and_decrypt_iff_example :
    (verify_and_decrypt toy packet bob.x_priv alice.x_pub alice.ed_pub ≡ some hello)
    ↔ IsEnvelope toy packet bob.x_priv alice.x_pub alice.ed_pub hello
verify_and_decrypt_iff_example =
    verify_and_decrypt_iff toy bob.x_priv alice.x_pub alice.ed_pub packet hello

verify_and_decrypt-encrypt_and_sign_example :
    verify_and_decrypt toy packet bob.x_priv alice.x_pub alice.ed_pub ≡ some hello
verify_and_decrypt-encrypt_and_sign_example =
    verify_and_decrypt-encrypt_and_sign toy_laws alice bob nonce hello alice_paired bob_paired refl

abbrev pub route_key : Bytes
route_key = replicate 32 77

abbrev server_frame : Bytes
server_frame = build_server_bound toy nonce alice bob.x_pub route_key hello

decode_server_frame_iff_example :
    (decode_server_frame toy server_frame route_key bob.x_priv alice.x_pub alice.ed_pub
      ≡ some hello)
    ↔ ((8 + 24 + 16 + 64 ≤ length server_frame)
        × (frame_header toy route_key server_frame ≡ zero_header)
        × IsEnvelope toy (drop 8 server_frame) bob.x_priv alice.x_pub alice.ed_pub hello)
decode_server_frame_iff_example =
    decode_server_frame_iff toy server_frame route_key bob.x_priv alice.x_pub alice.ed_pub hello

build_peer_frame-routes_example :
    let frame = build_peer_frame toy nonce alice bob.x_pub bob.id route_key hello in
    (frame_header toy route_key frame ≡ bob.id)
    × (verify_and_decrypt toy (drop 8 frame) bob.x_priv alice.x_pub alice.ed_pub ≡ some hello)
build_peer_frame-routes_example =
    build_peer_frame-routes toy_laws alice bob alice_paired bob_paired nonce route_key hello refl
      (length-id toy_laws bob bob_paired)

spaces : All IsSpace (codes " ") × All IsSpace (codes "\n")
unfolding is_whitespace
spaces = ((refl, tt), (refl, tt))

abbrev pub nick : Text
nick = codes "al"

pub nick-IsText : IsText nick
nick-IsText = (ground arith, (ground arith, tt))

decode_qr-make_qr_example :
    decode_qr toy (codes " " ++ (make_qr toy alice nick ++ codes "\n")) ≡ ok (as_peer alice nick)
decode_qr-make_qr_example =
    decode_qr-make_qr toy_laws alice alice_paired (codes " ") (codes "\n") nick spaces.0 spaces.1
      nick-IsText

abbrev announced : Bytes
announced = alice.x_pub ++ (alice.ed_pub ++ nick)

abbrev alice_side : Ctx
alice_side = record { me = alice; peer = as_peer bob []; k_c2s = route_key }

abbrev bob_side : Ctx
bob_side = record { me = bob; peer = as_peer alice []; k_c2s = replicate 32 78 }

-- The frame as the relay passes it on, with a header of its own.
abbrev relayed : Bytes
relayed = replicate 8 0 ++ drop 8 (peer_frame toy nonce alice_side 51 (7 ∷ 200 ∷ []))

relayed_header : frame_header toy route_key relayed ≢ zero_header
unfolding xor_header
relayed_header e = absurd (cc (ap (take 1) e))

incoming_command_iff_example :
    (incoming_command toy bob_side route_key relayed ≡ some (51, 7, 200 ∷ []))
    ↔ Carries toy bob_side route_key relayed 51 7 (200 ∷ [])
incoming_command_iff_example = incoming_command_iff toy bob_side route_key relayed 51 7 (200 ∷ [])
