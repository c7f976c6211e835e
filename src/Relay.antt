-- ===== src/Relay.antt =====
-- src/relay.rs: where the relay is, the handshake with it, and the two frames that open a session.
-- What the network answers is an argument; a panic of `expect` is `none`.
pub mod Bootstrap
use ws_usb_linux.Base.{
  ℕ, ◌+◌, ◌%◌, Bool, true, false, Option, none, some, List, [], ◌∷◌, ◌++◌, ◌==◌, if◌then◌else◌,
  Bytes,
}
use ws_usb_linux.Base.Text.{Text, codes}
use ws_usb_linux.Base.Utf8.{as_bytes}
use ws_usb_linux.Crypto.{Crypto}
use ws_usb_linux.Proto.{Identity, Peer, pack_inner, cmd_handshake_ok, cmd_introduce, cmd_subscribe}
use ws_usb_linux.Proto.Frames.{build_handshake_request, build_server_bound, decode_server_frame}
use ws_usb_linux.Idfile.{Env, or_else, decode_hex32}

pub record Relay : Type 0 where
  pub ws_url : Text
  pub server_x_pub : Bytes
  pub server_ed_vk : Bytes

abbrev pub default_ws_url : Text
default_ws_url = codes "ws://ws.lleo.me/api0"

abbrev pub default_server_x_pub : Text
default_server_x_pub = codes "2beba374aeb45b1220bd06a794dea54bc4484aad0a81dbea9d3d5518da73005b"

abbrev pub default_server_ed_pub : Text
default_server_ed_pub = codes "08d98c12e044d5cacdf54933934c9a4e34f4ce7b3527adbd29a9c0a736f3bf0f"

unfoldable pub env_or : Env → Text → Text → Text
env_or env name default = or_else (env name) default

relay_of : Crypto → Text → Option Bytes → Option Bytes → Option Relay
relay_of c ws_url (some x_pub) (some ed_pub) =
    if c.ed_valid ed_pub
    then some (record { ws_url = ws_url; server_x_pub = x_pub; server_ed_vk = ed_pub })
    else none
relay_of c ws_url _ _ = none

unfoldable pub from_env : Crypto → Env → Option Relay
unfolding relay_of env_or
from_env c env =
    relay_of c (env_or env (codes "USBWS_WS_URL") default_ws_url)
      (decode_hex32 c (env_or env (codes "USBWS_SERVER_X_PUB") default_server_x_pub))
      (decode_hex32 c (env_or env (codes "USBWS_SERVER_ED_PUB") default_server_ed_pub))

-- `i.len() >= 3 && i[2] == CMD_HANDSHAKE_OK`
unfoldable pub is_handshake_ok : Option Bytes → Bool
is_handshake_ok (some (_ ∷ (_ ∷ (cmd ∷ _)))) = cmd == cmd_handshake_ok
is_handshake_ok _ = false

replied : Crypto → Identity → Relay → Bytes → Option Bytes → Bool
replied c me relay k_s2c none = false
replied c me relay k_s2c (some b) =
    is_handshake_ok (decode_server_frame c b k_s2c me.x_priv relay.server_x_pub relay.server_ed_vk)

-- Whether there is a session, and the frames that were sent for it. The reply is the binary message
-- that came next, if one did.
unfoldable pub connect_and_handshake :
    Crypto → Bytes → Relay → Identity → Bytes → Bool → Bool → Option Bytes → Bool × List Bytes
unfolding replied
connect_and_handshake c nonce relay me k_s2c false sends reply = (false, [])
connect_and_handshake c nonce relay me k_s2c true false reply = (false, [])
connect_and_handshake c nonce relay me k_s2c true true reply =
    (replied c me relay k_s2c reply, build_handshake_request c nonce me relay.server_x_pub ∷ [])

-- The two frames and the next sequence number.
unfoldable pub introduce_and_subscribe :
    Crypto → Bytes → Bytes → Identity → Peer → Text → Relay → Bytes → ℕ → Bytes × Bytes × ℕ
introduce_and_subscribe c nonce nonce' me peer nick relay k_c2s seq =
    let intro_body = peer.id ++ as_bytes nick in
    let next = (seq + 1) % 65536 in
    (
      build_server_bound c nonce me relay.server_x_pub k_c2s
          (pack_inner seq cmd_introduce intro_body),
      build_server_bound c nonce' me relay.server_x_pub k_c2s
          (pack_inner next cmd_subscribe peer.x_pub),
      (next + 1) % 65536,
    )
