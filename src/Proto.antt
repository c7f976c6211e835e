-- ===== src/Proto.antt =====
-- src/proto.rs: the command bytes, identities, the route keys and the inner message.
-- The envelope, the frames and the invites are in the child modules.
pub mod Clamp
pub mod Envelope
pub mod Frames
pub mod Invite
use Prim.Native.Nat.{bit_and, bit_or}
use ws_usb_linux.Base.{ℕ, ◌/◌, ◌%◌, ◌∷◌, [], ◌++◌, get_or, set, take, Bytes}
use ws_usb_linux.Base.Text.{Text, codes}
use ws_usb_linux.Crypto.{Crypto}

abbrev pub protocol_version : ℕ
protocol_version = 2

abbrev pub qr_prefix : Text
qr_prefix = codes "K0"

abbrev pub cmd_handshake_request : ℕ
cmd_handshake_request = 0x01

abbrev pub cmd_handshake_ok : ℕ
cmd_handshake_ok = 0x02

abbrev pub cmd_serial_data : ℕ
cmd_serial_data = 0x30

abbrev pub cmd_tcp_open : ℕ
cmd_tcp_open = 0x32

abbrev pub cmd_tcp_data : ℕ
cmd_tcp_data = 0x33

abbrev pub cmd_tcp_close : ℕ
cmd_tcp_close = 0x34

abbrev pub cmd_subscribe : ℕ
cmd_subscribe = 0x40

abbrev pub cmd_introduce : ℕ
cmd_introduce = 0x46

abbrev pub cmd_intro_from : ℕ
cmd_intro_from = 0x47

-- The signing key is its seed.
pub record Identity : Type 0 where
  pub x_priv : Bytes
  pub x_pub : Bytes
  pub ed : Bytes
  pub ed_pub : Bytes
  pub id : Bytes

pub record Peer : Type 0 where
  pub x_pub : Bytes
  pub ed_pub : Bytes
  pub id : Bytes
  pub nick : Text

-- The three writes to the scalar.
unfoldable pub clamp : Bytes → Bytes
clamp x_seed =
    let low = set x_seed 0 (bit_and (get_or x_seed 0 0) 248) in
    let high = set low 31 (bit_and (get_or low 31 0) 127) in
    set high 31 (bit_or (get_or high 31 0) 64)

unfoldable pub from_seeds : Crypto → Bytes → Bytes → Identity
from_seeds c x_seed ed_seed =
    let x_priv = clamp x_seed in
    let x_pub = c.x25519 x_priv c.basepoint in
    record {
      x_priv = x_priv;
      x_pub = x_pub;
      ed = ed_seed;
      ed_pub = c.ed_public ed_seed;
      id = take 8 x_pub;
    }

-- The nonce of ChaCha20 is the first half of the packet's.
unfoldable pub xor_header : Crypto → Bytes → Bytes → Bytes → Bytes
xor_header c key nonce_24 h = c.apply_keystream key (take 12 nonce_24) h

-- (client to server, server to client)
unfoldable pub derive_session : Crypto → Bytes → Bytes × Bytes
derive_session c shared = (
  c.derive_key (codes "ws.lleo.me v2 route c2s") shared,
  c.derive_key (codes "ws.lleo.me v2 route s2c") shared,
)

-- `u16::to_le_bytes`, then the command and the body.
unfoldable pub pack_inner : ℕ → ℕ → Bytes → Bytes
pack_inner message_id cmd body = (message_id % 256) ∷ (message_id / 256 % 256) ∷ cmd ∷ body
