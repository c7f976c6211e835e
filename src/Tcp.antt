-- ===== src/Tcp.antt =====
-- src/tcp.rs: the tunnel of one process, as the tasks that share a connection map and an out queue.
-- A task stops at each `await`, so each task has a state that says where it stands, and each event
-- below moves one task from one `await` to the next. `none` is a task that has to wait.
pub mod Alloc
pub mod Announcing
pub mod Arriving
pub mod Pieces
pub mod Incoming
pub mod Blocking
pub mod Invariant
pub mod Listening
pub mod Outgoing
pub mod Progress
pub mod Reopening
pub mod Runs
pub mod Sessions
pub mod Startup
pub mod Stream
pub mod Tasks
pub mod Waiting
pub mod Waits
use ws_usb_linux.Base.{
  ℕ, zero, suc, ◌+◌, ◌%◌, Bool, true, false, not, ◌&&◌, ◌||◌, Option, none, some, List, [], ◌∷◌,
  ◌++◌, length, ltb, ◌==◌, if◌then◌else◌, Bytes,
}
use ws_usb_linux.Base.Maps.{update, is_some}
use ws_usb_linux.Proto.{cmd_tcp_open, cmd_tcp_data, cmd_tcp_close}

abbrev pub out_queue : ℕ
out_queue = 512

abbrev pub conn_queue : ℕ
conn_queue = 256

-- A message to a connection's socket-writer task.
pub data WrMsg : Type 0 where
  bytes : Bytes → WrMsg
  shutdown : WrMsg

-- A peer frame in the out queue, by what `send_peer` builds it from.
pub record OutFrame : Type 0 where
  pub cmd : ℕ
  pub body : Bytes

-- Where a connection's writer stands: at `recv`, at `write_all`, at `shutdown`, at the removal of
-- its map entry, or past its end, where its receiver is dropped.
pub data Writer : Type 0 where
  receiving : Writer
  writing : Bytes → Writer
  shutting removing ended : Writer

-- Where a connection's reader stands: at `read`, at the send of a chunk, at the send of CLOSE.
pub data Reader : Type 0 where
  reading : Reader
  sending : Bytes → Reader
  closing finished : Reader

-- One spawned connection. `queue` is its channel; `written` is what `write_all` has taken so far.
-- `routed` records all bytes that were ever put into the channel and `received` all that `read` has
-- given; no step reads these.
pub record Conn : Type 0 where
  pub conn_id : ℕ
  pub queue : List WrMsg
  pub writer : Writer
  pub reader : Reader
  pub written : Bytes
  pub routed : Bytes
  pub received : Bytes

-- Where the session loop stands: at its `select`, or inside `handle_incoming`: at the dial, at the
-- send to a connection's channel, at the removal of an entry, at the send of CLOSE.
pub data Session : Type 0 where
  waiting : Session
  dialing : ℕ → Session
  delivering : ℕ → ℕ → WrMsg → Session
  unmapping refusing : ℕ → Session

-- Where the acceptor stands: at `accept`, at the send of OPEN, at `spawn_connection`.
pub data Acceptor : Type 0 where
  accepting : Acceptor
  announcing registering : ℕ → Acceptor

-- `conns` maps a conn_id to the number of the connection whose sender is in the map; `wire` is
-- what the websocket has taken.
pub record Tunnel : Type 0 where
  pub conns : ℕ → Option ℕ
  pub spawned : ℕ
  pub conn : ℕ → Conn
  pub out : List OutFrame
  pub wire : List OutFrame
  pub session : Session
  pub acceptor : Acceptor
  pub next_id : ℕ
  pub tx_bytes : ℕ
  pub rx_bytes : ℕ

abbrev pub no_conn : Conn
no_conn = record {
  conn_id = 0;
  queue = [];
  writer = ended;
  reader = finished;
  written = [];
  routed = [];
  received = [];
}

abbrev pub new_conn : ℕ → Conn
new_conn i = record {
  conn_id = i;
  queue = [];
  writer = receiving;
  reader = reading;
  written = [];
  routed = [];
  received = [];
}

abbrev pub start : Tunnel
start = record {
  conns = λ _. none;
  spawned = 0;
  conn = λ _. no_conn;
  out = [];
  wire = [];
  session = waiting;
  acceptor = accepting;
  next_id = 0;
  tx_bytes = 0;
  rx_bytes = 0;
}

abbrev pub with_conn : Tunnel → ℕ → Conn → Tunnel
with_conn s j k = record s { conn = update s.conn j k }

-- `send_peer` waits while the out queue is full. Its receiver lives as long as the session.
unfoldable pub send_peer : Tunnel → ℕ → Bytes → Option Tunnel
send_peer s cmd body =
    if ltb (length s.out) out_queue
    then some (record s { out = s.out ++ (record { cmd = cmd; body = body }) ∷ [] })
    else none

-- The socket's two halves start; the new sender takes the place of any other under this id.
unfoldable pub spawn_connection : Tunnel → ℕ → Tunnel
spawn_connection s conn_id = record s {
  conns = update s.conns conn_id (some s.spawned);
  spawned = s.spawned + 1;
  conn = update s.conn s.spawned (new_conn conn_id);
}

-- The loop of `alloc_conn_id`, with the rounds left.
unfoldable pub alloc_loop : ℕ → (ℕ → Option ℕ) → ℕ → Option ℕ × ℕ
alloc_loop zero conns next = (none, next)
alloc_loop (suc rounds) conns next =
    let rest = alloc_loop rounds conns ((next + 1) % 256) in
    if not (is_some (conns next)) then (some next, (next + 1) % 256) else rest

-- `for _ in 0..=u8::MAX`
unfoldable pub alloc_conn_id : (ℕ → Option ℕ) → ℕ → Option ℕ × ℕ
alloc_conn_id = alloc_loop 256

-- `handle_incoming` from its `match cmd` to its first `await`; the flag says whether there is a dial
-- target, and a payload is the body behind the conn_id.
unfoldable pub route_data : Tunnel → ℕ → Bytes → Tunnel
route_data s conn_id [] = s
route_data s conn_id (b ∷ payload) = elim (s.conns conn_id) [
  | none ↦ s
  | some j ↦ record s { session = delivering j conn_id (bytes (b ∷ payload)) }
]

unfoldable pub route_close : Tunnel → ℕ → Tunnel
route_close s conn_id = elim (s.conns conn_id) [
  | none ↦ s
  | some j ↦ record s { session = delivering j conn_id shutdown }
]

unfoldable pub dispatch : Bool → Tunnel → ℕ → ℕ → Bytes → Tunnel
unfolding route_data route_close
dispatch dials s cmd conn_id payload =
    if cmd == cmd_tcp_open
    then (if dials then record s { session = dialing conn_id } else s)
    else if cmd == cmd_tcp_data
    then route_data s conn_id payload
    else if cmd == cmd_tcp_close
    then route_close s conn_id
    else s
