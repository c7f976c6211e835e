-- ===== src/Tcp/Tasks.antt =====
-- src/tcp.rs: the steps of the session loop, the acceptor, the writers and the readers.
use ws_usb_linux.Base.{
  ℕ, ◌+◌, ◌*◌, ◌%◌, ◌^◌, Bool, true, false, ◌||◌, Option, none, some, List, [], ◌∷◌, ◌++◌, length,
  ltb, leb, ◌==◌, if◌then◌else◌, Bytes,
}
use ws_usb_linux.Base.Maps.{update}
use ws_usb_linux.Proto.{cmd_tcp_open, cmd_tcp_data, cmd_tcp_close}
use ws_usb_linux.Tcp.{
  conn_queue, WrMsg, bytes, shutdown, OutFrame, Writer, receiving, writing, shutting, removing,
  ended, Reader, reading, sending, closing, finished, Conn, Session, waiting, dialing, delivering,
  unmapping, refusing, Acceptor, accepting, announcing, registering, Tunnel, with_conn, send_peer,
  spawn_connection, alloc_conn_id, dispatch,
}

abbrev pub read_chunk : ℕ
read_chunk = 16 * 1024

-- The receiver of a channel is dropped when the writer has ended.
abbrev pub is_ended : Writer → Bool
is_ended ended = true
is_ended _ = false

abbrev pub payload : WrMsg → Bytes
payload (bytes b) = b
payload shutdown = []

abbrev pub push_msg : Conn → WrMsg → Conn
push_msg k m = record k { queue = k.queue ++ m ∷ []; routed = k.routed ++ payload m }

-- After a send that found no receiver: only DATA is answered.
unfoldable pub after_failed_send : Tunnel → ℕ → WrMsg → Tunnel
after_failed_send s conn_id (bytes b) = record s { session = unmapping conn_id }
after_failed_send s conn_id shutdown = record s { session = waiting }

unfoldable pub deliver : Tunnel → ℕ → ℕ → WrMsg → Option Tunnel
deliver s j conn_id m =
    if is_ended (s.conn j).writer
    then some (after_failed_send s conn_id m)
    else if ltb (length (s.conn j).queue) conn_queue
    then some (record s { conn = update s.conn j (push_msg (s.conn j) m); session = waiting })
    else none

-- `handle_incoming` from one `await` to the next.
unfoldable pub resume : Session → Tunnel → Option Tunnel
resume (delivering j conn_id m) s = deliver s j conn_id m
resume (unmapping conn_id) s =
    some (record s { conns = update s.conns conn_id none; session = refusing conn_id })
resume (refusing conn_id) s =
    send_peer (record s { session = waiting }) cmd_tcp_close (conn_id ∷ [])
resume _ s = none

-- `open_outbound`, when the dial has ended well or badly.
unfoldable pub dial_done : Session → Bool → Tunnel → Option Tunnel
dial_done (dialing conn_id) true s =
    some (spawn_connection (record s { session = waiting }) conn_id)
dial_done (dialing conn_id) false s = some (record s { session = refusing conn_id })
dial_done _ ok s = none

-- The session loop takes a frame off the out queue, and the websocket takes it or fails.
unfoldable pub drain : Session → Bool → List OutFrame → Tunnel → Option Tunnel
drain waiting true (f ∷ rest) s = some (record s { out = rest; wire = s.wire ++ f ∷ [] })
drain waiting false (f ∷ rest) s = some (record s { out = rest })
drain _ ok _ s = none

unfoldable pub command : Session → Bool → ℕ → ℕ → Bytes → Tunnel → Option Tunnel
command waiting dials cmd conn_id body s = some (dispatch dials s cmd conn_id body)
command _ dials cmd conn_id body s = none

-- The socket is dropped when no id is free.
unfoldable pub allocated : Tunnel → Option ℕ × ℕ → Tunnel
allocated s (none, next) = record s { next_id = next }
allocated s (some conn_id, next) = record s { next_id = next; acceptor = announcing conn_id }

-- A new local socket, and the acceptor from there to the next `accept`.
unfoldable pub accept : Acceptor → Tunnel → Option Tunnel
accept accepting s = some (allocated s (alloc_conn_id s.conns s.next_id))
accept (announcing conn_id) s =
    send_peer (record s { acceptor = registering conn_id }) cmd_tcp_open (conn_id ∷ [])
accept (registering conn_id) s = some (spawn_connection (record s { acceptor = accepting }) conn_id)

abbrev pub maps_to : Option ℕ → ℕ → Bool
maps_to none j = false
maps_to (some i) j = i == j

abbrev pub holds_sender : Session → ℕ → Bool
holds_sender (delivering i _ _) j = i == j
holds_sender _ j = false

-- A channel is open while the map or `handle_incoming` has its sender.
abbrev pub has_sender : Tunnel → ℕ → Bool
has_sender s j = maps_to (s.conns (s.conn j).conn_id) j || holds_sender s.session j

-- The writer at `recv`.
unfoldable pub receive : Tunnel → ℕ → List WrMsg → Option Tunnel
receive s j [] =
    if has_sender s j then none else some (with_conn s j (record (s.conn j) { writer = shutting }))
receive s j (bytes b ∷ rest) = some (record s {
  conn = update s.conn j (record (s.conn j) { queue = rest; writer = writing b });
  rx_bytes = (s.rx_bytes + length b) % 2 ^ 64;
})
receive s j (shutdown ∷ rest) =
    some (with_conn s j (record (s.conn j) { queue = rest; writer = shutting }))

unfoldable pub write_step : Writer → Tunnel → ℕ → Bool → Option Tunnel
write_step receiving s j ok = receive s j (s.conn j).queue
write_step (writing b) s j true =
    some
      (with_conn s j (record (s.conn j) { writer = receiving; written = (s.conn j).written ++ b }))
write_step (writing b) s j false = some (with_conn s j (record (s.conn j) { writer = shutting }))
write_step shutting s j ok = some (with_conn s j (record (s.conn j) { writer = removing }))
write_step removing s j ok = some (record s {
  conns = update s.conns (s.conn j).conn_id none;
  conn = update s.conn j (record (s.conn j) { writer = ended });
})
write_step ended s j ok = none

-- `read` returns bytes, or `[]` at the end of the stream or on an error.
unfoldable pub read_done : Tunnel → ℕ → Bytes → Tunnel
read_done s j [] = with_conn s j (record (s.conn j) { reader = closing })
read_done s j (b ∷ chunk) = record s {
  conn = update s.conn j (record (s.conn j) {
    reader = sending (b ∷ chunk);
    received = (s.conn j).received ++ (b ∷ chunk);
  });
  tx_bytes = (s.tx_bytes + length (b ∷ chunk)) % 2 ^ 64;
}

unfoldable pub read_step : Reader → Tunnel → ℕ → Bytes → Option Tunnel
read_step reading s j chunk =
    if leb (length chunk) read_chunk then some (read_done s j chunk) else none
read_step (sending chunk) s j _ =
    send_peer (with_conn s j (record (s.conn j) { reader = reading })) cmd_tcp_data
      ((s.conn j).conn_id ∷ chunk)
read_step closing s j _ =
    send_peer (with_conn s j (record (s.conn j) { reader = finished })) cmd_tcp_close
      ((s.conn j).conn_id ∷ [])
read_step finished s j _ = none

-- What may happen next. A command is what `handle_incoming` has decoded: its conn_id and payload.
pub data Event : Type 0 where
  incoming : ℕ → ℕ → Bytes → Event
  continue : Event
  dialed : Bool → Event
  sent : Bool → Event
  accepts : Event
  writes : ℕ → Bool → Event
  reads : ℕ → Bytes → Event

unfoldable pub step : Bool → Tunnel → Event → Option Tunnel
unfolding deliver after_failed_send resume dial_done drain command allocated accept receive
    write_step read_done read_step
step dials s (incoming cmd conn_id body) = command s.session dials cmd conn_id body s
step dials s continue = resume s.session s
step dials s (dialed ok) = dial_done s.session ok s
step dials s (sent ok) = drain s.session ok s.out s
step dials s accepts = accept s.acceptor s
step dials s (writes j ok) = write_step (s.conn j).writer s j ok
step dials s (reads j chunk) = read_step (s.conn j).reader s j chunk

unfoldable pub run : Bool → Tunnel → List Event → Option Tunnel
run dials s [] = some s
run dials s (e ∷ es) = elim (step dials s e) [ none ↦ none | some t ↦ run dials t es ]
