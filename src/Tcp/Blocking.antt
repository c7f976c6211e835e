-- ===== src/Tcp/Blocking.antt =====
-- src/tcp.rs: the session loop at its own send of CLOSE, with a full out queue.
use ws_usb_linux.Base.{
  ℕ, ◌≤◌, ◌≡◌, inl, inr, refl, subst, Bool, true, false, Option, none, some, List, [], ◌∷◌, length,
  leb, ltb-false, Bool-cases, Option-cases, arith, Bytes,
}
use ws_usb_linux.Base.Maps.{Holds, Holds-some}
use ws_usb_linux.Proto.{cmd_tcp_open, cmd_tcp_data, cmd_tcp_close}
use ws_usb_linux.Tcp.{
  out_queue, WrMsg, bytes, shutdown, OutFrame, Writer, receiving, writing, shutting, removing,
  ended, Reader, reading, sending, closing, finished, Conn, waiting, refusing, Acceptor, accepting,
  announcing, registering, Tunnel, with_conn, send_peer, spawn_connection, alloc_conn_id,
}
use ws_usb_linux.Tcp.Tasks.{
  Event, incoming, continue, dialed, sent, accepts, writes, reads, step, run, resume, read_step,
  write_step, receive, accept, drain, dial_done, command, allocated, read_done, read_chunk,
  has_sender,
}

-- The loop stands at the send of CLOSE, the out queue is full, and the websocket has taken `wire`.
pub record Stuck (conn_id : ℕ) (wire : List OutFrame) (s : Tunnel) : Type 0 where
  pub refuses : s.session ≡ refusing conn_id
  pub full : out_queue ≤ length s.out
  pub unsent : s.wire ≡ wire

module _ (conn_id : ℕ) (wire : List OutFrame) where
  send_peer-full :
      (s : Tunnel) (cmd : ℕ) (body : Bytes) → out_queue ≤ length s.out → send_peer s cmd body ≡ none
  unfolding send_peer
  send_peer-full s cmd body full = rw (ltb-false (length s.out) out_queue full) refl

  allocated-Stuck :
      (s : Tunnel) (r : Option ℕ × ℕ) → Stuck conn_id wire s → Stuck conn_id wire (allocated s r)
  unfolding allocated
  allocated-Stuck s (none, next) h = record {
    refuses = h.refuses;
    full = h.full;
    unsent = h.unsent;
  }
  allocated-Stuck s (some i, next) h = record {
    refuses = h.refuses;
    full = h.full;
    unsent = h.unsent;
  }

  accept-Stuck :
      (p : Acceptor) (s : Tunnel) → Stuck conn_id wire s → Holds (Stuck conn_id wire) (accept p s)
  unfolding accept spawn_connection
  accept-Stuck accepting s h = allocated-Stuck s (alloc_conn_id s.conns s.next_id) h
  accept-Stuck (announcing i) s h =
      rw (send_peer-full (record s { acceptor = registering i }) cmd_tcp_open (i ∷ []) h.full) tt
  accept-Stuck (registering i) s h = record {
    refuses = h.refuses;
    full = h.full;
    unsent = h.unsent;
  }

  -- The per-connection tasks touch neither the session loop nor the websocket.
  Stuck-aside :
      (s : Tunnel) (conns : ℕ → Option ℕ) (conn : ℕ → Conn) (tx rx : ℕ)
      → Stuck conn_id wire s
      → Stuck conn_id wire (record s { conns = conns; conn = conn; tx_bytes = tx; rx_bytes = rx })
  Stuck-aside s conns conn tx rx h = record {
    refuses = h.refuses;
    full = h.full;
    unsent = h.unsent;
  }

  receive-Stuck :
      (s : Tunnel) (j : ℕ) (q : List WrMsg)
      → Stuck conn_id wire s
      → Holds (Stuck conn_id wire) (receive s j q)
  unfolding receive
  receive-Stuck s j [] h = elim (Bool-cases (has_sender s j)) [
    | inl held ↦ rw (held, receive) tt
    | inr dropped ↦ rw (dropped, receive) (Stuck-aside s s.conns _ s.tx_bytes s.rx_bytes h)
  ]
  receive-Stuck s j (bytes b ∷ rest) h = Stuck-aside s s.conns _ s.tx_bytes _ h
  receive-Stuck s j (shutdown ∷ rest) h = Stuck-aside s s.conns _ s.tx_bytes s.rx_bytes h

  write_step-Stuck :
      (w : Writer) (s : Tunnel) (j : ℕ) (ok : Bool)
      → Stuck conn_id wire s
      → Holds (Stuck conn_id wire) (write_step w s j ok)
  unfolding write_step
  write_step-Stuck receiving s j ok h = receive-Stuck s j (s.conn j).queue h
  write_step-Stuck (writing b) s j true h = Stuck-aside s s.conns _ s.tx_bytes s.rx_bytes h
  write_step-Stuck (writing b) s j false h = Stuck-aside s s.conns _ s.tx_bytes s.rx_bytes h
  write_step-Stuck shutting s j ok h = Stuck-aside s s.conns _ s.tx_bytes s.rx_bytes h
  write_step-Stuck removing s j ok h = Stuck-aside s _ _ s.tx_bytes s.rx_bytes h
  write_step-Stuck ended s j ok h = tt

  read_done-Stuck :
      (s : Tunnel) (j : ℕ) (chunk : Bytes)
      → Stuck conn_id wire s
      → Stuck conn_id wire (read_done s j chunk)
  unfolding read_done
  read_done-Stuck s j [] h = Stuck-aside s s.conns _ s.tx_bytes s.rx_bytes h
  read_done-Stuck s j (b ∷ chunk) h = Stuck-aside s s.conns _ _ s.rx_bytes h

  read_step-Stuck :
      (r : Reader) (s : Tunnel) (j : ℕ) (chunk : Bytes)
      → Stuck conn_id wire s
      → Holds (Stuck conn_id wire) (read_step r s j chunk)
  unfolding read_step
  read_step-Stuck reading s j chunk h = elim (Bool-cases (leb (length chunk) read_chunk)) [
    | inl fits ↦ rw (fits, read_step) (read_done-Stuck s j chunk h)
    | inr long ↦ rw (long, read_step) tt
  ]
  read_step-Stuck (sending got) s j _ h =
      rw
        (send_peer-full (with_conn s j (record (s.conn j) { reader = reading })) cmd_tcp_data
          ((s.conn j).conn_id ∷ got) h.full)
        tt
  read_step-Stuck closing s j _ h =
      rw
        (send_peer-full (with_conn s j (record (s.conn j) { reader = finished })) cmd_tcp_close
          ((s.conn j).conn_id ∷ []) h.full)
        tt
  read_step-Stuck finished s j _ h = tt

  step-Stuck :
      (dials : Bool) (s : Tunnel) (e : Event)
      → Stuck conn_id wire s
      → Holds (Stuck conn_id wire) (step dials s e)
  unfolding step
  step-Stuck dials s (incoming cmd i body) h = rw (h.refuses, command) tt
  step-Stuck dials s continue h =
      rw (h.refuses, resume)
        (rw (send_peer-full (record s { session = waiting }) cmd_tcp_close (conn_id ∷ []) h.full)
          tt)
  step-Stuck dials s (dialed ok) h = rw (h.refuses, dial_done) tt
  step-Stuck dials s (sent ok) h = rw (h.refuses, drain) tt
  step-Stuck dials s accepts h = accept-Stuck s.acceptor s h
  step-Stuck dials s (writes j ok) h = write_step-Stuck (s.conn j).writer s j ok h
  step-Stuck dials s (reads j chunk) h = read_step-Stuck (s.conn j).reader s j chunk h

  -- When the session loop stands at the send of CLOSE with a full out queue, then after any
  -- further events it still stands there, the queue is still full, and the websocket has been
  -- given no further frame.
  pub refusing_forever :
      (dials : Bool) (es : List Event) (s t : Tunnel)
      → Stuck conn_id wire s
      → run dials s es ≡ some t
      → Stuck conn_id wire t
  unfolding run
  refusing_forever dials [] s t h e = subst (Stuck conn_id wire) {x = s} (ground arith) h
  refusing_forever dials (ev ∷ es) s t h e = elim (Option-cases (step dials s ev)) [
    | inl none_left ↦ absurd (cc (rw (none_left, run) at e))
    | inr (u, q) ↦
        refusing_forever dials es u t
          (Holds-some (Stuck conn_id wire) (step dials s ev) u (step-Stuck dials s ev h) q)
          (rw (q, run) at e)
  ]
