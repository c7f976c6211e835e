-- ===== src/Tcp/Reopening.antt =====
-- src/tcp.rs: an OPEN for an id that is still mapped.
use ws_usb_linux.Base.{
  ℕ, ◌<◌, ◌≡◌, refl, ap, ◌∙◌, Bool, true, false, none, some, List, [], ◌∷◌, arith, Bytes,
}
use ws_usb_linux.Base.Maps.{update, update_self, update_ne}
use ws_usb_linux.Proto.{cmd_tcp_data}
use ws_usb_linux.Tcp.{
  WrMsg, Writer, receiving, shutting, removing, ended, waiting, dialing, Tunnel, with_conn,
  spawn_connection, dispatch, route_data,
}
use ws_usb_linux.Tcp.Tasks.{
  Event, dialed, writes, step, run, write_step, receive, dial_done, has_sender,
}
use ws_usb_linux.Tcp.Runs.{step-writes, run-cons}

abbrev at_writer : Tunnel → ℕ → Writer → Tunnel
at_writer s j w = with_conn s j (record (s.conn j) { writer = w })

abbrev removed : Tunnel → ℕ → Tunnel
removed s j = record s {
  conns = update s.conns (s.conn j).conn_id none;
  conn = update s.conn j (record (s.conn j) { writer = ended });
}

receive_closed :
    (s : Tunnel) (j : ℕ) (q : List WrMsg)
    → q ≡ []
    → has_sender s j ≡ false
    → receive s j q ≡ some (at_writer s j shutting)
unfolding receive
receive_closed s j q e closed = ap (receive s j) e ∙ rw (closed, receive) refl

-- A writer whose channel is closed and empty runs to its end and removes the entry of its id.
run_out :
    (dials : Bool) (s : Tunnel) (j : ℕ)
    → (s.conn j).writer ≡ receiving
    → (s.conn j).queue ≡ []
    → has_sender s j ≡ false
    → run dials s (writes j true ∷ writes j true ∷ writes j true ∷ [])
      ≡ some (removed (at_writer (at_writer s j shutting) j removing) j)
unfolding write_step run
run_out dials s j w q closed =
    run-cons dials s s1 (writes j true) (writes j true ∷ writes j true ∷ []) _
      (step-writes dials s j true receiving w ∙ receive_closed s j _ q closed)
      (run-cons dials s1 s2 (writes j true) (writes j true ∷ []) _
        (step-writes dials s1 j true shutting (ap (λ k. k.writer) (update_self s.conn j _)))
        (run-cons dials s2 (removed s2 j) (writes j true) [] _
          (step-writes dials s2 j true removing (ap (λ k. k.writer) (update_self s1.conn j _)))
          refl))
  where
    s1 : Tunnel
    s1 = at_writer s j shutting

    s2 : Tunnel
    s2 = at_writer s1 j removing

-- The dial has ended well, and the old writer, whose sender the insertion dropped, runs to its end.
abbrev pub replaced : ℕ → List Event
replaced j = dialed true ∷ writes j true ∷ writes j true ∷ writes j true ∷ []

abbrev pub Unreachable : ℕ → ℕ → Tunnel → Type 0
Unreachable conn_id new t =
    (t.conns conn_id ≡ none)
    × ((t.conn new).conn_id ≡ conn_id)
    × ((t.conn new).writer ≡ receiving)
    × ((dials : Bool) (body : Bytes) → dispatch dials t cmd_tcp_data conn_id body ≡ t)

dropped-data :
    (dials : Bool) (t : Tunnel) (conn_id : ℕ) (body : Bytes)
    → t.conns conn_id ≡ none
    → dispatch dials t cmd_tcp_data conn_id body ≡ t
unfolding dispatch route_data
dropped-data dials t conn_id [] e = refl
dropped-data dials t conn_id (b ∷ body) e = rw (e, route_data) refl

-- When the loop dials for an id that is mapped to a connection of that id whose writer waits at an
-- empty queue, there is a run (the dial succeeds, and the old writer takes three steps) after
-- which the id is not in the map, the new connection of that id has a waiting writer, and DATA for
-- the id changes nothing.
pub reopened-Unreachable :
    (dials : Bool) (s : Tunnel) (conn_id j : ℕ)
    → s.session ≡ dialing conn_id
    → s.conns conn_id ≡ some j
    → j < s.spawned
    → (s.conn j).conn_id ≡ conn_id
    → (s.conn j).writer ≡ receiving
    → (s.conn j).queue ≡ []
    → (t : Tunnel) × (run dials s (replaced j) ≡ some t) × Unreachable conn_id s.spawned t
unfolding step dial_done spawn_connection dispatch
reopened-Unreachable dials s conn_id j d m lt i w q = (
  t,
  run-cons dials s s1 (dialed true) (writes j true ∷ writes j true ∷ writes j true ∷ []) _
      (rw (d, dial_done) refl)
      (run_out dials s1 j (ap (λ k. k.writer) old ∙ w) (ap (λ k. k.queue) old ∙ q) closed),
  (
    unmapped,
    ground arith,
    ground arith,
    λ dials' body. dropped-data dials' t conn_id body unmapped,
  ),
)
  where
    s1 : Tunnel
    s1 = spawn_connection (record s { session = waiting }) conn_id

    t : Tunnel
    t = removed (at_writer (at_writer s1 j shutting) j removing) j

    old : s1.conn j ≡ s.conn j
    old = update_ne s.conn s.spawned j _ (omega arith)

    closed : has_sender s1 j ≡ false
    closed = ground (arith, old)

    unmapped : t.conns conn_id ≡ none
    unmapped = ground (arith, old)
