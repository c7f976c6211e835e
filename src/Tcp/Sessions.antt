-- ===== src/Tcp/Sessions.antt =====
-- src/tcp.rs: `session_loop` around the tunnel: the connection to the relay, its loss and the next
-- one. What the relay answers and when the user interrupts are events.
pub mod Wire
pub mod Reconnection
pub mod Recovery
use ws_usb_linux.Base.{
  ℕ, ◌+◌, ◌%◌, Bool, true, false, Option, none, some, List, [], ◌∷◌, ◌++◌, Bytes,
}
use ws_usb_linux.Tcp.{OutFrame, Session, waiting, Tunnel, start}
use ws_usb_linux.Tcp.Tasks.{Event, incoming, continue, dialed, sent, accepts, writes, reads, step}

-- Where `session_loop` stands: at the handshake, at the wait after one that failed, at the inner
-- `select` or in a branch of it, at the wait before the next connection, or past its end.
pub data Phase : Type 0 where
  connecting unavailable live leaving over : Phase

-- What is sent on a websocket behind the handshake: the two opening frames, each with its sequence
-- number and whether the websocket took it, and the peer frames that it took.
pub data Sent : Type 0 where
  introduce subscribe : ℕ → Bool → Sent
  peer_frame : OutFrame → Sent

-- `link` is what was sent on the present websocket, `sessions` counts the connections that came up and
-- `earlier` keeps the tunnel's wire as it was when the present one did; no step reads the last two.
pub record SessionLoop : Type 0 where
  pub tunnel : Tunnel
  pub phase : Phase
  pub seq : ℕ
  pub link : List Sent
  pub sessions : ℕ
  pub earlier : List OutFrame

abbrev pub begin : SessionLoop
begin = record {
  tunnel = start;
  phase = connecting;
  seq = 1;
  link = [];
  sessions = 0;
  earlier = [];
}

pub data LoopEvent : Type 0 where
  -- `connect_and_handshake` gives no websocket, or one, with whether it takes the introduction and
  -- the subscription
  refused : LoopEvent
  linked : Bool → Bool → LoopEvent
  -- the wait of 5 seconds, or of 3, is over
  backed_off : LoopEvent
  -- a Close, an error or the end of the stream
  lost : LoopEvent
  ping : LoopEvent
  ctrl_c : LoopEvent
  -- a step of the tunnel
  inner : Event → LoopEvent

-- `introduce_and_subscribe`, which ignores what its sends answer, and `seq` behind it.
unfoldable pub open_link : Bool → Bool → SessionLoop → SessionLoop
open_link introduced subscribed l = record l {
  phase = live;
  seq = ((l.seq + 1) % 65536 + 1) % 65536;
  link = introduce l.seq introduced ∷ subscribe ((l.seq + 1) % 65536) subscribed ∷ [];
  sessions = l.sessions + 1;
  earlier = l.tunnel.wire;
}

-- The frame that the websocket takes with this step, if it takes one.
unfoldable pub taken : Event → List OutFrame → List Sent
taken (sent true) (f ∷ rest) = peer_frame f ∷ []
taken _ out = []

-- A failed send ends the connection.
unfoldable pub after : Event → Phase → Phase
after (sent false) p = leaving
after _ p = p

-- What a connection's own task does needs no websocket.
unfoldable pub is_task : Event → Bool
is_task accepts = true
is_task (writes j ok) = true
is_task (reads j chunk) = true
is_task _ = false

-- Whether the tunnel can move so in this phase.
unfoldable pub allowed : Phase → Event → Bool
allowed live e = true
allowed over e = false
allowed _ e = is_task e

moved : SessionLoop → Event → Option Tunnel → Option SessionLoop
moved l e none = none
moved l e (some t) =
    some (record l { tunnel = t; phase = after e l.phase; link = l.link ++ taken e l.tunnel.out })

-- The inner `select` is reached only when no branch of it is under way.
selecting : Session → SessionLoop → Option SessionLoop
selecting waiting l = some l
selecting _ l = none

in_phase : Phase → LoopEvent → SessionLoop → Option SessionLoop
in_phase connecting (linked a b) l = some (open_link a b l)
in_phase connecting refused l = some (record l { phase = unavailable })
in_phase unavailable backed_off l = some (record l { phase = connecting })
in_phase unavailable ctrl_c l = some (record l { phase = over })
in_phase live lost l = selecting l.tunnel.session (record l { phase = leaving })
in_phase live ping l = selecting l.tunnel.session l
in_phase live ctrl_c l = selecting l.tunnel.session (record l { phase = over })
in_phase leaving backed_off l = some (record l { phase = connecting })
in_phase _ e l = none

permitted : Bool → Bool → Event → SessionLoop → Option SessionLoop
permitted true dials e l = moved l e (step dials l.tunnel e)
permitted false dials e l = none

unfoldable pub loop_step : Bool → SessionLoop → LoopEvent → Option SessionLoop
unfolding moved selecting in_phase permitted
loop_step dials l (inner e) = permitted (allowed l.phase e) dials e l
loop_step dials l e = in_phase l.phase e l

unfoldable pub loop_run : Bool → SessionLoop → List LoopEvent → Option SessionLoop
loop_run dials l [] = some l
loop_run dials l (e ∷ es) = elim (loop_step dials l e) [
  | none ↦ none
  | some m ↦ loop_run dials m es
]
