-- ===== src/Tcp/Arriving.antt =====
-- src/tcp.rs: the bytes of a connection between the websocket and its socket on the other side: what
-- has arrived for an id behind its OPEN, and what of it was routed to a connection.
pub mod Moves
pub mod Loop
pub mod Commands
pub mod Runs
use ws_usb_linux.Base.{
  ℕ, ◌≡◌, ◌≢◌, ◌<◌, refl, sym, ap, ◌∙◌, Bool, true, false, Option, none, some, List, [], ◌∷◌, ◌++◌,
  append-nil, arith, Bytes, ◌==◌, if◌then◌else◌,
}
use ws_usb_linux.Base.Maps.{Holds}
use ws_usb_linux.Proto.{cmd_tcp_open, cmd_tcp_data}
use ws_usb_linux.Tcp.{OutFrame, Session, waiting, dialing, delivering, unmapping, refusing, Tunnel}
use ws_usb_linux.Tcp.Tasks.{payload, Event, incoming}
use ws_usb_linux.Tcp.Outgoing.{behind_id}

-- What a sequence of frames says of an id: no OPEN yet; one OPEN and then these bytes; or DATA before
-- OPEN, or a second OPEN.
pub data Stage : Type 0 where
  unopened : Stage
  opened : Bytes → Stage
  disordered : Stage

abbrev pub for_id : ℕ → Bytes → Bool
for_id i [] = false
for_id i (k ∷ _) = k == i

abbrev pub next_stage : ℕ → Stage → OutFrame → Stage
next_stage i unopened f =
    if f.cmd == cmd_tcp_open
    then (if for_id i f.body then opened [] else unopened)
    else if f.cmd == cmd_tcp_data
    then (if for_id i f.body then disordered else unopened)
    else unopened
next_stage i (opened b) f =
    if f.cmd == cmd_tcp_open
    then (if for_id i f.body then disordered else opened b)
    else if f.cmd == cmd_tcp_data
    then opened (b ++ behind_id i f.body)
    else opened b
next_stage i disordered f = disordered

abbrev pub stage : ℕ → Stage → List OutFrame → Stage
stage i st [] = st
stage i st (f ∷ fs) = stage i (next_stage i st f) fs

pub stage-append :
    (i : ℕ) (st : Stage) (fs gs : List OutFrame)
    → stage i st (fs ++ gs) ≡ stage i (stage i st fs) gs
stage-append i st [] gs = refl
stage-append i st (f ∷ fs) gs = stage-append i (next_stage i st f) fs gs

-- The frames that the session loop was given, and what an event adds to them.
abbrev pub arrivals : List Event → List OutFrame
arrivals [] = []
arrivals (incoming cmd k body ∷ es) = record { cmd = cmd; body = k ∷ body } ∷ arrivals es
arrivals (_ ∷ es) = arrivals es

-- The bytes that the session loop is about to put into a connection's channel.
abbrev pub pending : Session → ℕ → Bytes
pending (delivering j k m) l = if j == l then payload m else []
pending _ l = []

abbrev pub NoConn : ℕ → Tunnel → Type 0
NoConn i s = (l : ℕ) → l < s.spawned → (s.conn l).conn_id ≢ i

-- The channel at which the session loop stands belongs to a connection of the id.
abbrev pub Held : Session → Tunnel → Type 0
Held (delivering j k m) s = (j < s.spawned) × ((s.conn j).conn_id ≡ k)
Held _ s = Unit

abbrev pub Behind : Session → ℕ → Bytes → Tunnel → Type 0
Behind (delivering j k m) i b s = k ≡ i → b ≡ (s.conn j).routed ++ payload m
Behind (dialing k) i b s = k ≡ i → NoConn i s × (b ≡ [])
Behind _ i b s = Unit

abbrev pub NotDialing : Session → ℕ → Type 0
NotDialing (dialing k) i = k ≢ i
NotDialing _ i = Unit

pub record Unopened (i : ℕ) (s : Tunnel) : Type 0 where
  pub held : Held s.session s
  pub absent : NoConn i s
  pub not_dialing : NotDialing s.session i

pub record Opened (i : ℕ) (b : Bytes) (s : Tunnel) : Type 0 where
  pub held : Held s.session s
  pub prefix :
      (j : ℕ)
      → j < s.spawned
      → (s.conn j).conn_id ≡ i
      → (rest : Bytes) × (b ≡ (s.conn j).routed ++ rest)
  pub mapped : (j : ℕ) → s.conns i ≡ some j → b ≡ (s.conn j).routed ++ pending s.session j
  pub behind : Behind s.session i b s

abbrev pub Arrived : ℕ → Stage → Tunnel → Type 0
Arrived i unopened s = Unopened i s
Arrived i (opened b) s = Opened i b s
Arrived i disordered s = Unit
