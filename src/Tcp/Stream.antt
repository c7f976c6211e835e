-- ===== src/Tcp/Stream.antt =====
-- src/tcp.rs: a connection from one end of the tunnel to the other, between a run of the listening
-- side and a run of the side that dials, where the relay hands on the frames in their order.
use ws_usb_linux.Base.{
  ℕ, ◌<◌, ◌≡◌, ◌⊎◌, inl, inr, refl, sym, ap, ◌∙◌, true, false, some, List, [], ◌∷◌, ◌++◌,
  append-nil, append_assoc, if◌then◌else◌, Bool-cases, arith, Bytes, ◌==◌,
}
use ws_usb_linux.Proto.{cmd_tcp_open, cmd_tcp_data}
use ws_usb_linux.Tcp.{OutFrame, receiving, waiting, Tunnel, start}
use ws_usb_linux.Tcp.Tasks.{Event, run}
use ws_usb_linux.Tcp.Invariant.Steps.{written-prefix, written-all}
use ws_usb_linux.Tcp.Outgoing.{behind_id, data_in, data_of, in_hand, Sole, outgoing}
use ws_usb_linux.Tcp.Outgoing.Runs.{Unfailing, run-start-Accounted}
use ws_usb_linux.Tcp.Arriving.{
  Stage, unopened, opened, disordered, for_id, next_stage, stage, stage-append, arrivals, pending,
  Arrived,
}
use ws_usb_linux.Tcp.Arriving.Runs.{NoAccepts, run-start-Arrived}
use ws_usb_linux.Tcp.Announcing.{is_registering, IsOpened}
use ws_usb_linux.Tcp.Announcing.Runs.{run-start-Announced}

-- The bytes that a stage has behind OPEN.
abbrev contents : Stage → Bytes
contents (opened b) = b
contents _ = []

stage-disordered : (i : ℕ) (fs : List OutFrame) → stage i disordered fs ≡ disordered
stage-disordered i [] = refl
stage-disordered i (f ∷ fs) = stage-disordered i fs

not_for : (i : ℕ) (body : Bytes) → for_id i body ≡ false → behind_id i body ≡ []
not_for i [] h = refl
not_for i (k ∷ payload) h = ap (λ z. if z then payload else []) h

opening_carries : (i : ℕ) (f : OutFrame) → (f.cmd == cmd_tcp_open) ≡ true → data_in i f ≡ []
opening_carries i f h = ap (λ z. if z then behind_id i f.body else []) no_data
  where
    no_data : (f.cmd == cmd_tcp_data) ≡ false
    no_data = ground (arith, h)

contents-next :
    (i : ℕ) (st : Stage) (f : OutFrame)
    → (next_stage i st f ≡ disordered) ⊎ (contents (next_stage i st f) ≡ contents st ++ data_in i f)
contents-next i unopened f = elim (Bool-cases (f.cmd == cmd_tcp_open)) [
  | inl opens ↦ elim (Bool-cases (for_id i f.body)) [
    | inl own ↦ inr (rw (opens, own) (sym (opening_carries i f opens)))
    | inr other ↦ inr (rw (opens, other) (sym (opening_carries i f opens)))
  ]
  | inr no_open ↦ elim (Bool-cases (f.cmd == cmd_tcp_data)) [
    | inl has_data ↦ elim (Bool-cases (for_id i f.body)) [
      | inl own ↦ inl (rw (no_open, has_data, own) refl)
      | inr other ↦ inr (rw (no_open, has_data, other) (sym (not_for i f.body other)))
    ]
    | inr no_data ↦ inr (rw (no_open, no_data) refl)
  ]
]
contents-next i (opened b) f = elim (Bool-cases (f.cmd == cmd_tcp_open)) [
  | inl opens ↦ elim (Bool-cases (for_id i f.body)) [
    | inl own ↦ inl (rw (opens, own) refl)
    | inr other ↦
        inr (rw (opens, other) (sym (ap (λ z. b ++ z) (opening_carries i f opens) ∙ append-nil b)))
  ]
  | inr no_open ↦ elim (Bool-cases (f.cmd == cmd_tcp_data)) [
    | inl has_data ↦ inr (rw (no_open, has_data) refl)
    | inr no_data ↦ inr (rw (no_open, no_data) (sym (append-nil b)))
  ]
]
contents-next i disordered f = inl refl

-- What the frames of an opened id carry.
stage-contents :
    (i : ℕ) (st : Stage) (fs : List OutFrame) (b : Bytes)
    → stage i st fs ≡ opened b
    → contents st ++ data_of i fs ≡ b
unfolding data_of
stage-contents i st [] b h = append-nil (contents st) ∙ ap contents h
stage-contents i st (f ∷ fs) b h = elim (contents-next i st f) [
  | inl broken ↦ absurd (cc (sym h ∙ ap (λ z. stage i z fs) broken ∙ stage-disordered i fs))
  | inr e ↦
      sym (append_assoc (contents st) (data_in i f) (data_of i fs))
      ∙ ap (λ z. z ++ data_of i fs) (sym e)
      ∙ stage-contents i (next_stage i st f) fs b h
]

-- What was routed to a connection, against all that was sent for its id.
routed-prefix :
    (i j : ℕ) (st : Stage) (fs : List OutFrame) (b : Bytes) (gate : Tunnel)
    → Arrived i st gate
    → stage i st fs ≡ opened b
    → j < gate.spawned
    → (gate.conn j).conn_id ≡ i
    → (rest : Bytes) × (b ≡ (gate.conn j).routed ++ rest)
routed-prefix i j unopened fs b gate v h less id = absurd (v.absent j less id)
routed-prefix i j (opened c) fs b gate v h less id =
    let (rest, p) = v.prefix j less id in
    (
      rest ++ data_of i fs,
      sym (stage-contents i (opened c) fs b h)
          ∙ ap (λ z. z ++ data_of i fs) p
          ∙ append_assoc (gate.conn j).routed rest (data_of i fs),
    )
routed-prefix i j disordered fs b gate v h less id = absurd (cc (sym h ∙ stage-disordered i fs))

-- All of it, when nothing is under way.
routed_all :
    (i j : ℕ) (st : Stage) (b : Bytes) (gate : Tunnel)
    → Arrived i st gate
    → st ≡ opened b
    → gate.conns i ≡ some j
    → gate.session ≡ waiting
    → b ≡ (gate.conn j).routed
routed_all i j unopened b gate v h m w = absurd (cc h)
routed_all i j (opened c) b gate v h m w =
    sym (ap contents h)
    ∙ v.mapped j m
    ∙ ap (λ p. (gate.conn j).routed ++ pending p j) w
    ∙ append-nil _
routed_all i j disordered b gate v h m w = absurd (cc h)

-- A run of each side; the side that dials was given a first part of what the listening side has put
-- on the wire. `j` is a connection of the listening side whose id no other has had.
module _ (es_home es_gate : List Event) (home gate : Tunnel) (undelivered : List OutFrame) (j l : ℕ)
    (sends_well : Unfailing es_home) (home_run : run false start es_home ≡ some home)
    (no_acceptor : NoAccepts es_gate) (gate_run : run true start es_gate ≡ some gate)
    (relayed : home.wire ≡ arrivals es_gate ++ undelivered) (spawned : j < home.spawned)
    (sole : Sole home j) (registered : is_registering home.acceptor (home.conn j).conn_id ≡ false)
    (same_id : (gate.conn l).conn_id ≡ (home.conn j).conn_id) where
  abbrev id : ℕ
  id = (home.conn j).conn_id

  is_open : IsOpened (stage id unopened (outgoing home))
  is_open =
      (run-start-Announced id es_home home sends_well home_run).behind j spawned refl sole
        registered

  read_all : (home.conn j).received ≡ is_open.0 ++ in_hand (home.conn j).reader
  read_all =
      run-start-Accounted false es_home home j sends_well home_run spawned sole
      ∙ ap (λ z. z ++ in_hand (home.conn j).reader)
          (stage-contents id unopened (outgoing home) is_open.0 is_open.1)

  behind_arrivals :
      stage id (stage id unopened (arrivals es_gate)) (undelivered ++ home.out) ≡ opened is_open.0
  behind_arrivals =
      sym (
        ap (λ z. stage id unopened (z ++ home.out)) relayed
        ∙ ap (stage id unopened) (append_assoc (arrivals es_gate) undelivered home.out)
        ∙ stage-append id unopened (arrivals es_gate) (undelivered ++ home.out))
      ∙ is_open.1

  -- A run of each side from its start, where every send of the listening side went well and the side
  -- that dials has no acceptor and was given, in order, a first part of the frames that the listening
  -- side has put on the wire: for a connection of the listening side whose id no other connection of
  -- that run has had and the acceptor does not hold, and a connection of the same id on the side that
  -- dials, what the second has written to its socket is a prefix of what the first has read from its
  -- own.
  pub written-received :
      l < gate.spawned → (rest : Bytes) × ((home.conn j).received ≡ (gate.conn l).written ++ rest)
  written-received less =
      let (r, p) =
        routed-prefix id l (stage id unopened (arrivals es_gate)) (undelivered ++ home.out)
          is_open.0 gate (run-start-Arrived id es_gate gate no_acceptor gate_run) behind_arrivals
          less same_id in
      let (q, w) = written-prefix true es_gate gate l gate_run in
      (
        q ++ (r ++ in_hand (home.conn j).reader),
        read_all
            ∙ ap (λ z. z ++ in_hand (home.conn j).reader) (p ∙ ap (λ z. z ++ r) w)
            ∙ append_assoc ((gate.conn l).written ++ q) r (in_hand (home.conn j).reader)
            ∙ append_assoc (gate.conn l).written q (r ++ in_hand (home.conn j).reader),
      )

  -- A run of each side from its start, where every send of the listening side went well and the side
  -- that dials has no acceptor and was given, in order, all frames that the listening side has put on
  -- the wire: for a connection of the listening side whose id no other connection of that run has had
  -- and the acceptor does not hold, once its reader has nothing in hand and the out queue is empty,
  -- and once the session loop of the other side is at its select and the writer of the connection
  -- that is mapped there under the id waits at an empty channel, the socket of that connection was
  -- given all that the first has read from its own.
  pub written_received_all :
      in_hand (home.conn j).reader ≡ []
      → home.out ≡ []
      → undelivered ≡ []
      → gate.conns (home.conn j).conn_id ≡ some l
      → gate.session ≡ waiting
      → (gate.conn l).writer ≡ receiving
      → (gate.conn l).queue ≡ []
      → (gate.conn l).written ≡ (home.conn j).received
  written_received_all no_hand no_out all_on mapped at_select waits empty =
      written-all true es_gate gate l gate_run waits empty
      ∙ sym (
          read_all
          ∙ ap (λ z. is_open.0 ++ z) no_hand
          ∙ append-nil is_open.0
          ∙ routed_all id l (stage id unopened (arrivals es_gate)) is_open.0 gate
              (run-start-Arrived id es_gate gate no_acceptor gate_run)
              (sym (
                  ap (λ z. stage id (stage id unopened (arrivals es_gate)) z)
                    (ap (λ z. z ++ home.out) all_on ∙ no_out))
                ∙ behind_arrivals)
              mapped at_select)
