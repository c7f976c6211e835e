-- ===== src/Tcp/Pieces/Relayed.antt =====
-- src/tcp.rs: a connection from one end of the tunnel to the other, in either direction.
use ws_usb_linux.Base.{◌<◌, ◌≡◌, sym, ap, ◌∙◌, Bool, some, List, ◌++◌, append_assoc, ℕ, Bytes}
use ws_usb_linux.Tcp.{OutFrame, Tunnel, start}
use ws_usb_linux.Tcp.Tasks.{Event, run}
use ws_usb_linux.Tcp.Outgoing.{data_of, data_of-append, in_hand, Sole}
use ws_usb_linux.Tcp.Outgoing.Runs.{Unfailing, run-start-Accounted}
use ws_usb_linux.Tcp.Arriving.{arrivals}
use ws_usb_linux.Tcp.Pieces.Runs.{written-arrived}

-- Put together from three parts.
piece_of :
    (before written after more rest d all : Bytes)
    → d ≡ before ++ (written ++ after)
    → all ≡ (d ++ more) ++ rest
    → all ≡ before ++ (written ++ (after ++ (more ++ rest)))
piece_of before written after more rest d all p q =
    q
    ∙ append_assoc d more rest
    ∙ ap (λ z. z ++ (more ++ rest)) p
    ∙ append_assoc before (written ++ after) (more ++ rest)
    ∙ ap (λ z. before ++ z) (append_assoc written after (more ++ rest))

-- A run of each side from its start, in either direction, where every send of the sending side went
-- well and the other was given, in order, a first part of the frames that the first has put on the
-- wire: for a connection of the sending side whose id no other connection of that run has had, and
-- any connection of the same id on the other side, what the second has written to its socket is one
-- piece, without a gap, of what the first has read from its own.
pub received-written :
    (dials dials' : Bool) (es_from es_to : List Event) (from to : Tunnel)
    (undelivered : List OutFrame) (j l : ℕ)
    → Unfailing es_from
    → run dials start es_from ≡ some from
    → run dials' start es_to ≡ some to
    → from.wire ≡ arrivals es_to ++ undelivered
    → j < from.spawned
    → Sole from j
    → l < to.spawned
    → (to.conn l).conn_id ≡ (from.conn j).conn_id
    → (before : Bytes) × (after : Bytes) × ((from.conn j).received
        ≡ before ++ ((to.conn l).written ++ after))
received-written dials dials' es_from es_to from to undelivered j l well from_run to_run relayed
      less sole l_less same =
    let id = (from.conn j).conn_id in
    let (before, after, p) = written-arrived dials' es_to to l to_run l_less in
    let rest = in_hand (from.conn j).reader in
    let sent : (from.conn j).received
        ≡ (data_of id (arrivals es_to) ++ data_of id (undelivered ++ from.out)) ++ rest =
      run-start-Accounted dials es_from from j well from_run less sole
      ∙ ap (λ z. data_of id (z ++ from.out) ++ rest) relayed
      ∙ ap (λ z. data_of id z ++ rest) (append_assoc (arrivals es_to) undelivered from.out)
      ∙ ap (λ z. z ++ rest) (data_of-append id (arrivals es_to) (undelivered ++ from.out)) in
    (
      before,
      after ++ (data_of id (undelivered ++ from.out) ++ rest),
      piece_of before (to.conn l).written after (data_of id (undelivered ++ from.out)) rest
          (data_of id (arrivals es_to)) (from.conn j).received
          (ap (λ i. data_of i (arrivals es_to)) (sym same) ∙ p) sent,
    )
