-- ===== src/Tcp/Outgoing.antt =====
-- src/tcp.rs: the bytes of a connection between its socket and the websocket: what its reader has
-- read is in its DATA frames on the wire, then in those in the out queue, then in the reader's hand.
pub mod Readers
pub mod Steps
pub mod Runs
use ws_usb_linux.Base.{
  ℕ, ◌+◌, ◌≤◌, ◌<◌, ◌≡◌, ◌≢◌, inl, inr, refl, sym, ap, ◌∙◌, Bool, true, false, Option, none, some,
  List, [], ◌∷◌, ◌++◌, append-nil, append_assoc, length, ltb, if◌then◌else◌, Bool-cases,
  Option-cases, arith, Bytes, ◌==◌,
}
use ws_usb_linux.Base.Maps.{update, Holds}
use ws_usb_linux.Proto.{cmd_tcp_open, cmd_tcp_data, cmd_tcp_close}
use ws_usb_linux.Tcp.{
  out_queue, OutFrame, Reader, reading, sending, closing, finished, Conn, Tunnel, with_conn,
  send_peer,
}

-- The bytes that a frame carries for a connection.
abbrev pub behind_id : ℕ → Bytes → Bytes
behind_id i [] = []
behind_id i (k ∷ payload) = if k == i then payload else []

abbrev pub data_in : ℕ → OutFrame → Bytes
data_in i f = if f.cmd == cmd_tcp_data then behind_id i f.body else []

unfoldable pub data_of : ℕ → List OutFrame → Bytes
data_of i [] = []
data_of i (f ∷ fs) = data_in i f ++ data_of i fs

abbrev pub in_hand : Reader → Bytes
in_hand (sending chunk) = chunk
in_hand _ = []

pub data_of-append :
    (i : ℕ) (fs gs : List OutFrame) → data_of i (fs ++ gs) ≡ data_of i fs ++ data_of i gs
unfolding data_of
data_of-append i [] gs = refl
data_of-append i (f ∷ fs) gs =
    ap (λ z. data_in i f ++ z) (data_of-append i fs gs)
    ∙ sym (append_assoc (data_in i f) (data_of i fs) (data_of i gs))

-- No other connection has had the id of `j`.
abbrev pub Sole : Tunnel → ℕ → Type 0
Sole s j = (l : ℕ) → l < s.spawned → (s.conn l).conn_id ≡ (s.conn j).conn_id → l ≡ j

abbrev pub outgoing : Tunnel → List OutFrame
outgoing s = s.wire ++ s.out

abbrev pub Accounted : List OutFrame → Conn → Type 0
Accounted fs k = k.received ≡ data_of k.conn_id fs ++ in_hand k.reader

pub record Outgoing (s : Tunnel) : Type 0 where
  pub complete : (j : ℕ) → j < s.spawned → Sole s j → Accounted (outgoing s) (s.conn j)
  pub unused :
      (i : ℕ) → ((l : ℕ) → l < s.spawned → (s.conn l).conn_id ≢ i) → data_of i (outgoing s) ≡ []
  pub idle : (j : ℕ) → s.spawned ≤ j → (s.conn j).reader ≡ finished

-- A step that neither reads, nor spawns, nor adds or loses DATA.
pub record Same (s t : Tunnel) : Type 0 where
  pub spawned_is : t.spawned ≡ s.spawned
  pub id_is : (l : ℕ) → (t.conn l).conn_id ≡ (s.conn l).conn_id
  pub reader_is : (l : ℕ) → (t.conn l).reader ≡ (s.conn l).reader
  pub received_is : (l : ℕ) → (t.conn l).received ≡ (s.conn l).received
  pub data_is : (i : ℕ) → data_of i (outgoing t) ≡ data_of i (outgoing s)

pub Outgoing-Same : (s t : Tunnel) → Same s t → Outgoing s → Outgoing t
Outgoing-Same s t h v = record {
  complete = λ j lt sole.
      h.received_is j
      ∙ v.complete j (omega (arith, lt, h.spawned_is))
          (λ l less e. sole l (omega (arith, less, h.spawned_is)) (h.id_is l ∙ e ∙ sym (h.id_is j)))
      ∙ ap (λ r. data_of (s.conn j).conn_id (outgoing s) ++ in_hand r) (sym (h.reader_is j))
      ∙ ap (λ d. d ++ in_hand (t.conn j).reader) (sym (h.data_is (s.conn j).conn_id))
      ∙ ap (λ i. data_of i (outgoing t) ++ in_hand (t.conn j).reader) (sym (h.id_is j));
  unused = λ i none_has.
      h.data_is i
      ∙ v.unused i (λ l less e. none_has l (omega (arith, less, h.spawned_is)) (h.id_is l ∙ e));
  idle = λ j out. h.reader_is j ∙ v.idle j (omega (arith, out, h.spawned_is));
}

pub Same-refl : (s : Tunnel) → Same s s
Same-refl s = record {
  spawned_is = refl;
  id_is = λ l. refl;
  reader_is = λ l. refl;
  received_is = λ l. refl;
  data_is = λ i. refl;
}

-- A connection changes in what the reader does not touch.
pub Same-conn :
    (s : Tunnel) (j : ℕ) (k : Conn)
    → k.conn_id ≡ (s.conn j).conn_id
    → k.reader ≡ (s.conn j).reader
    → k.received ≡ (s.conn j).received
    → Same s (with_conn s j k)
Same-conn s j k a b c = record {
  spawned_is = refl;
  id_is = λ l. at l (λ k. k.conn_id) a;
  reader_is = λ l. at l (λ k. k.reader) b;
  received_is = λ l. at l (λ k. k.received) c;
  data_is = λ i. refl;
}
  where
    at :
        {A : Type 0} (l : ℕ) (f : Conn → A)
        → f k ≡ f (s.conn j)
        → f (update s.conn j k l) ≡ f (s.conn l)
    at l f e = elim (Bool-cases (j == l)) [
      | inl same ↦ rw (same, update) (e ∙ ap (λ z. f (s.conn z)) (ground arith))
      | inr other ↦ rw (other, update) refl
    ]

-- A frame that a send puts at the end of the out queue.
pub outgoing-sent :
    (i : ℕ) (s : Tunnel) (f : OutFrame)
    → data_of i (s.wire ++ (s.out ++ f ∷ [])) ≡ data_of i (outgoing s) ++ data_in i f
unfolding data_of
outgoing-sent i s f =
    ap (data_of i) (sym (append_assoc s.wire s.out (f ∷ [])))
    ∙ data_of-append i (outgoing s) (f ∷ [])
    ∙ ap (λ z. data_of i (outgoing s) ++ z) (append-nil (data_in i f))

-- A send of anything but DATA.
pub send_peer-Same :
    (s : Tunnel) (cmd : ℕ) (body : Bytes)
    → (cmd == cmd_tcp_data) ≡ false
    → Holds (Same s) (send_peer s cmd body)
unfolding send_peer
send_peer-Same s cmd body other = elim (Bool-cases (ltb (length s.out) out_queue)) [
  | inr full ↦ rw (full, send_peer) tt
  | inl room ↦
      rw (room, send_peer)
        (record {
          spawned_is = refl;
          id_is = λ l. refl;
          reader_is = λ l. refl;
          received_is = λ l. refl;
          data_is = λ i.
              outgoing-sent i s (record { cmd = cmd; body = body })
              ∙ ap (λ z. data_of i (outgoing s) ++ (if z then behind_id i body else [])) other
              ∙ append-nil _;
        })
]
