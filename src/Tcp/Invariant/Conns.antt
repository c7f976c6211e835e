-- ===== src/Tcp/Invariant/Conns.antt =====
-- src/tcp.rs: the invariant through the writers and the readers.
use ws_usb_linux.Base.{
  ℕ, ◌+◌, ◌%◌, ◌^◌, ◌≤◌, ◌≡◌, inl, inr, refl, ap, subst, ◌∙◌, Bool, true, false, List, [], ◌∷◌,
  ◌++◌, length, append_assoc, leb, Bool-cases, arith, Bytes,
}
use ws_usb_linux.Base.Maps.{update-all, Holds}
use ws_usb_linux.Tcp.{
  conn_queue, WrMsg, bytes, shutdown, Writer, receiving, writing, shutting, removing, ended, Reader,
  reading, sending, closing, finished, Conn, Tunnel, with_conn,
}
use ws_usb_linux.Tcp.Tasks.{
  is_ended, read_step, write_step, receive, read_done, has_sender, read_chunk,
}
use ws_usb_linux.Tcp.Invariant.{payloads, Flow, ConnOk, Inv, Mapped-conn}
use ws_usb_linux.Tcp.Invariant.Loop.{send_peer-Inv}

-- The connection alone changes, and stays mapped or unmapped as it was.
Inv-conn :
    (s : Tunnel) (j : ℕ) (k : Conn)
    → Inv s
    → ConnOk k
    → k.conn_id ≡ (s.conn j).conn_id
    → is_ended k.writer ≡ false
    → Inv (with_conn s j k)
Inv-conn s j k v ok same runs = record {
  out_bounded = v.out_bounded;
  conns_ok = update-all ConnOk s.conn j k v.conns_ok ok;
  mapped = Mapped-conn s j k v (λ i e m. (same ∙ m.0, runs));
}

Inv-counters : (s : Tunnel) (tx rx : ℕ) → Inv s → Inv (record s { tx_bytes = tx; rx_bytes = rx })
Inv-counters s tx rx v = record {
  out_bounded = v.out_bounded;
  conns_ok = v.conns_ok;
  mapped = v.mapped;
}

-- The facts of a connection whose writer stands at `w` and whose queue is `q`.
pub record At (s : Tunnel) (j : ℕ) (w : Writer) : Type 0 where
  pub writer_is : (s.conn j).writer ≡ w
  pub bound : length (s.conn j).queue ≤ conn_queue
  pub flow : Flow w (s.conn j)

pub at : (s : Tunnel) (j : ℕ) (w : Writer) → Inv s → (s.conn j).writer ≡ w → At s j w
at s j w v e = record {
  writer_is = e;
  bound = (v.conns_ok j).bounded;
  flow = subst (λ u. Flow u (s.conn j)) e (v.conns_ok j).flow;
}

receive-Inv :
    (s : Tunnel) (j : ℕ) (q : List WrMsg)
    → (s.conn j).queue ≡ q
    → At s j receiving
    → Inv s
    → Holds Inv (receive s j q)
unfolding receive
receive-Inv s j [] e h v = elim (Bool-cases (has_sender s j)) [
  | inl open_yet ↦ rw (open_yet, receive) tt
  | inr shut ↦
      rw (shut, receive)
        (Inv-conn s j _ v (record { bounded = h.bound; flow = (payloads (s.conn j).queue, h.flow) })
          refl refl)
]
receive-Inv s j (bytes b ∷ rest) e h v =
    Inv-counters (with_conn s j _) s.tx_bytes ((s.rx_bytes + length b) % 2 ^ 64) (
      Inv-conn s j (record (s.conn j) { queue = rest; writer = writing b }) v
        (record {
          bounded = omega (arith, ap length e, h.bound);
          flow = h.flow ∙ ap (λ q. (s.conn j).written ++ payloads q) e;
        })
        refl refl)
receive-Inv s j (shutdown ∷ rest) e h v =
    Inv-conn s j _ v
      (record {
        bounded = omega (arith, ap length e, h.bound);
        flow = (payloads rest, h.flow ∙ ap (λ q. (s.conn j).written ++ payloads q) e);
      })
      refl refl

pub write_step-Inv :
    (w : Writer) (s : Tunnel) (j : ℕ) (ok : Bool)
    → At s j w
    → Inv s
    → Holds Inv (write_step w s j ok)
unfolding write_step
write_step-Inv receiving s j ok h v = receive-Inv s j (s.conn j).queue refl h v
write_step-Inv (writing b) s j true h v =
    Inv-conn s j _ v
      (record {
        bounded = h.bound;
        flow = rw (append_assoc (s.conn j).written b (payloads (s.conn j).queue)) h.flow;
      })
      refl refl
write_step-Inv (writing b) s j false h v =
    Inv-conn s j _ v (record { bounded = h.bound; flow = (b ++ payloads (s.conn j).queue, h.flow) })
      refl refl
write_step-Inv shutting s j ok h v =
    Inv-conn s j _ v (record { bounded = h.bound; flow = h.flow }) refl refl
write_step-Inv removing s j ok h v = record {
  out_bounded = v.out_bounded;
  conns_ok = update-all ConnOk s.conn j _ v.conns_ok (record { bounded = h.bound; flow = h.flow });
  mapped = λ i l e. ground (arith, v.mapped i l);
}
write_step-Inv ended s j ok h v = tt

Flow-reader :
    (w : Writer) (k : Conn) (r : Reader) (got : Bytes)
    → Flow w k
    → Flow w (record k { reader = r; received = got })
Flow-reader receiving k r got h = h
Flow-reader _ k r got h = h

Inv-reader :
    (s : Tunnel) (j : ℕ) (r : Reader) (got : Bytes)
    → Inv s
    → Inv (with_conn s j (record (s.conn j) { reader = r; received = got }))
Inv-reader s j r got v = record {
  out_bounded = v.out_bounded;
  conns_ok = update-all ConnOk s.conn j _ v.conns_ok (record {
    bounded = (v.conns_ok j).bounded;
    flow = Flow-reader (s.conn j).writer (s.conn j) r got (v.conns_ok j).flow;
  });
  mapped = Mapped-conn s j _ v (λ i e m. m);
}

read_done-Inv : (s : Tunnel) (j : ℕ) (chunk : Bytes) → Inv s → Inv (read_done s j chunk)
unfolding read_done
read_done-Inv s j [] v = Inv-reader s j closing (s.conn j).received v
read_done-Inv s j (b ∷ chunk) v =
    Inv-counters _ ((s.tx_bytes + length (b ∷ chunk)) % 2 ^ 64) s.rx_bytes
      (Inv-reader s j (sending (b ∷ chunk)) _ v)

pub read_step-Inv :
    (r : Reader) (s : Tunnel) (j : ℕ) (chunk : Bytes) → Inv s → Holds Inv (read_step r s j chunk)
unfolding read_step
read_step-Inv reading s j chunk v = elim (Bool-cases (leb (length chunk) read_chunk)) [
  | inl fits ↦ rw (fits, read_step) (read_done-Inv s j chunk v)
  | inr long ↦ rw (long, read_step) tt
]
read_step-Inv (sending got) s j _ v =
    send_peer-Inv _ _ _ (Inv-reader s j reading (s.conn j).received v)
read_step-Inv closing s j _ v = send_peer-Inv _ _ _ (Inv-reader s j finished (s.conn j).received v)
read_step-Inv finished s j _ v = tt
