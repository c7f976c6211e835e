-- ===== src/Tcp/Outgoing/Readers.antt =====
-- src/tcp.rs: the bytes on their way when a connection is spawned and when its reader moves.
use ws_usb_linux.Base.{
  ℕ, ◌+◌, ◌<◌, ◌≡◌, ◌≢◌, inl, inr, refl, sym, ap, subst, ◌∙◌, List, [], ◌∷◌, ◌++◌, append-nil,
  length, ltb, leb, Bool-cases, arith, Bytes, ◌==◌,
}
use ws_usb_linux.Base.Maps.{update, update_self, update_ne, Holds}
use ws_usb_linux.Proto.{cmd_tcp_data, cmd_tcp_close}
use ws_usb_linux.Tcp.{
  out_queue, OutFrame, Reader, reading, sending, closing, finished, Conn, Tunnel, send_peer,
  spawn_connection, new_conn,
}
use ws_usb_linux.Tcp.Tasks.{read_step, read_done, read_chunk}
use ws_usb_linux.Tcp.Outgoing.{
  behind_id, data_of, in_hand, Sole, outgoing, Accounted, Outgoing, outgoing-sent,
}

pub spawn_connection-Outgoing : (s : Tunnel) (i : ℕ) → Outgoing s → Outgoing (spawn_connection s i)
unfolding spawn_connection
spawn_connection-Outgoing s i v = record {
  complete = complete;
  unused = λ k none_has. v.unused k (λ l less e.
      none_has l (omega (arith, less)) (ap (λ c. c.conn_id) (kept l (omega (arith, less))) ∙ e));
  idle = λ j out. ap (λ c. c.reader) (kept j (omega (arith, out))) ∙ v.idle j (omega (arith, out));
}
  where
    kept : (l : ℕ) → l ≢ s.spawned → update s.conn s.spawned (new_conn i) l ≡ s.conn l
    kept l h = update_ne s.conn s.spawned l (new_conn i) (λ e. h (sym e))

    first : update s.conn s.spawned (new_conn i) s.spawned ≡ new_conn i
    first = update_self s.conn s.spawned (new_conn i)

    complete :
        (j : ℕ)
        → j < s.spawned + 1
        → Sole (spawn_connection s i) j
        → Accounted (outgoing s) (update s.conn s.spawned (new_conn i) j)
    complete j lt sole = elim (Bool-cases (s.spawned == j)) [
      | inl same ↦
          let at : update s.conn s.spawned (new_conn i) j ≡ new_conn i = rw (same, update) refl in
          let here : j ≡ s.spawned = ground arith in
          subst (Accounted (outgoing s)) (sym at) (
            sym (
              append-nil _
              ∙ v.unused i (λ l less e. omega (
                arith,
                less,
                here,
                sole l (omega (arith, less)) (
                    ap (λ c. c.conn_id) (kept l (omega (arith, less)))
                    ∙ e
                    ∙ sym (ap (λ c. c.conn_id) at)),
              ))))
      | inr other ↦
          let apart : j ≢ s.spawned = ground arith in
          let at = kept j apart in
          subst (Accounted (outgoing s)) (sym at) (
            v.complete j (omega (arith, lt, apart)) (λ l less e. sole l (omega (arith, less)) (
              ap (λ c. c.conn_id) (kept l (omega (arith, less)))
              ∙ e
              ∙ sym (ap (λ c. c.conn_id) at))))
    ]

-- The reader of `j`, which has not ended, moves and perhaps sends.
Outgoing-reader :
    (s : Tunnel) (j : ℕ) (r : Reader) (got : Bytes) (out : List OutFrame) (tx : ℕ)
    → (s.conn j).reader ≢ finished
    → (Accounted (outgoing s) (s.conn j)
        → Accounted (s.wire ++ out) (record (s.conn j) { reader = r; received = got }))
    → ((i : ℕ) → i ≢ (s.conn j).conn_id → data_of i (s.wire ++ out) ≡ data_of i (outgoing s))
    → Outgoing s
    → Outgoing (record s {
      conn = update s.conn j (record (s.conn j) { reader = r; received = got });
      out = out;
      tx_bytes = tx;
    })
Outgoing-reader s j r got out tx runs own others v = record {
  complete = complete;
  unused = λ i none_has.
      others i (λ e. none_has j present (id_is j ∙ sym e))
      ∙ v.unused i (λ l less e. none_has l less (id_is l ∙ e));
  idle = λ l past. ap (λ c. c.reader) (kept l (omega (arith, past, present))) ∙ v.idle l past;
}
  where
    k : Conn
    k = record (s.conn j) { reader = r; received = got }

    present : j < s.spawned
    present = elim (Bool-cases (ltb j s.spawned)) [
      | inl less ↦ ground arith
      | inr past ↦ absurd (runs (v.idle j (ground arith)))
    ]

    kept : (l : ℕ) → l ≢ j → update s.conn j k l ≡ s.conn l
    kept l h = update_ne s.conn j l k (λ e. h (sym e))

    id_is : (l : ℕ) → (update s.conn j k l).conn_id ≡ (s.conn l).conn_id
    id_is l = elim (Bool-cases (j == l)) [
      | inl same ↦ rw (same, update) (ap (λ z. (s.conn z).conn_id) (ground arith))
      | inr other ↦ rw (other, update) refl
    ]

    complete :
        (l : ℕ)
        → l < s.spawned
        → ((m : ℕ)
            → m < s.spawned
            → (update s.conn j k m).conn_id ≡ (update s.conn j k l).conn_id
            → m ≡ l)
        → Accounted (s.wire ++ out) (update s.conn j k l)
    complete l lt sole =
        let sole_before : Sole s l = λ m less e. sole m less (id_is m ∙ e ∙ sym (id_is l)) in
        elim (Bool-cases (j == l)) [
          | inl same ↦
              let here : j ≡ l = ground arith in
              subst (λ z. Accounted (s.wire ++ out) (update s.conn j k z)) here
                (subst (Accounted (s.wire ++ out)) (sym (update_self s.conn j k))
                  (own (v.complete j present (subst (Sole s) (sym here) sole_before))))
          | inr other ↦
              let apart : l ≢ j = ground arith in
              subst (Accounted (s.wire ++ out)) (sym (kept l apart)) (
                v.complete l lt sole_before
                ∙ ap (λ d. d ++ in_hand (s.conn l).reader)
                    (sym (
                      others (s.conn l).conn_id
                        (λ e. apart (sym (sole_before j present (sym e)))))))
        ]

runs_at :
    (s : Tunnel) (j : ℕ) (r : Reader)
    → (s.conn j).reader ≡ r
    → r ≢ finished
    → (s.conn j).reader ≢ finished
runs_at s j r e h q = h (sym e ∙ q)

-- What is accounted for, with the reader's place known.
holding :
    (s : Tunnel) (j : ℕ) (r : Reader)
    → (s.conn j).reader ≡ r
    → Accounted (outgoing s) (s.conn j)
    → (s.conn j).received ≡ data_of (s.conn j).conn_id (outgoing s) ++ in_hand r
holding s j r e h = h ∙ ap (λ z. data_of (s.conn j).conn_id (outgoing s) ++ in_hand z) e

read_done-Outgoing :
    (s : Tunnel) (j : ℕ) (chunk : Bytes)
    → (s.conn j).reader ≡ reading
    → Outgoing s
    → Outgoing (read_done s j chunk)
unfolding read_done
read_done-Outgoing s j [] e v =
    Outgoing-reader s j closing (s.conn j).received s.out s.tx_bytes
      (runs_at s j reading e (λ q. absurd (cc q))) (holding s j reading e) (λ i h. refl) v
read_done-Outgoing s j (b ∷ chunk) e v =
    Outgoing-reader s j (sending (b ∷ chunk)) ((s.conn j).received ++ (b ∷ chunk)) s.out _
      (runs_at s j reading e (λ q. absurd (cc q)))
      (λ h. ap (λ z. z ++ (b ∷ chunk)) (holding s j reading e h ∙ append-nil _)) (λ i h. refl) v

-- A frame with the connection's id at its front is for no other.
other_id : (i k : ℕ) (payload : Bytes) → i ≢ k → behind_id i (k ∷ payload) ≡ []
other_id i k payload h = ground arith

own_id : (k : ℕ) (payload : Bytes) → behind_id k (k ∷ payload) ≡ payload
own_id k payload = ground arith

pub read_step-Outgoing :
    (r : Reader) (s : Tunnel) (j : ℕ) (chunk : Bytes)
    → (s.conn j).reader ≡ r
    → Outgoing s
    → Holds Outgoing (read_step r s j chunk)
unfolding read_step send_peer
read_step-Outgoing reading s j chunk e v = elim (Bool-cases (leb (length chunk) read_chunk)) [
  | inl fits ↦ rw (fits, read_step) (read_done-Outgoing s j chunk e v)
  | inr long ↦ rw (long, read_step) tt
]
read_step-Outgoing (sending got) s j _ e v = elim (Bool-cases (ltb (length s.out) out_queue)) [
  | inr full ↦ rw (full, send_peer) tt
  | inl room ↦
      let i = (s.conn j).conn_id in
      let f : OutFrame = record { cmd = cmd_tcp_data; body = i ∷ got } in
      rw (room, send_peer)
        (Outgoing-reader s j reading (s.conn j).received (s.out ++ f ∷ []) s.tx_bytes
          (runs_at s j (sending got) e (λ q. absurd (cc q)))
          (λ h.
            holding s j (sending got) e h
            ∙ ap (λ z. data_of i (outgoing s) ++ z) (sym (own_id i got))
            ∙ sym (append-nil _ ∙ outgoing-sent i s f))
          (λ l apart.
            outgoing-sent l s f
            ∙ ap (λ z. data_of l (outgoing s) ++ z) (other_id l i got apart)
            ∙ append-nil _)
          v)
]
read_step-Outgoing closing s j _ e v = elim (Bool-cases (ltb (length s.out) out_queue)) [
  | inr full ↦ rw (full, send_peer) tt
  | inl room ↦
      let f : OutFrame = record { cmd = cmd_tcp_close; body = (s.conn j).conn_id ∷ [] } in
      rw (room, send_peer)
        (Outgoing-reader s j finished (s.conn j).received (s.out ++ f ∷ []) s.tx_bytes
          (runs_at s j closing e (λ q. absurd (cc q)))
          (λ h.
            holding s j closing e h
            ∙ ap (λ z. z ++ []) (sym (outgoing-sent (s.conn j).conn_id s f ∙ append-nil _)))
          (λ l apart. outgoing-sent l s f ∙ append-nil _) v)
]
read_step-Outgoing finished s j _ e v = tt
