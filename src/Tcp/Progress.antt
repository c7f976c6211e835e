-- ===== src/Tcp/Progress.antt =====
-- src/tcp.rs: the writers go on as long as their sockets take what they write, and so does the
-- session loop when it waits for one of them.
use ws_usb_linux.Base.{
  ℕ, ◌%◌, ◌^◌, ◌+◌, ◌≡◌, refl, sym, ap, ◌∙◌, Bool, true, some, List, [], ◌∷◌, ◌++◌, length, map,
  append-nil, append_assoc, Bytes,
}
use ws_usb_linux.Base.Maps.{update, update_self}
use ws_usb_linux.Tcp.{WrMsg, bytes, receiving, writing, Tunnel, with_conn, start}
use ws_usb_linux.Tcp.Tasks.{Event, writes, run, write_step, receive}
use ws_usb_linux.Tcp.Runs.{step-writes, run-cons, run-append}
use ws_usb_linux.Tcp.Invariant.{payloads}
use ws_usb_linux.Tcp.Invariant.Steps.{run-start-Inv}
use ws_usb_linux.Tcp.Invariant.Conns.{at}

-- What one successful write of the first chunk leaves.
abbrev wrote : Tunnel → ℕ → Bytes → List WrMsg → Tunnel
wrote s j b rest = record s {
  conn =
      update s.conn j
        (record (s.conn j) { queue = rest; writer = receiving; written = (s.conn j).written ++ b });
  rx_bytes = (s.rx_bytes + length b) % 2 ^ 64;
}

-- The writer takes a chunk off the channel and writes it.
write_chunk :
    (dials : Bool) (s : Tunnel) (j : ℕ) (b : Bytes) (rest : List WrMsg)
    → (s.conn j).writer ≡ receiving
    → (s.conn j).queue ≡ bytes b ∷ rest
    → (t : Tunnel) × (run dials s (writes j true ∷ writes j true ∷ []) ≡ some t)
      × ((t.conn j).writer ≡ receiving)
      × ((t.conn j).queue ≡ rest)
      × ((t.conn j).written ≡ (s.conn j).written ++ b)
      × (t.session ≡ s.session)
unfolding run write_step receive
write_chunk dials s j b rest w q = (
  t,
  run-cons dials s u (writes j true) (writes j true ∷ []) _
      (step-writes dials s j true receiving w ∙ ap (receive s j) q)
      (run-cons dials u t (writes j true) [] _
        (step-writes dials u j true (writing b) (ap (λ k. k.writer) at_u)) refl),
  ap (λ k. k.writer) at_t,
  ap (λ k. k.queue) at_t ∙ ap (λ k. k.queue) at_u,
  ap (λ k. k.written) at_t ∙ ap (λ k. k.written ++ b) at_u,
  refl,
)
  where
    u : Tunnel
    u = record s {
      conn = update s.conn j (record (s.conn j) { queue = rest; writer = writing b });
      rx_bytes = (s.rx_bytes + length b) % 2 ^ 64;
    }

    t : Tunnel
    t = with_conn u j (record (u.conn j) { writer = receiving; written = (u.conn j).written ++ b })

    at_u : u.conn j ≡ record (s.conn j) { queue = rest; writer = writing b }
    at_u = update_self s.conn j _

    at_t : t.conn j ≡ record (u.conn j) { writer = receiving; written = (u.conn j).written ++ b }
    at_t = update_self u.conn j _

-- Two steps of a writer for each chunk.
abbrev pub writing_out : ℕ → List Bytes → List Event
writing_out j [] = []
writing_out j (b ∷ chunks) = writes j true ∷ writes j true ∷ writing_out j chunks

write_chunks :
    (dials : Bool) (s : Tunnel) (j : ℕ) (chunks : List Bytes)
    → (s.conn j).writer ≡ receiving
    → (s.conn j).queue ≡ map bytes chunks
    → (t : Tunnel) × (run dials s (writing_out j chunks) ≡ some t)
      × ((t.conn j).writer ≡ receiving)
      × ((t.conn j).queue ≡ [])
      × ((t.conn j).written ≡ (s.conn j).written ++ payloads (map bytes chunks))
unfolding run
write_chunks dials s j [] w q = (s, refl, w, q, sym (append-nil (s.conn j).written))
write_chunks dials s j (b ∷ chunks) w q =
    let (u, first, w', q', done, _) = write_chunk dials s j b (map bytes chunks) w q in
    let (t, rest, w'', q'', all_done) = write_chunks dials u j chunks w' q' in
    (
      t,
      run-append dials s u (writes j true ∷ writes j true ∷ []) (writing_out j chunks) first ∙ rest,
      w'',
      q'',
      all_done
          ∙ ap (λ x. x ++ payloads (map bytes chunks)) done
          ∙ append_assoc (s.conn j).written b _,
    )

-- What has been routed arrives: in every reachable state, a connection whose writer waits and whose
-- queue holds n chunks of data and no half-close gets, with 2 n successful steps of its own writer
-- and no step of any other task, to a state where its socket has been given all that had been routed.
pub writing_out-delivers :
    (dials : Bool) (es : List Event) (s : Tunnel) (j : ℕ) (chunks : List Bytes)
    → run dials start es ≡ some s
    → (s.conn j).writer ≡ receiving
    → (s.conn j).queue ≡ map bytes chunks
    → (t : Tunnel) × (run dials s (writing_out j chunks) ≡ some t)
      × ((t.conn j).queue ≡ [])
      × ((t.conn j).written ≡ (s.conn j).routed)
writing_out-delivers dials es s j chunks r w q =
    let (t, steps, _, empty, done) = write_chunks dials s j chunks w q in
    let flow = (at s j receiving (run-start-Inv dials es s r) w).flow in
    (t, steps, empty, done ∙ sym (flow ∙ ap (λ z. (s.conn j).written ++ payloads z) q))
