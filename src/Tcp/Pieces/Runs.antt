-- ===== src/Tcp/Pieces/Runs.antt =====
-- src/tcp.rs: the piece of a connection, through every run of either side.
use ws_usb_linux.Base.{
  ℕ, ◌<◌, ◌≡◌, inl, inr, refl, sym, ap, subst, ◌∙◌, Bool, Option, none, some, List, [], ◌∷◌, ◌++◌,
  append-nil, append_assoc, length, leb, Bool-cases, Option-cases, arith, Bytes,
}
use ws_usb_linux.Base.Maps.{Holds, Holds-some}
use ws_usb_linux.Tcp.{
  Reader, reading, sending, closing, finished, Acceptor, accepting, announcing, registering,
  waiting, Tunnel, with_conn, start, send_peer,
}
use ws_usb_linux.Tcp.Tasks.{
  Event, incoming, continue, dialed, sent, accepts, writes, reads, step, run, read_step, read_chunk,
  accept, allocated,
}
use ws_usb_linux.Tcp.Invariant.{Inv, Inv-elsewhere}
use ws_usb_linux.Tcp.Invariant.Steps.{step-Inv, start-Inv, written-prefix}
use ws_usb_linux.Tcp.Outgoing.{data_of}
use ws_usb_linux.Tcp.Outgoing.{data_of-append}
use ws_usb_linux.Tcp.Arriving.{arrivals}
use ws_usb_linux.Tcp.Arriving.Moves.{Still}
use ws_usb_linux.Tcp.Arriving.Loop.{send_peer-Still, drain-Still}
use ws_usb_linux.Tcp.Arriving.Runs.{Still-conn, write_step-Still, read_done-Still}
use ws_usb_linux.Tcp.Pieces.{
  Piece, Piece-Still, Holds-Piece, spawn_connection-Piece, resume-Piece, dial_done-Piece,
}
use ws_usb_linux.Tcp.Pieces.Commands.{nothing-Piece, command-Piece}

-- The acceptor goes on.
acceptor-Still :
    (s : Tunnel) (a : Acceptor) (next : ℕ) → Still s (record s { acceptor = a; next_id = next })
acceptor-Still s a next = record {
  spawned_is = refl;
  id_is = λ l. refl;
  routed_is = λ l. refl;
  shrinks = λ k j e. e;
  session_is = refl;
}

allocated-Still : (s : Tunnel) (r : Option ℕ × ℕ) → Still s (allocated s r)
unfolding allocated
allocated-Still s (none, next) = acceptor-Still s s.acceptor next
allocated-Still s (some k, next) = acceptor-Still s (announcing k) next

accept-Piece :
    (i : ℕ) (a : Acceptor) (d : Bytes) (s : Tunnel)
    → Inv s
    → Piece i d s
    → Holds (Piece i d) (accept a s)
unfolding accept
accept-Piece i accepting d s w v = Piece-Still i d s _ (allocated-Still s _) v
accept-Piece i (announcing k) d s w v =
    Holds-Piece i d (record s { acceptor = registering k }) _
      (Piece-Still i d s _ (acceptor-Still s (registering k) s.next_id) v) (send_peer-Still _ _ _)
accept-Piece i (registering k) d s w v =
    spawn_connection-Piece i k d (record s { acceptor = accepting })
      (Inv-elsewhere s s.session accepting s.next_id w)
      (Piece-Still i d s _ (acceptor-Still s accepting s.next_id) v)

sends-Piece :
    (i : ℕ) (d : Bytes) (s : Tunnel) (j : ℕ) (r : Reader) (cmd : ℕ) (body : Bytes)
    → Piece i d s
    → Holds (Piece i d) (send_peer (with_conn s j (record (s.conn j) { reader = r })) cmd body)
sends-Piece i d s j r cmd body v =
    Holds-Piece i d _ _
      (Piece-Still i d s _
        (Still-conn s j (record (s.conn j) { reader = r }) s.conns s.tx_bytes s.rx_bytes refl refl
          (λ a b e. e))
        v)
      (send_peer-Still _ cmd body)

read_step-Piece :
    (i : ℕ) (d : Bytes) (r : Reader) (s : Tunnel) (j : ℕ) (chunk : Bytes)
    → Piece i d s
    → Holds (Piece i d) (read_step r s j chunk)
unfolding read_step
read_step-Piece i d reading s j chunk v = elim (Bool-cases (leb (length chunk) read_chunk)) [
  | inl fits ↦ rw (fits, read_step) (Piece-Still i d s _ (read_done-Still s j chunk) v)
  | inr long ↦ rw (long, read_step) tt
]
read_step-Piece i d (sending got) s j _ v = sends-Piece i d s j reading _ _ v
read_step-Piece i d closing s j _ v = sends-Piece i d s j finished _ _ v
read_step-Piece i d finished s j _ v = tt

step-Piece :
    (dials : Bool) (i : ℕ) (d : Bytes) (s : Tunnel) (e : Event)
    → Inv s
    → Piece i d s
    → Holds (Piece i (d ++ data_of i (arrivals (e ∷ [])))) (step dials s e)
unfolding step data_of
step-Piece dials i d s (incoming cmd k body) w v =
    subst (λ z. Holds (Piece i (d ++ z)) (step dials s (incoming cmd k body))) (sym (append-nil _))
      (command-Piece i s.session cmd k body d dials s refl w v)
step-Piece dials i d s continue w v =
    subst (λ z. Holds (Piece i z) (step dials s continue)) (sym (append-nil d))
      (resume-Piece i s.session d s refl w v)
step-Piece dials i d s (dialed ok) w v =
    subst (λ z. Holds (Piece i z) (step dials s (dialed ok))) (sym (append-nil d))
      (dial_done-Piece i s.session ok d s refl (Inv-elsewhere s waiting s.acceptor s.next_id w) v)
step-Piece dials i d s (sent ok) w v =
    subst (λ z. Holds (Piece i z) (step dials s (sent ok))) (sym (append-nil d))
      (Holds-Piece i d s _ v (drain-Still s.session ok s.out s))
step-Piece dials i d s accepts w v =
    subst (λ z. Holds (Piece i z) (step dials s accepts)) (sym (append-nil d))
      (accept-Piece i s.acceptor d s w v)
step-Piece dials i d s (writes j ok) w v =
    subst (λ z. Holds (Piece i z) (step dials s (writes j ok))) (sym (append-nil d))
      (Holds-Piece i d s _ v (write_step-Still (s.conn j).writer s j ok))
step-Piece dials i d s (reads j chunk) w v =
    subst (λ z. Holds (Piece i z) (step dials s (reads j chunk))) (sym (append-nil d))
      (read_step-Piece i d (s.conn j).reader s j chunk v)

arrivals-cons : (e : Event) (es : List Event) → arrivals (e ∷ []) ++ arrivals es ≡ arrivals (e ∷ es)
arrivals-cons (incoming cmd k body) es = refl
arrivals-cons continue es = refl
arrivals-cons (dialed ok) es = refl
arrivals-cons (sent ok) es = refl
arrivals-cons accepts es = refl
arrivals-cons (writes j ok) es = refl
arrivals-cons (reads j chunk) es = refl

run-Piece :
    (dials : Bool) (i : ℕ) (d : Bytes) (es : List Event) (s t : Tunnel)
    → Inv s
    → Piece i d s
    → run dials s es ≡ some t
    → Piece i (d ++ data_of i (arrivals es)) t
unfolding run data_of
run-Piece dials i d [] s t w v h = nothing-Piece i d t (subst (Piece i d) {x = s} (ground arith) v)
run-Piece dials i d (e ∷ es) s t w v h = elim (Option-cases (step dials s e)) [
  | inl stuck ↦ absurd (cc (rw (stuck, run) at h))
  | inr (u, q) ↦
      subst (λ z. Piece i z t)
        (append_assoc d (data_of i (arrivals (e ∷ []))) (data_of i (arrivals es))
          ∙ ap (λ z. d ++ z)
              (sym (data_of-append i (arrivals (e ∷ [])) (arrivals es))
                ∙ ap (data_of i) (arrivals-cons e es)))
        (run-Piece dials i (d ++ data_of i (arrivals (e ∷ []))) es u t (step-Inv dials s u e w q)
          (Holds-some (Piece i (d ++ data_of i (arrivals (e ∷ [])))) (step dials s e) u
            (step-Piece dials i d s e w v) q)
          (rw (q, run) at h))
]

-- After any run from the start, on either side, for any connection: what was written to its socket is
-- one piece of the bytes that arrived in DATA for its id, in their order and without a gap; bytes can
-- be missing only before it and after it.
pub written-arrived :
    (dials : Bool) (es : List Event) (t : Tunnel) (j : ℕ)
    → run dials start es ≡ some t
    → j < t.spawned
    → (before : Bytes) × (after : Bytes) × (data_of (t.conn j).conn_id (arrivals es)
        ≡ before ++ ((t.conn j).written ++ after))
written-arrived dials es t j h less =
    let v =
      run-Piece dials (t.conn j).conn_id [] es start t start-Inv
        (record {
          held = tt;
          within = λ l none_yet e. absurd (omega (arith, none_yet));
          mapped = λ l e. absurd (cc e);
          in_hand = tt;
        })
        h in
    let (rest, (before, q)) = v.within j less refl in
    let (more, w) = written-prefix dials es t j h in
    (
      before,
      more ++ rest,
      q ∙ ap (λ z. before ++ z) (ap (λ z. z ++ rest) w ∙ append_assoc (t.conn j).written more rest),
    )
