-- ===== src/Tcp/Announcing.antt =====
-- src/tcp.rs: the order of OPEN and DATA in what the listening side sends.
pub mod Steps
pub mod Runs
use ws_usb_linux.Base.{
  ℕ, ◌+◌, ◌≤◌, ◌<◌, ◌≡◌, ◌≢◌, inl, inr, refl, sym, ap, subst, ◌∙◌, Bool, true, false, Option, none,
  some, List, [], ◌∷◌, ◌++◌, append-nil, append_assoc, length, ltb, leb, if◌then◌else◌, Bool-cases,
  arith, Bytes, ◌==◌,
}
use ws_usb_linux.Base.Maps.{update, update_hit, update_miss, Holds}
use ws_usb_linux.Proto.{cmd_tcp_open, cmd_tcp_data, cmd_tcp_close}
use ws_usb_linux.Tcp.{
  out_queue, OutFrame, Conn, Session, Acceptor, accepting, announcing, registering, Tunnel,
  spawn_connection, new_conn, send_peer,
}
use ws_usb_linux.Tcp.Outgoing.{outgoing, Sole, behind_id}
use ws_usb_linux.Tcp.Arriving.{
  Stage, unopened, opened, disordered, next_stage, stage, stage-append, NoConn,
}

-- The acceptor has sent OPEN for the id and not spawned the connection yet.
abbrev pub is_registering : Acceptor → ℕ → Bool
is_registering (registering k) i = k == i
is_registering _ i = false

abbrev pub IsOpened : Stage → Type 0
IsOpened st = (b : Bytes) × (st ≡ opened b)

abbrev pub sent_stage : ℕ → Tunnel → Stage
sent_stage i s = stage i unopened (outgoing s)

pub record Announced (i : ℕ) (s : Tunnel) : Type 0 where
  pub before : NoConn i s → is_registering s.acceptor i ≡ false → sent_stage i s ≡ unopened
  pub between : NoConn i s → is_registering s.acceptor i ≡ true → sent_stage i s ≡ opened []
  pub behind :
      (j : ℕ)
      → j < s.spawned
      → (s.conn j).conn_id ≡ i
      → Sole s j
      → is_registering s.acceptor i ≡ false
      → IsOpened (sent_stage i s)

-- A step that spawns nothing, leaves the acceptor alone and sends nothing of the id but perhaps DATA.
pub record Even (i : ℕ) (s t : Tunnel) : Type 0 where
  pub spawned_is : t.spawned ≡ s.spawned
  pub id_is : (l : ℕ) → (t.conn l).conn_id ≡ (s.conn l).conn_id
  pub registering_is : is_registering t.acceptor i ≡ is_registering s.acceptor i
  pub unseen : NoConn i s → sent_stage i t ≡ sent_stage i s
  pub open_yet : IsOpened (sent_stage i s) → IsOpened (sent_stage i t)

pub Announced-Even : (i : ℕ) (s t : Tunnel) → Even i s t → Announced i s → Announced i t
Announced-Even i s t h v = record {
  before = λ n r. h.unseen (earlier n) ∙ v.before (earlier n) (sym h.registering_is ∙ r);
  between = λ n r. h.unseen (earlier n) ∙ v.between (earlier n) (sym h.registering_is ∙ r);
  behind = λ j less e sole r. h.open_yet (
      v.behind j (omega (arith, less, h.spawned_is)) (sym (h.id_is j) ∙ e)
        (λ l q k. sole l (omega (arith, q, h.spawned_is)) (h.id_is l ∙ k ∙ sym (h.id_is j)))
        (sym h.registering_is ∙ r));
}
  where
    earlier : NoConn i t → NoConn i s
    earlier n l less e = n l (omega (arith, less, h.spawned_is)) (h.id_is l ∙ e)

-- Nothing is sent and no id changes.
pub Even-quiet :
    (i : ℕ) (s t : Tunnel)
    → t.spawned ≡ s.spawned
    → ((l : ℕ) → (t.conn l).conn_id ≡ (s.conn l).conn_id)
    → is_registering t.acceptor i ≡ is_registering s.acceptor i
    → outgoing t ≡ outgoing s
    → Even i s t
Even-quiet i s t a b c d = record {
  spawned_is = a;
  id_is = b;
  registering_is = c;
  unseen = λ n. ap (stage i unopened) d;
  open_yet = λ o. (o.0, ap (stage i unopened) d ∙ o.1);
}

pub updated_id :
    (conn : ℕ → Conn) (j : ℕ) (k : Conn)
    → k.conn_id ≡ (conn j).conn_id
    → (l : ℕ) → (update conn j k l).conn_id ≡ (conn l).conn_id
updated_id conn j k e l = elim (Bool-cases (j == l)) [
  | inl same ↦
      ap (λ c. c.conn_id) (update_hit conn j k l same)
      ∙ e
      ∙ ap (λ z. (conn z).conn_id) (ground arith)
  | inr other ↦ ap (λ c. c.conn_id) (update_miss conn j k l other)
]

-- What a frame at the end of the out queue does to the stage.
pub stage-sent :
    (i : ℕ) (s : Tunnel) (f : OutFrame)
    → stage i unopened (s.wire ++ (s.out ++ f ∷ [])) ≡ next_stage i (sent_stage i s) f
stage-sent i s f =
    ap (stage i unopened) (sym (append_assoc s.wire s.out (f ∷ [])))
    ∙ stage-append i unopened (outgoing s) (f ∷ [])

-- CLOSE says nothing of an id.
pub close_stage :
    (i : ℕ) (st : Stage) (body : Bytes)
    → next_stage i st (record { cmd = cmd_tcp_close; body = body }) ≡ st
close_stage i unopened body = refl
close_stage i (opened b) body = refl
close_stage i disordered body = refl

apart : (k i : ℕ) → k ≢ i → (k == i) ≡ false
apart k i h = ground arith

-- DATA leaves an opened id open, and other ids as they are.
pub data_stage :
    (i k : ℕ) (st : Stage) (payload : Bytes)
    → k ≢ i
    → next_stage i st (record { cmd = cmd_tcp_data; body = k ∷ payload }) ≡ st
data_stage i k unopened payload h = ground arith
data_stage i k (opened b) payload h =
    ap opened (ap (λ z. b ++ (if z then payload else [])) (apart k i h) ∙ append-nil b)
data_stage i k disordered payload h = refl

pub open_stage :
    (i k : ℕ) (st : Stage)
    → k ≢ i
    → next_stage i st (record { cmd = cmd_tcp_open; body = k ∷ [] }) ≡ st
open_stage i k unopened h = ground arith
open_stage i k (opened b) h = ground arith
open_stage i k disordered h = refl

-- The connection is spawned whose OPEN was sent.
pub spawn_connection-Announced :
    (i k : ℕ) (s : Tunnel)
    → s.acceptor ≡ registering k
    → Announced i s
    → Announced i (spawn_connection (record s { acceptor = accepting }) k)
unfolding spawn_connection
spawn_connection-Announced i k s e v = record {
  before = λ n r.
      v.before (earlier n)
        (registers ∙ apart k i (λ same. n s.spawned (omega arith) (new_id s.spawned refl ∙ same)));
  between = λ n r. absurd (cc);
  behind = λ j less q sole r. elim (Bool-cases (s.spawned == j)) [
    | inl hit ↦
        let here : s.spawned ≡ j = ground arith in
        let same : k ≡ i = sym (new_id j here) ∙ q in
        (
          [],
          v.between
              (λ l l_less l_id. omega (
                arith,
                l_less,
                here,
                sole l (omega (arith, l_less)) (old_id l l_less ∙ l_id ∙ sym q),
              ))
              (registers ∙ ground (arith, same)),
        )
    | inr miss ↦
        let j_less : j < s.spawned = ground (arith, less) in
        v.behind j j_less (sym (old_id j j_less) ∙ q)
          (λ l l_less l_id.
            sole l (omega (arith, l_less)) (old_id l l_less ∙ l_id ∙ sym (old_id j j_less)))
          (registers
            ∙ apart k i (λ same.
              omega (
                arith,
                j_less,
                sole s.spawned (omega arith) (new_id s.spawned refl ∙ same ∙ sym q),
              )))
  ];
}
  where
    registers : is_registering s.acceptor i ≡ (k == i)
    registers = ap (λ a. is_registering a i) e

    new_id : (j : ℕ) → s.spawned ≡ j → (update s.conn s.spawned (new_conn k) j).conn_id ≡ k
    new_id j h =
        ap (λ c. c.conn_id) (update_hit s.conn s.spawned (new_conn k) j (ground (arith, h)))

    old_id :
        (l : ℕ)
        → l < s.spawned
        → (update s.conn s.spawned (new_conn k) l).conn_id ≡ (s.conn l).conn_id
    old_id l h =
        ap (λ c. c.conn_id) (update_miss s.conn s.spawned (new_conn k) l (ground (arith, h)))

    earlier :
        ((l : ℕ) → l < s.spawned + 1 → (update s.conn s.spawned (new_conn k) l).conn_id ≢ i)
        → NoConn i s
    earlier n l less h = n l (omega (arith, less)) (old_id l less ∙ h)
