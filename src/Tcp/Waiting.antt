-- ===== src/Tcp/Waiting.antt =====
-- src/tcp.rs: `run_tcp_connect_accept` while it has no peer. The binary messages of all its
-- connections, in order, are an argument. Each comes with the table file as it stands then, which the
-- gate reads anew at every introduction: another process may change it meanwhile.
use ws_usb_linux.Base.{
  ℕ, ◌≡◌, ◌⊎◌, inl, inr, refl, sym, ap, subst, ◌∙◌, Bool, true, false, Option, none, some, List, [],
  ◌∷◌, ◌==◌, if◌then◌else◌, Option-cases, arith, Bytes,
}
use ws_usb_linux.Base.Result.{Result, ok, err}
use ws_usb_linux.Crypto.{Crypto}
use ws_usb_linux.Proto.{Identity, Peer, cmd_intro_from}
use ws_usb_linux.Proto.Frames.{decode_server_frame}
use ws_usb_linux.Proto.Invite.{decode_intro_from, Announces, decode_intro_from_iff}
use ws_usb_linux.Authorized.{Entry, File, load, authorize_initiator, decide_table, add}
use ws_usb_linux.Authorized.Policy.{MayEnter, authorize_initiator_iff}
use ws_usb_linux.Relay.{Relay}

-- `inner.len() >= 3 && inner[2] == CMD_INTRO_FROM`, and the body.
unfoldable pub intro_body : Option Bytes → Option Bytes
intro_body (some (_ ∷ (_ ∷ (cmd ∷ body)))) = if cmd == cmd_intro_from then some body else none
intro_body _ = none

decoded : Crypto → Option Bytes → Option (Result Peer)
decoded c none = none
decoded c (some body) = some (decode_intro_from c body)

considered : Crypto → Bool → Bool → File → Option (Result Peer) → Option Peer × File
considered c no_pinning can_write file (some (ok p)) =
    authorize_initiator c no_pinning can_write file p
considered c no_pinning can_write file _ = (none, file)

-- One binary message: the initiator, if it is taken, and the table file afterwards.
unfoldable pub on_intro :
    Crypto → Bool → Bool → Identity → Relay → Bytes → Bytes → File → Option Peer × File
unfolding decoded considered
on_intro c no_pinning can_write me relay k_s2c frame file = considered c no_pinning can_write file (
    decoded c (
      intro_body
        (decode_server_frame c frame k_s2c me.x_priv relay.server_x_pub relay.server_ed_vk)))

-- A binary message, with the table file and whether it can be written when the message comes.
pub record Arrival : Type 0 where
  pub frame : Bytes
  pub file : File
  pub can_write : Bool

-- The loop, up to the first initiator that is taken; the file is the one that is left then.
unfoldable pub await_initiator :
    Crypto → Bool → Identity → Relay → Bytes → List Arrival → Option (Peer × File)
await_initiator c no_pinning me relay k_s2c [] = none
await_initiator c no_pinning me relay k_s2c (a ∷ rest) =
    let (taken, after) = on_intro c no_pinning a.can_write me relay k_s2c a.frame a.file in
    elim taken [
      | none ↦ await_initiator c no_pinning me relay k_s2c rest
      | some p ↦ some (p, after)
    ]

-- A frame in which the configured server introduces this peer.
pub record Introduces (c : Crypto) (me : Identity) (relay : Relay) (k_s2c : Bytes) (p : Peer)
    (frame : Bytes) : Type 0 where
  pub id_low : ℕ
  pub id_high : ℕ
  pub body : Bytes
  pub from_server :
      decode_server_frame c frame k_s2c me.x_priv relay.server_x_pub relay.server_ed_vk
      ≡ some (id_low ∷ id_high ∷ 0x47 ∷ body)
  pub announced : Announces c body p

-- What the table file is after a peer has entered.
abbrev pub IsLeft : Crypto → Bool → Bool → File → Peer → File → Type 0
IsLeft c no_pinning can_write file p after =
    (after ≡ file)
    ⊎ ((no_pinning ≡ false)
        × (load c file ≡ ok [])
        × (after ≡ (add c can_write file p.x_pub p.nick).0))

-- A message at which the gate may go on with the peer.
pub record TakenAt (c : Crypto) (no_pinning : Bool) (me : Identity) (relay : Relay) (k_s2c : Bytes)
    (p : Peer) (after : File) (a : Arrival) : Type 0 where
  pub introduces : Introduces c me relay k_s2c p a.frame
  pub enters : MayEnter c no_pinning a.file p
  pub left : IsLeft c no_pinning a.can_write a.file p after

-- Some element of the list has it.
abbrev pub Any {ℓ} : {A : Type ℓ} → (A → Type 0) → List A → Type 0
Any P [] = ⊥
Any P (x ∷ xs) = P x ⊎ Any P xs

intro_body-eq_some :
    (o : Option Bytes) (body : Bytes)
    → intro_body o ≡ some body
    → (a : ℕ) × (b : ℕ) × (o ≡ some (a ∷ b ∷ 0x47 ∷ body))
unfolding intro_body
intro_body-eq_some (some (a ∷ (b ∷ (cmd ∷ rest)))) body h = (a, b, ground arith)
intro_body-eq_some _ body h = absurd (cc)

decoded-eq_ok :
    (c : Crypto) (o : Option Bytes) (p : Peer)
    → decoded c o ≡ some (ok p)
    → (body : Bytes) × (o ≡ some body) × (decode_intro_from c body ≡ ok p)
unfolding decoded
decoded-eq_ok c none p h = absurd (cc)
decoded-eq_ok c (some body) p h = (body, refl, ground arith)

module _ (c : Crypto) (no_pinning can_write : Bool) (file : File) where
  decide_table-taken :
      (p q : Peer) (r : Result (List Entry))
      → (decide_table c can_write file p r).0 ≡ some q
      → p ≡ q
  unfolding decide_table
  decide_table-taken p q (err x) h = absurd (cc)
  decide_table-taken p q (ok []) h = ground arith
  decide_table-taken p q (ok (x ∷ es)) h = ground arith

  authorize_initiator-taken :
      (p q : Peer) (b : Bool) → (authorize_initiator c b can_write file p).0 ≡ some q → p ≡ q
  unfolding authorize_initiator
  authorize_initiator-taken p q true h = ground arith
  authorize_initiator-taken p q false h = decide_table-taken p q (load c file) h

  decide_table-IsLeft :
      (p : Peer) (r : Result (List Entry))
      → no_pinning ≡ false
      → load c file ≡ r
      → IsLeft c no_pinning can_write file p (decide_table c can_write file p r).1
  unfolding decide_table
  decide_table-IsLeft p (err x) b e = inl refl
  decide_table-IsLeft p (ok []) b e = inr (b, e, refl)
  decide_table-IsLeft p (ok (x ∷ es)) b e = inl refl

  authorize_initiator-IsLeft :
      (p : Peer) (b : Bool)
      → no_pinning ≡ b
      → IsLeft c no_pinning can_write file p (authorize_initiator c b can_write file p).1
  unfolding authorize_initiator
  authorize_initiator-IsLeft p true e = inl refl
  authorize_initiator-IsLeft p false e = decide_table-IsLeft p (load c file) e refl

  considered-taken :
      (o : Option (Result Peer)) (p : Peer)
      → (considered c no_pinning can_write file o).0 ≡ some p
      → (o ≡ some (ok p))
        × MayEnter c no_pinning file p
        × IsLeft c no_pinning can_write file p (considered c no_pinning can_write file o).1
  unfolding considered
  considered-taken none p h = absurd (cc)
  considered-taken (some (err e)) p h = absurd (cc)
  considered-taken (some (ok q)) p h =
      let same : q ≡ p = authorize_initiator-taken q p no_pinning h in
      (
        ap (λ z. some (ok z)) same,
        subst (MayEnter c no_pinning file) same
            ((authorize_initiator_iff c can_write file q no_pinning).0.0 (h ∙ ap some (sym same))),
        subst
            (λ z.
              IsLeft c no_pinning can_write file z
                (authorize_initiator c no_pinning can_write file q).1)
            same (authorize_initiator-IsLeft q no_pinning refl),
      )

module _ (c : Crypto) (no_pinning : Bool) (me : Identity) (relay : Relay) (k_s2c : Bytes) where
  on_intro-taken :
      (a : Arrival) (p : Peer)
      → (on_intro c no_pinning a.can_write me relay k_s2c a.frame a.file).0 ≡ some p
      → TakenAt c no_pinning me relay k_s2c p
          (on_intro c no_pinning a.can_write me relay k_s2c a.frame a.file).1
          a
  unfolding on_intro
  on_intro-taken a p h =
      let inner =
        decode_server_frame c a.frame k_s2c me.x_priv relay.server_x_pub relay.server_ed_vk in
      let (introduced, enters, left) =
        considered-taken c no_pinning a.can_write a.file (decoded c (intro_body inner)) p h in
      let (body, carried, read) = decoded-eq_ok c (intro_body inner) p introduced in
      let (low, high, opened) = intro_body-eq_some inner body carried in
      record {
        introduces = record {
          id_low = low;
          id_high = high;
          body = body;
          from_server = opened;
          announced = (decode_intro_from_iff c body p).0 read;
        };
        enters = enters;
        left = left;
      }

  -- The gate goes on with a peer only if at one of the messages these hold: it is a frame in which
  -- the configured server introduces this peer, two keys of 32 bytes and a nick; by the table as it
  -- stands at this message, whatever it was before, the peer may enter: pinning is off, the table
  -- has no entry, or the peer is listed; and the file that is left is the file as it stood, or, when
  -- pinning is on and the table has no entry, what adding the peer makes of it.
  pub await_initiator-taken :
      (arrivals : List Arrival) (p : Peer) (after : File)
      → await_initiator c no_pinning me relay k_s2c arrivals ≡ some (p, after)
      → Any (TakenAt c no_pinning me relay k_s2c p after) arrivals
  unfolding await_initiator
  await_initiator-taken [] p after h = absurd (cc)
  await_initiator-taken (a ∷ rest) p after h =
      let now = on_intro c no_pinning a.can_write me relay k_s2c a.frame a.file in
      elim (Option-cases now.0) [
        | inl e ↦ inr (await_initiator-taken rest p after (rw (e, await_initiator) at h))
        | inr (q, e) ↦
            let same : some (q, now.1) ≡ some (p, after) = rw (e, await_initiator) at h in
            let who : q ≡ p = cc (same) in
            let left : now.1 ≡ after = cc (same) in
            inl (
              subst (λ f. TakenAt c no_pinning me relay k_s2c p f a) left
                (on_intro-taken a p (e ∙ ap some who)))
      ]
