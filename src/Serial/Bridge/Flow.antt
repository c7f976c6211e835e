-- ===== src/Serial/Bridge/Flow.antt =====
-- src/main.rs: the bounds of the bridge's channels and the bytes on their way through it.
use ws_usb_linux.Base.{
  ◌≤◌, ◌≡◌, inl, inr, sym, ap, subst, ◌∙◌, Bool, true, false, Option, none, some, List, [], ◌∷◌,
  ◌++◌, length, append-nil, append_assoc, ltb, if◌then◌else◌, Bool-cases, arith, Bytes,
}
use ws_usb_linux.Base.Maps.{Holds, length-concat}
use ws_usb_linux.Serial.{ReadResult, got, timed_out, interrupted, eio, failed}
use ws_usb_linux.Crypto.{Crypto}
use ws_usb_linux.Serial.Stream.{joined}
use ws_usb_linux.Serial.Bridge.{
  Side, channel_size, ReadThread, at_read, holding, WriteThread, at_recv, putting, gone, Bridge,
  read_result, send_read, take_net, put_device, deliver_net,
}
use ws_usb_linux.Serial.Bridge.Sessions.{
  joined-append, optional, LinkLog, session_bytes, session_frames, Unbroken, carried,
}
use ws_usb_linux.Tcp.Sessions.{live}

-- The bytes that the threads have in hand.
abbrev pub in_read : ReadThread → Bytes
in_read (holding chunk) = chunk
in_read _ = []

-- The bytes that came, against what the device has been given, what waits, and the chunk that is not
-- in the channel yet.
abbrev pub Outflow : WriteThread → Bytes → Bytes → List Bytes → Option Bytes → Type 0
Outflow at_recv came out queue d = came ≡ out ++ (joined queue ++ optional d)
Outflow (putting chunk) came out queue d = came ≡ out ++ (chunk ++ (joined queue ++ optional d))
Outflow gone came out queue d = (rest : Bytes) × (came ≡ out ++ rest)

pub record BridgeInv (c : Crypto) (side : Side) (s : Bridge) : Type 0 where
  pub dev_bounded : length s.dev_queue ≤ channel_size
  pub net_bounded : length s.net_queue ≤ channel_size
  pub sessions : List LinkLog
  pub wires : s.links ≡ session_frames c side sessions
  pub unbroken : s.phase ≡ live → Unbroken sessions
  pub inflow : s.device_in ≡ session_bytes sessions ++ (joined s.dev_queue ++ in_read s.reader)
  pub outflow : Outflow s.writer (carried c side s.received) s.device_out s.net_queue s.delivery

module _ (c : Crypto) (side : Side) where
  -- What the read thread has in hand.
  inflow-at :
      (s : Bridge) (r : ReadThread)
      → s.reader ≡ r
      → (v : BridgeInv c side s)
      → s.device_in ≡ session_bytes v.sessions ++ (joined s.dev_queue ++ in_read r)
  inflow-at s r e v =
      subst (λ q. s.device_in ≡ session_bytes v.sessions ++ (joined s.dev_queue ++ in_read q)) e
        v.inflow

  pub read_result-Inv :
      (r : ReadResult) (s : Bridge)
      → s.reader ≡ at_read
      → BridgeInv c side s
      → BridgeInv c side (read_result r s)
  unfolding read_result
  read_result-Inv (got []) s e v = record {
    dev_bounded = v.dev_bounded;
    net_bounded = v.net_bounded;
    sessions = v.sessions;
    wires = v.wires;
    unbroken = v.unbroken;
    inflow = inflow-at s at_read e v;
    outflow = v.outflow;
  }
  read_result-Inv (got (b ∷ chunk)) s e v = record {
    dev_bounded = v.dev_bounded;
    net_bounded = v.net_bounded;
    sessions = v.sessions;
    wires = v.wires;
    unbroken = v.unbroken;
    inflow =
        ap (λ z. z ++ (b ∷ chunk)) (inflow-at s at_read e v)
        ∙ append_assoc (session_bytes v.sessions) (joined s.dev_queue ++ []) (b ∷ chunk)
        ∙ ap (λ z. session_bytes v.sessions ++ (z ++ (b ∷ chunk)))
            (append-nil (joined s.dev_queue));
    outflow = v.outflow;
  }
  read_result-Inv failed s e v = record {
    dev_bounded = v.dev_bounded;
    net_bounded = v.net_bounded;
    sessions = v.sessions;
    wires = v.wires;
    unbroken = v.unbroken;
    inflow = inflow-at s at_read e v;
    outflow = v.outflow;
  }
  read_result-Inv timed_out s e v = v
  read_result-Inv interrupted s e v = v
  read_result-Inv eio s e v = v

  pub send_read-Inv :
      (chunk : Bytes) (s : Bridge)
      → s.reader ≡ holding chunk
      → BridgeInv c side s
      → Holds (BridgeInv c side) (send_read chunk s)
  unfolding send_read
  send_read-Inv chunk s e v = elim (Bool-cases (ltb (length s.dev_queue) channel_size)) [
    | inr full ↦ rw (full, send_read) tt
    | inl room ↦
        rw (room, send_read)
          (record {
            dev_bounded = ground (arith, length-concat s.dev_queue chunk, room);
            net_bounded = v.net_bounded;
            sessions = v.sessions;
            wires = v.wires;
            unbroken = v.unbroken;
            inflow =
                inflow-at s (holding chunk) e v
                ∙ ap (λ z. session_bytes v.sessions ++ z)
                    (sym (
                      append-nil _
                      ∙ joined-append s.dev_queue (chunk ∷ [])
                      ∙ ap (λ z. joined s.dev_queue ++ z) (append-nil chunk)));
            outflow = v.outflow;
          })
  ]

  Outflow-at :
      (s : Bridge) (w : WriteThread)
      → s.writer ≡ w
      → BridgeInv c side s
      → Outflow w (carried c side s.received) s.device_out s.net_queue s.delivery
  Outflow-at s w e v =
      subst (λ q. Outflow q (carried c side s.received) s.device_out s.net_queue s.delivery) e
        v.outflow

  pub take_net-Inv :
      (queue : List Bytes) (s : Bridge)
      → s.net_queue ≡ queue
      → s.writer ≡ at_recv
      → BridgeInv c side s
      → Holds (BridgeInv c side) (take_net queue s)
  unfolding take_net
  take_net-Inv [] s q e v = tt
  take_net-Inv (chunk ∷ rest) s q e v = record {
    dev_bounded = v.dev_bounded;
    net_bounded = omega (arith, ap length q, v.net_bounded);
    sessions = v.sessions;
    wires = v.wires;
    unbroken = v.unbroken;
    inflow = v.inflow;
    outflow =
        Outflow-at s at_recv e v
        ∙ ap (λ z. s.device_out ++ (joined z ++ optional s.delivery)) q
        ∙ ap (λ z. s.device_out ++ z) (append_assoc chunk (joined rest) (optional s.delivery));
  }

  pub put_device-Inv :
      (chunk : Bytes) (ok : Bool) (s : Bridge)
      → s.writer ≡ putting chunk
      → BridgeInv c side s
      → BridgeInv c side (put_device chunk ok s)
  unfolding put_device
  put_device-Inv chunk true s e v = record {
    dev_bounded = v.dev_bounded;
    net_bounded = v.net_bounded;
    sessions = v.sessions;
    wires = v.wires;
    unbroken = v.unbroken;
    inflow = v.inflow;
    outflow =
        Outflow-at s (putting chunk) e v
        ∙ sym (append_assoc s.device_out chunk (joined s.net_queue ++ optional s.delivery));
  }
  put_device-Inv chunk false s e v = record {
    dev_bounded = v.dev_bounded;
    net_bounded = v.net_bounded;
    sessions = v.sessions;
    wires = v.wires;
    unbroken = v.unbroken;
    inflow = v.inflow;
    outflow =
        (chunk ++ (joined s.net_queue ++ optional s.delivery), Outflow-at s (putting chunk) e v);
  }

  joined-delivered :
      (chunk : Bytes) (queue : List Bytes)
      → joined queue ++ chunk ≡ joined (queue ++ chunk ∷ []) ++ []
  joined-delivered chunk queue = sym (
      append-nil _
      ∙ joined-append queue (chunk ∷ [])
      ∙ ap (λ z. joined queue ++ z) (append-nil chunk))

  -- The chunk in hand goes into the channel.
  delivered-Outflow :
      (w : WriteThread) (came out chunk : Bytes) (queue : List Bytes)
      → Outflow w came out queue (some chunk)
      → Outflow w came out (queue ++ chunk ∷ []) none
  delivered-Outflow at_recv came out chunk queue h =
      h ∙ ap (λ z. out ++ z) (joined-delivered chunk queue)
  delivered-Outflow (putting b) came out chunk queue h =
      h ∙ ap (λ z. out ++ (b ++ z)) (joined-delivered chunk queue)
  delivered-Outflow gone came out chunk queue h = h

  delivered-Inv :
      (chunk : Bytes) (s : Bridge)
      → s.delivery ≡ some chunk
      → BridgeInv c side s
      → Holds (BridgeInv c side) (
          if ltb (length s.net_queue) channel_size
          then some (record s { delivery = none; net_queue = s.net_queue ++ chunk ∷ [] })
          else none)
  delivered-Inv chunk s e v = elim (Bool-cases (ltb (length s.net_queue) channel_size)) [
    | inr full ↦ rw full tt
    | inl room ↦ rw room (record {
      dev_bounded = v.dev_bounded;
      net_bounded = ground (arith, length-concat s.net_queue chunk, room);
      sessions = v.sessions;
      wires = v.wires;
      unbroken = v.unbroken;
      inflow = v.inflow;
      outflow =
          delivered-Outflow s.writer (carried c side s.received) s.device_out chunk s.net_queue (
            subst (Outflow s.writer (carried c side s.received) s.device_out s.net_queue) e
              v.outflow);
    })
  ]

  pub deliver_net-Inv :
      (w : WriteThread) (chunk : Bytes) (s : Bridge)
      → s.writer ≡ w
      → s.delivery ≡ some chunk
      → BridgeInv c side s
      → Holds (BridgeInv c side) (deliver_net w chunk s)
  unfolding deliver_net
  deliver_net-Inv gone chunk s q e v = record {
    dev_bounded = v.dev_bounded;
    net_bounded = v.net_bounded;
    sessions = v.sessions;
    wires = v.wires;
    unbroken = v.unbroken;
    inflow = v.inflow;
    outflow =
        subst (λ w. Outflow w (carried c side s.received) s.device_out s.net_queue none) (sym q)
          (Outflow-at s gone q v);
  }
  deliver_net-Inv at_recv chunk s q e v = delivered-Inv chunk s e v
  deliver_net-Inv (putting b) chunk s q e v = delivered-Inv chunk s e v
