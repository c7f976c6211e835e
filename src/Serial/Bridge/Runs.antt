-- ===== src/Serial/Bridge/Runs.antt =====
-- src/main.rs: every run of the bridge.
use ws_usb_linux.Base.{
  ◌≡◌, inl, inr, refl, sym, ap, subst, ◌∙◌, true, false, Option, none, some, List, [], ◌∷◌, ◌++◌,
  append-nil, append_assoc, Option-cases, arith, Bytes,
}
use ws_usb_linux.Base.Maps.{Holds, Holds-some}
use ws_usb_linux.Crypto.{Crypto}
use ws_usb_linux.Serial.{serial_incoming, frames_of, chunks_of}
use ws_usb_linux.Serial.Stream.{joined}
use ws_usb_linux.Serial.Bridge.{
  Side, ReadThread, at_read, holding, WriteThread, at_recv, putting, gone, Bridge, idle,
  BridgeEvent, device_read, device_sent, device_take, device_wrote, handshake, backed_off, message,
  delivered, send_chunk, lost, ctrl_c, in_select, bridge_phase, read_thread, write_thread,
  bridge_step, bridge_run,
}
use ws_usb_linux.Tcp.Sessions.{Phase, connecting, unavailable, live, leaving, over}
use ws_usb_linux.Serial.Bridge.Sessions.{optional, new_log, session_bytes, carried, carried-append}
use ws_usb_linux.Serial.Bridge.Flow.{
  in_read, Outflow, BridgeInv, read_result-Inv, send_read-Inv, take_net-Inv, put_device-Inv,
  deliver_net-Inv,
}
use ws_usb_linux.Serial.Bridge.Sends.{aside, take_dev-Inv}

module _ (c : Crypto) (side : Side) where
  -- The chunk of a message that has just come is on its way.
  received-Outflow :
      (w : WriteThread) (s : Bridge) (frame : Bytes)
      → Outflow w (carried c side s.received) s.device_out s.net_queue none
      → Outflow w
          (carried c side (s.received ++ frame ∷ []))
          s.device_out
          s.net_queue
          (serial_incoming c side.me side.peer side.k_s2c frame)
  received-Outflow at_recv s frame h =
      let o = serial_incoming c side.me side.peer side.k_s2c frame in
      carried-append c side s.received frame
      ∙ ap (λ z. z ++ optional o) h
      ∙ append_assoc s.device_out _ (optional o)
      ∙ ap (λ z. s.device_out ++ (z ++ optional o)) (append-nil (joined s.net_queue))
  received-Outflow (putting b) s frame h =
      let o = serial_incoming c side.me side.peer side.k_s2c frame in
      carried-append c side s.received frame
      ∙ ap (λ z. z ++ optional o) h
      ∙ append_assoc s.device_out _ (optional o)
      ∙ ap (λ z. s.device_out ++ ((b ++ z) ++ optional o)) (append-nil (joined s.net_queue))
      ∙ ap (λ z. s.device_out ++ z) (append_assoc b (joined s.net_queue) (optional o))
  received-Outflow gone s frame (rest, h) =
      let o = serial_incoming c side.me side.peer side.k_s2c frame in
      (
        rest ++ optional o,
        carried-append c side s.received frame
            ∙ ap (λ z. z ++ optional o) h
            ∙ append_assoc s.device_out rest (optional o),
      )

  in_select-Inv :
      (d : Option Bytes) (e : BridgeEvent) (s : Bridge)
      → s.phase ≡ live
      → s.delivery ≡ d
      → BridgeInv c side s
      → Holds (BridgeInv c side) (in_select c side d e s)
  unfolding in_select
  in_select-Inv none (message frame) s l q v = record {
    dev_bounded = v.dev_bounded;
    net_bounded = v.net_bounded;
    sessions = v.sessions;
    wires = v.wires;
    unbroken = v.unbroken;
    inflow = v.inflow;
    outflow =
        received-Outflow s.writer s frame (
          subst (Outflow s.writer (carried c side s.received) s.device_out s.net_queue) q
            v.outflow);
  }
  in_select-Inv none (send_chunk nonce ok) s l q v =
      take_dev-Inv c side s.dev_queue s.reader nonce ok s l refl v
  in_select-Inv none lost s l q v = aside c side s leaving s.seq (λ e. absurd (cc (e))) v
  in_select-Inv none ctrl_c s l q v = aside c side s over s.seq (λ e. absurd (cc (e))) v
  in_select-Inv (some chunk) delivered s l q v = deliver_net-Inv c side s.writer chunk s refl q v
  in_select-Inv _ e s l q v = tt

  bridge_phase-Inv :
      (p : Phase) (e : BridgeEvent) (s : Bridge)
      → s.phase ≡ p
      → BridgeInv c side s
      → Holds (BridgeInv c side) (bridge_phase c side p e s)
  unfolding bridge_phase frames_of
  bridge_phase-Inv connecting (handshake true) s q v = record {
    dev_bounded = v.dev_bounded;
    net_bounded = v.net_bounded;
    sessions = new_log ∷ v.sessions;
    wires = ap (λ z. [] ∷ z) v.wires;
    unbroken = λ _. refl;
    inflow =
        v.inflow
        ∙ ap (λ z. z ++ (joined s.dev_queue ++ in_read s.reader))
            (sym (append-nil (session_bytes v.sessions)));
    outflow = v.outflow;
  }
  bridge_phase-Inv connecting (handshake false) s q v =
      aside c side s unavailable s.seq (λ e. absurd (cc (e))) v
  bridge_phase-Inv unavailable backed_off s q v =
      aside c side s connecting s.seq (λ e. absurd (cc (e))) v
  bridge_phase-Inv unavailable ctrl_c s q v = aside c side s over s.seq (λ e. absurd (cc (e))) v
  bridge_phase-Inv live e s q v = in_select-Inv s.delivery e s q refl v
  bridge_phase-Inv leaving backed_off s q v =
      aside c side s connecting s.seq (λ e. absurd (cc (e))) v
  bridge_phase-Inv _ e s q v = tt

  read_thread-Inv :
      (r : ReadThread) (e : BridgeEvent) (s : Bridge)
      → s.reader ≡ r
      → BridgeInv c side s
      → Holds (BridgeInv c side) (read_thread r e s)
  unfolding read_thread
  read_thread-Inv at_read (device_read r) s q v = read_result-Inv c side r s q v
  read_thread-Inv (holding chunk) device_sent s q v = send_read-Inv c side chunk s q v
  read_thread-Inv _ e s q v = tt

  write_thread-Inv :
      (w : WriteThread) (e : BridgeEvent) (s : Bridge)
      → s.writer ≡ w
      → BridgeInv c side s
      → Holds (BridgeInv c side) (write_thread w e s)
  unfolding write_thread
  write_thread-Inv at_recv device_take s q v = take_net-Inv c side s.net_queue s refl q v
  write_thread-Inv (putting chunk) (device_wrote ok) s q v = put_device-Inv c side chunk ok s q v
  write_thread-Inv _ e s q v = tt

  bridge_step-Inv :
      (s : Bridge) (e : BridgeEvent)
      → BridgeInv c side s
      → Holds (BridgeInv c side) (bridge_step c side s e)
  unfolding bridge_step
  bridge_step-Inv s (device_read r) v = read_thread-Inv s.reader (device_read r) s refl v
  bridge_step-Inv s device_sent v = read_thread-Inv s.reader device_sent s refl v
  bridge_step-Inv s device_take v = write_thread-Inv s.writer device_take s refl v
  bridge_step-Inv s (device_wrote ok) v = write_thread-Inv s.writer (device_wrote ok) s refl v
  bridge_step-Inv s (handshake ok) v = bridge_phase-Inv s.phase (handshake ok) s refl v
  bridge_step-Inv s backed_off v = bridge_phase-Inv s.phase backed_off s refl v
  bridge_step-Inv s (message m) v = bridge_phase-Inv s.phase (message m) s refl v
  bridge_step-Inv s delivered v = bridge_phase-Inv s.phase delivered s refl v
  bridge_step-Inv s (send_chunk n ok) v = bridge_phase-Inv s.phase (send_chunk n ok) s refl v
  bridge_step-Inv s lost v = bridge_phase-Inv s.phase lost s refl v
  bridge_step-Inv s ctrl_c v = bridge_phase-Inv s.phase ctrl_c s refl v

  bridge_run-Inv :
      (es : List BridgeEvent) (s t : Bridge)
      → BridgeInv c side s
      → bridge_run c side s es ≡ some t
      → BridgeInv c side t
  unfolding bridge_run
  bridge_run-Inv [] s t v h = subst (BridgeInv c side) {x = s} (ground arith) v
  bridge_run-Inv (e ∷ es) s t v h = elim (Option-cases (bridge_step c side s e)) [
    | inl stopped_there ↦ absurd (cc (rw (stopped_there, bridge_run) at h))
    | inr (u, q) ↦
        bridge_run-Inv es u t
          (Holds-some (BridgeInv c side) (bridge_step c side s e) u (bridge_step-Inv s e v) q)
          (rw (q, bridge_run) at h)
  ]

  -- After any run of the bridge, through any losses of the connection: each channel holds at most 256
  -- chunks. There are sessions, one for each websocket, for which these hold: the frames of chunks
  -- that a websocket has taken are, in order, the frames that the bridge builds for the chunks which
  -- its session sent; all that was read from the device is, in order and session by session, the
  -- chunks that were sent and, at most once in a session and as the last of it, a chunk whose send
  -- failed, then the chunks in the channel, then the one that the read thread holds; and while the
  -- loop is live there is a session and no send has failed in the newest. And the bytes of the serial
  -- messages that came are, in order, what was written to the device, what the write thread holds,
  -- what waits, and the chunk that the loop is about to put behind it (once a write has failed, they
  -- begin with what was written).
  pub bridge_run-idle-Inv :
      (es : List BridgeEvent) (t : Bridge) → bridge_run c side idle es ≡ some t → BridgeInv c side t
  unfolding chunks_of
  bridge_run-idle-Inv es t = bridge_run-Inv es idle t (record {
    dev_bounded = omega arith;
    net_bounded = omega arith;
    sessions = [];
    wires = refl;
    unbroken = λ e. absurd (cc (e));
    inflow = refl;
    outflow = refl;
  })
