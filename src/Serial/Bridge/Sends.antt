-- ===== src/Serial/Bridge/Sends.antt =====
-- src/main.rs: the bridge takes a chunk of the device and sends its frame.
use ws_usb_linux.Base.{
  ℕ, ◌≡◌, refl, sym, ap, subst, ◌∙◌, Bool, true, false, none, some, List, [], ◌∷◌, ◌++◌, length,
  append-nil, append_assoc, arith, Bytes,
}
use ws_usb_linux.Base.Maps.{Holds}
use ws_usb_linux.Crypto.{Crypto}
use ws_usb_linux.Serial.{serial_frame}
use ws_usb_linux.Serial.Stream.{joined}
use ws_usb_linux.Serial.Bridge.{
  Side, ReadThread, at_read, holding, stopped, Bridge, put_frame, send_frame, take_dev,
}
use ws_usb_linux.Tcp.Sessions.{Phase, live, over}
use ws_usb_linux.Serial.Bridge.Sessions.{
  optional, LinkLog, chunk_bytes, session_bytes, session_frames, Unbroken, chunk_bytes-append,
  frames_of-append,
}
use ws_usb_linux.Serial.Bridge.Flow.{in_read, BridgeInv}

-- A chunk that is taken during a session, behind what it has sent.
sent_bytes :
    (h : LinkLog) (hs : List LinkLog) (chunk : Bytes)
    → h.failed_at ≡ none
    → session_bytes hs ++ (chunk_bytes h.sent ++ chunk) ≡ session_bytes (h ∷ hs) ++ chunk
sent_bytes h hs chunk e =
    sym (append_assoc (session_bytes hs) (chunk_bytes h.sent) chunk)
    ∙ ap (λ z. (session_bytes hs ++ z) ++ chunk)
        (sym (ap (λ o. chunk_bytes h.sent ++ optional o) e ∙ append-nil (chunk_bytes h.sent)))

abbrev sending : LinkLog → Bytes → Bytes → LinkLog
sending h nonce chunk = record { sent = h.sent ++ (nonce, chunk) ∷ []; failed_at = none }

abbrev failing : LinkLog → Bytes → LinkLog
failing h chunk = record { sent = h.sent; failed_at = some chunk }

sending-bytes :
    (h : LinkLog) (hs : List LinkLog) (nonce chunk : Bytes)
    → h.failed_at ≡ none
    → session_bytes (sending h nonce chunk ∷ hs) ≡ session_bytes (h ∷ hs) ++ chunk
sending-bytes h hs nonce chunk e =
    ap (λ z. session_bytes hs ++ z) (append-nil _ ∙ chunk_bytes-append h.sent nonce chunk)
    ∙ sent_bytes h hs chunk e

-- The front of the channel goes to the session.
taken-inflow :
    (s : Bridge) (chunk : Bytes) (rest : List Bytes) (before after : List LinkLog)
    → s.dev_queue ≡ chunk ∷ rest
    → session_bytes after ≡ session_bytes before ++ chunk
    → s.device_in ≡ session_bytes before ++ (joined s.dev_queue ++ in_read s.reader)
    → s.device_in ≡ session_bytes after ++ (joined rest ++ in_read s.reader)
taken-inflow s chunk rest before after q e h =
    h
    ∙ ap (λ z. session_bytes before ++ (joined z ++ in_read s.reader)) q
    ∙ ap (λ z. session_bytes before ++ z) (append_assoc chunk (joined rest) (in_read s.reader))
    ∙ sym (append_assoc (session_bytes before) chunk (joined rest ++ in_read s.reader))
    ∙ ap (λ z. z ++ (joined rest ++ in_read s.reader)) (sym e)

module _ (c : Crypto) (side : Side) where
  -- A step that changes neither a queue nor a connection nor what is recorded of the bytes.
  pub aside :
      (s : Bridge) (p : Phase) (seq : ℕ)
      → (p ≡ live → s.phase ≡ live)
      → BridgeInv c side s
      → BridgeInv c side (record s { phase = p; seq = seq })
  aside s p seq h v = record {
    dev_bounded = v.dev_bounded;
    net_bounded = v.net_bounded;
    sessions = v.sessions;
    wires = v.wires;
    unbroken = λ e. v.unbroken (h e);
    inflow = v.inflow;
    outflow = v.outflow;
  }

  sent-Inv :
      (hs : List LinkLog) (s : Bridge) (chunk : Bytes) (rest : List Bytes) (nonce : Bytes)
      (ok : Bool)
      → s.phase ≡ live
      → s.dev_queue ≡ chunk ∷ rest
      → (v : BridgeInv c side s) → v.sessions ≡ hs
      → BridgeInv c side (
          send_frame
            (serial_frame c nonce side.me side.peer side.k_c2s chunk)
            ok
            (record s { dev_queue = rest }))
  unfolding send_frame put_frame
  sent-Inv [] s chunk rest nonce ok l q v e = absurd (subst Unbroken e (v.unbroken l))
  sent-Inv (h ∷ hs) s chunk rest nonce true l q v e =
      let whole : h.failed_at ≡ none = subst Unbroken e (v.unbroken l) in
      record {
        dev_bounded = omega (arith, ap length q, v.dev_bounded);
        net_bounded = v.net_bounded;
        sessions = sending h nonce chunk ∷ hs;
        wires =
            ap (put_frame (serial_frame c nonce side.me side.peer side.k_c2s chunk))
              (v.wires ∙ ap (session_frames c side) e)
            ∙ ap (λ z. z ∷ session_frames c side hs)
                (sym (frames_of-append c side h.sent nonce chunk));
        unbroken = λ _. refl;
        inflow =
            taken-inflow s chunk rest (h ∷ hs) (sending h nonce chunk ∷ hs) q
              (sending-bytes h hs nonce chunk whole)
              (v.inflow ∙ ap (λ z. session_bytes z ++ (joined s.dev_queue ++ in_read s.reader)) e);
        outflow = v.outflow;
      }
  sent-Inv (h ∷ hs) s chunk rest nonce false l q v e =
      let whole : h.failed_at ≡ none = subst Unbroken e (v.unbroken l) in
      record {
        dev_bounded = omega (arith, ap length q, v.dev_bounded);
        net_bounded = v.net_bounded;
        sessions = failing h chunk ∷ hs;
        wires = v.wires ∙ ap (session_frames c side) e;
        unbroken = λ x. absurd (cc (x));
        inflow =
            taken-inflow s chunk rest (h ∷ hs) (failing h chunk ∷ hs) q
              (sent_bytes h hs chunk whole)
              (v.inflow ∙ ap (λ z. session_bytes z ++ (joined s.dev_queue ++ in_read s.reader)) e);
        outflow = v.outflow;
      }

  pub take_dev-Inv :
      (queue : List Bytes) (r : ReadThread) (nonce : Bytes) (ok : Bool) (s : Bridge)
      → s.phase ≡ live
      → s.dev_queue ≡ queue
      → BridgeInv c side s
      → Holds (BridgeInv c side) (take_dev c side queue r nonce ok s)
  unfolding take_dev
  take_dev-Inv (chunk ∷ rest) r nonce ok s l q v =
      sent-Inv v.sessions s chunk rest nonce ok l q v refl
  take_dev-Inv [] stopped nonce ok s l q v = aside s over s.seq (λ e. absurd (cc (e))) v
  take_dev-Inv [] at_read nonce ok s l q v = tt
  take_dev-Inv [] (holding chunk) nonce ok s l q v = tt
