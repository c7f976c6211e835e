-- ===== src/Serial/Bridge/Sessions.antt =====
-- src/main.rs: what the connections of a bridge carry.
use ws_usb_linux.Base.{
  ◌≡◌, refl, sym, ap, ◌∙◌, Option, none, some, List, [], ◌∷◌, ◌++◌, append-nil, append_assoc, Bytes,
}
use ws_usb_linux.Crypto.{Crypto}
use ws_usb_linux.Serial.{serial_frame, frames_of, chunks_of, serial_incoming, forward}
use ws_usb_linux.Serial.Stream.{joined}
use ws_usb_linux.Serial.Bridge.{Side}

pub joined-append : (xs ys : List Bytes) → joined (xs ++ ys) ≡ joined xs ++ joined ys
joined-append [] ys = refl
joined-append (x ∷ xs) ys =
    ap (λ z. x ++ z) (joined-append xs ys) ∙ sym (append_assoc x (joined xs) (joined ys))

abbrev pub optional : Option Bytes → Bytes
optional none = []
optional (some chunk) = chunk

-- What the loop has taken off its channel during one connection: the chunks whose frames the
-- websocket took, each with the nonce of its frame, and the chunk behind them whose send failed.
pub record LinkLog : Type 0 where
  pub sent : List (Bytes × Bytes)
  pub failed_at : Option Bytes

abbrev pub new_log : LinkLog
new_log = record { sent = []; failed_at = none }

abbrev pub chunk_bytes : List (Bytes × Bytes) → Bytes
chunk_bytes [] = []
chunk_bytes ((nonce, chunk) ∷ rest) = chunk ++ chunk_bytes rest

-- The newest session stands first.
abbrev pub session_bytes : List LinkLog → Bytes
session_bytes [] = []
session_bytes (h ∷ hs) = session_bytes hs ++ (chunk_bytes h.sent ++ optional h.failed_at)

-- The frames of each session, as the bridge builds them.
abbrev pub session_frames : Crypto → Side → List LinkLog → List (List Bytes)
session_frames c side [] = []
session_frames c side (h ∷ hs) =
    frames_of c side.me side.peer side.k_c2s h.sent ∷ session_frames c side hs

-- There is a newest session, and in it no send has failed.
abbrev pub Unbroken : List LinkLog → Type 0
Unbroken [] = ⊥
Unbroken (h ∷ hs) = h.failed_at ≡ none

pub chunk_bytes-append :
    (xs : List (Bytes × Bytes)) (nonce chunk : Bytes)
    → chunk_bytes (xs ++ (nonce, chunk) ∷ []) ≡ chunk_bytes xs ++ chunk
chunk_bytes-append [] nonce chunk = append-nil chunk
chunk_bytes-append ((n, x) ∷ xs) nonce chunk =
    ap (λ z. x ++ z) (chunk_bytes-append xs nonce chunk)
    ∙ sym (append_assoc x (chunk_bytes xs) chunk)

pub frames_of-append :
    (c : Crypto) (side : Side) (xs : List (Bytes × Bytes)) (nonce chunk : Bytes)
    → frames_of c side.me side.peer side.k_c2s (xs ++ (nonce, chunk) ∷ [])
      ≡ frames_of c side.me side.peer side.k_c2s xs
        ++ serial_frame c nonce side.me side.peer side.k_c2s chunk ∷ []
unfolding frames_of
frames_of-append c side [] nonce chunk = refl
frames_of-append c side ((n, x) ∷ xs) nonce chunk =
    ap (λ z. serial_frame c n side.me side.peer side.k_c2s x ∷ z)
      (frames_of-append c side xs nonce chunk)

-- The bytes in the messages that have come.
abbrev pub carried : Crypto → Side → List Bytes → Bytes
carried c side frames = joined (chunks_of c side.me side.peer side.k_s2c frames)

joined-forward :
    (o : Option Bytes) (rest : List Bytes) → joined (forward o rest) ≡ optional o ++ joined rest
unfolding forward
joined-forward none rest = refl
joined-forward (some chunk) rest = refl

pub carried-append :
    (c : Crypto) (side : Side) (xs : List Bytes) (frame : Bytes)
    → carried c side (xs ++ frame ∷ [])
      ≡ carried c side xs ++ optional (serial_incoming c side.me side.peer side.k_s2c frame)
unfolding chunks_of
carried-append c side [] frame = joined-forward _ [] ∙ append-nil _
carried-append c side (x ∷ xs) frame =
    let o = serial_incoming c side.me side.peer side.k_s2c x in
    joined-forward o _
    ∙ ap (λ z. optional o ++ z) (carried-append c side xs frame)
    ∙ sym (append_assoc (optional o) (carried c side xs) _)
    ∙ ap (λ z. z ++ optional (serial_incoming c side.me side.peer side.k_s2c frame))
        (sym (joined-forward o (chunks_of c side.me side.peer side.k_s2c xs)))
