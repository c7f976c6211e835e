-- ===== src/Tcp/Runs.antt =====
-- src/tcp.rs: runs put together from their steps.
use ws_usb_linux.Base.{
  ℕ, ◌≡◌, ap, Bool, Option, some, List, [], ◌∷◌, ◌++◌, Option-cases, inl, inr, arith,
}
use ws_usb_linux.Tcp.{Writer, Tunnel}
use ws_usb_linux.Tcp.Tasks.{Event, writes, step, run, write_step}

pub step-writes :
    (dials : Bool) (s : Tunnel) (j : ℕ) (ok : Bool) (w : Writer)
    → (s.conn j).writer ≡ w
    → step dials s (writes j ok) ≡ write_step w s j ok
unfolding step
step-writes dials s j ok w e = ap (λ u. write_step u s j ok) e

pub run-cons :
    (dials : Bool) (s u : Tunnel) (e : Event) (es : List Event) (r : Option Tunnel)
    → step dials s e ≡ some u
    → run dials u es ≡ r
    → run dials s (e ∷ es) ≡ r
unfolding run
run-cons dials s u e es r p q = rw (p, run) q

pub run-append :
    (dials : Bool) (s t : Tunnel) (es fs : List Event)
    → run dials s es ≡ some t
    → run dials s (es ++ fs) ≡ run dials t fs
unfolding run
run-append dials s t [] fs h = ap (λ u. run dials u fs) (ground arith)
run-append dials s t (e ∷ es) fs h = elim (Option-cases (step dials s e)) [
  | inl stuck ↦ absurd (cc (rw (stuck, run) at h))
  | inr (u, q) ↦ rw (q, run) (run-append dials u t es fs (rw (q, run) at h))
]
