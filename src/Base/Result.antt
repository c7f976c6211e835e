-- ===== src/Base/Result.antt =====
-- `anyhow::Result`, with one constructor for each error that the modelled code raises.
pub data Error : Type 0 where
  bad_prefix bad_base64 invite_too_short bad_verifying_key intro_too_short : Error
  malformed_identity io_error peer_required bad_target : Error

pub data Result {ℓ} (A : Type ℓ) : Type ℓ where
  err : Error → Result A
  ok : A → Result A

-- What `?` does with a result.
abbrev pub and_then {ℓ κ} : {A : Type ℓ} {B : Type κ} → Result A → (A → Result B) → Result B
and_then (err e) next = err e
and_then (ok a) next = next a
