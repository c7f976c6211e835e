-- ===== src/Cli/Main/Resolving.antt =====
-- src/main.rs: where `resolve_peer` and the numbers of `main` take what they give.
use ws_usb_linux.Base.{
  ℕ, ◌^◌, ◌≡◌, ◌⊎◌, inl, inr, refl, sym, ap, ◌∙◌, Option, none, some, Option-cases, arith,
}
use ws_usb_linux.Base.Text.{Text, codes}
use ws_usb_linux.Base.Numerals.{parse_unsigned, parse_unsigned_iff}
use ws_usb_linux.Base.Result.{ok, err, Error, and_then, peer_required}
use ws_usb_linux.Crypto.{Crypto}
use ws_usb_linux.Proto.{Peer}
use ws_usb_linux.Proto.Invite.{decode_qr}
use ws_usb_linux.Idfile.{Env, or_else}
use ws_usb_linux.Cli.{Cli, flag, or_first, positional_at, positional_slot, required, resolve_peer}
use ws_usb_linux.Cli.Main.Sound.{
  Given, by_flag, by_position, by_variable, ComesFrom, Unresolved, IsPort, IsBaud,
}
use ws_usb_linux.Cli.Main.{parsed_at, default_baud}

or_first-eq_none : (a b : Option Text) → or_first a b ≡ none → (a ≡ none) × (b ≡ none)
unfolding or_first
or_first-eq_none none b h = (refl, h)
or_first-eq_none (some a) b h = absurd (cc)

required-eq_ok :
    (c : Crypto) (o : Option Text) (p : Peer)
    → and_then (required o) (decode_qr c) ≡ ok p
    → (invite : Text) × (o ≡ some invite) × (decode_qr c invite ≡ ok p)
unfolding required
required-eq_ok c none p h = absurd (cc)
required-eq_ok c (some invite) p h = (invite, refl, h)

required-eq_err :
    (c : Crypto) (o : Option Text) (e : Error)
    → and_then (required o) (decode_qr c) ≡ err e
    → ((o ≡ none) × (e ≡ peer_required))
      ⊎ ((invite : Text) × (o ≡ some invite) × (decode_qr c invite ≡ err e))
unfolding required
required-eq_err c none e h = inl (refl, cc (h))
required-eq_err c (some invite) e h = inr (invite, refl, h)

module _ (c : Crypto) (env : Env) (cli : Cli) where
  slot-some :
      (index : Option ℕ) (a : Text)
      → positional_slot cli index ≡ some a
      → (i : ℕ) × (index ≡ some i) × (positional_at cli.positionals i ≡ some a)
  unfolding positional_slot
  slot-some none a h = absurd (cc)
  slot-some (some i) a h = (i, refl, h)

  slot-none :
      (index : Option ℕ) (i : ℕ)
      → positional_slot cli index ≡ none
      → index ≡ some i
      → positional_at cli.positionals i ≡ none
  unfolding positional_slot
  slot-none none i h e = absurd (cc (e))
  slot-none (some j) i h e =
      let same : j ≡ i = cc (e) in ap (positional_at cli.positionals) (sym same) ∙ h

  abbrev invite_at : Option ℕ → Option Text
  invite_at index =
      or_first (flag cli (codes "peer"))
        (or_first (positional_slot cli index) (env (codes "USBWS_PEER")))

  first-Given :
      (index : Option ℕ) (f pos v : Option Text) (invite : Text)
      → flag cli (codes "peer") ≡ f
      → positional_slot cli index ≡ pos
      → env (codes "USBWS_PEER") ≡ v
      → or_first f (or_first pos v) ≡ some invite
      → Given env cli index invite
  unfolding or_first
  first-Given index (some a) pos v invite e k w h = by_flag (e ∙ h)
  first-Given index none (some a) v invite e k w h =
      let (i, named, found) = slot-some index a k in by_position i e named (found ∙ h)
  first-Given index none none v invite e k w h =
      by_variable e (λ i named. slot-none index i k named) (w ∙ h)

  none-Given :
      (index : Option ℕ) (invite : Text) → invite_at index ≡ none → ¬ Given env cli index invite
  none-Given index invite h (by_flag e) =
      let (no_flag, _) = or_first-eq_none _ _ h in absurd (cc (e, no_flag))
  none-Given index invite h (by_position i _ named found) =
      let (_, rest) = or_first-eq_none _ _ h in
      let (no_slot, _) = or_first-eq_none _ _ rest in
      absurd (cc (found, slot-none index i no_slot named))
  none-Given index invite h (by_variable _ _ e) =
      let (_, rest) = or_first-eq_none _ _ h in
      let (_, unset) = or_first-eq_none _ _ rest in absurd (cc (e, unset))

  pub resolve_peer-ComesFrom :
      (index : Option ℕ) (p : Peer)
      → resolve_peer c env cli index ≡ ok p
      → ComesFrom c env cli index p
  unfolding resolve_peer
  resolve_peer-ComesFrom index p h =
      let (invite, found, decoded) = required-eq_ok c (invite_at index) p h in
      (invite, first-Given index _ _ _ invite refl refl refl found, decoded)

  pub resolve_peer-Unresolved :
      (index : Option ℕ) (e : Error)
      → resolve_peer c env cli index ≡ err e
      → Unresolved c env cli index e
  unfolding resolve_peer
  resolve_peer-Unresolved index e h = elim (required-eq_err c (invite_at index) e h) [
    | inl (absent, why) ↦ inr ((λ invite g. none-Given index invite absent g), why)
    | inr (invite, found, bad) ↦
        inl (invite, first-Given index _ _ _ invite refl refl refl found, bad)
  ]

pub parsed_at-IsBaud : (o : Option Text) → IsBaud o (or_else (parsed_at (2 ^ 32) o) default_baud)
unfolding parsed_at
parsed_at-IsBaud none = inr ((λ s n e. absurd (cc (e))), refl)
parsed_at-IsBaud (some s) = elim (Option-cases (parse_unsigned (2 ^ 32) s)) [
  | inr (n, e) ↦ rw e (inl (s, refl, (parse_unsigned_iff (2 ^ 32) n s (omega arith)).0 e))
  | inl e ↦ rw e (
      inr (
        λ t n q spelt.
            let same : s ≡ t = cc (q) in
            absurd (
              cc (
                e,
                ap (parse_unsigned (2 ^ 32)) same,
                (parse_unsigned_iff (2 ^ 32) n t (omega arith)).1 spelt,
              )),
        refl,
      ))
]

pub parsed_at-IsPort :
    (o : Option Text) (port : ℕ) → parsed_at (2 ^ 16) o ≡ some port → IsPort o port
unfolding parsed_at
parsed_at-IsPort none port h = absurd (cc)
parsed_at-IsPort (some s) port h = (s, refl, (parse_unsigned_iff (2 ^ 16) port s (omega arith)).0 h)

pub parsed_at-none : (o : Option Text) (port : ℕ) → parsed_at (2 ^ 16) o ≡ none → ¬ IsPort o port
unfolding parsed_at
parsed_at-none none port h (s, e, _) = absurd (cc (e))
parsed_at-none (some t) port h (s, e, spelt) =
    let same : t ≡ s = cc (e) in
    absurd (
      cc (
        h,
        ap (parse_unsigned (2 ^ 16)) same,
        (parse_unsigned_iff (2 ^ 16) port s (omega arith)).1 spelt,
      ))
