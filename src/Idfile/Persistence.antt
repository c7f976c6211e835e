-- ===== src/Idfile/Persistence.antt =====
-- src/idfile.rs: the identity file over several runs.
use ws_usb_linux.Base.{
  ◌≡◌, refl, sym, ap, ◌∙◌, Bool, true, false, some, [], ◌∷◌, ◌++◌, length, Bytes, IsBytes, All,
  All-map, All-append, arith, append_assoc,
}
use ws_usb_linux.Base.Text.{Text, codes, is_whitespace, trim, trim_start, lines, strip_prefix}
use ws_usb_linux.Base.Trim.{IsInk, trim-ink}
use ws_usb_linux.Base.Lines.{Ended-newline, IsInline, lines-append, lines_line}
use ws_usb_linux.Base.Result.{ok}
use ws_usb_linux.Crypto.{Crypto, CryptoLaws, IsHex}
use ws_usb_linux.Proto.{from_seeds}
use ws_usb_linux.Authorized.{missing, text, sized_32}
use ws_usb_linux.Idfile.{
  Seeds, decode_hex32, seed_line, seed_lines, chosen_seeds, no_seeds, parse_identity, identity_body,
  load_or_create,
}

-- A seed: 32 bytes.
abbrev pub IsSeed : Bytes → Type 0
IsSeed b = (length b ≡ 32) × IsBytes b

module _ {c : Crypto} (laws : CryptoLaws c) where
  hex-IsInk : (h : Text) → IsHex h → All IsInk h
  unfolding is_whitespace
  hex-IsInk h a = All-map h (λ x e. ground arith) a

  hex-IsInline : (h : Text) → IsHex h → All IsInline h
  hex-IsInline h a = All-map h (λ x e. ground arith) a

  decode_hex32-hex : (b : Bytes) → IsSeed b → decode_hex32 c (trim (c.hex_encode b)) ≡ some b
  unfolding decode_hex32 sized_32
  decode_hex32-hex b v =
      rw (trim-ink (c.hex_encode b) (hex-IsInk _ (laws.hex_encode-IsHex b)))
        (rw (laws.hex_decode-encode b v.1, sized_32) (rw v.0 refl))

  -- A line with a field in it, as the loop reads it.
  seed_line-x :
      (s : Seeds) (b : Bytes)
      → IsSeed b
      → seed_line c s (codes "x_seed=" ++ c.hex_encode b) ≡ record s { x_seed = some b }
  unfolding seed_line strip_prefix
  seed_line-x s b v = rw (decode_hex32-hex b v) refl

  seed_line-ed :
      (s : Seeds) (b : Bytes)
      → IsSeed b
      → seed_line c s (codes "ed_seed=" ++ c.hex_encode b) ≡ record s { ed_seed = some b }
  unfolding seed_line strip_prefix
  seed_line-ed s b v = rw (decode_hex32-hex b v) refl

  -- A field's line with its ending, through `lines` and `trim`.
  field-lines :
      (label : Text) (b : Bytes)
      → All IsInline label
      → lines (label ++ (c.hex_encode b ++ codes "\n")) ≡ (label ++ c.hex_encode b) ∷ []
  field-lines label b a =
      ap lines (sym (append_assoc label (c.hex_encode b) (codes "\n")))
      ∙ lines_line (label ++ c.hex_encode b)
          (All-append IsInline label (c.hex_encode b) a (hex-IsInline _ (laws.hex_encode-IsHex b)))

  field-trim :
      (label : Text) (b : Bytes)
      → All IsInk label
      → trim (label ++ c.hex_encode b) ≡ label ++ c.hex_encode b
  field-trim label b a =
      trim-ink _ (All-append IsInk label (c.hex_encode b) a (hex-IsInk _ (laws.hex_encode-IsHex b)))

  abbrev heading : Text
  heading = codes "# usbws machine identity (keep secret)"

  heading_line : (s : Seeds) → seed_line c s (trim heading) ≡ s
  unfolding seed_line trim trim_start is_whitespace
  heading_line s = refl

  labels-IsInline : All IsInline (codes "x_seed=") × All IsInline (codes "ed_seed=")
  labels-IsInline = (
    (
      (refl, refl),
      (
        (refl, refl),
        ((refl, refl), ((refl, refl), ((refl, refl), ((refl, refl), ((refl, refl), tt))))),
      ),
    ),
    (
      (refl, refl),
      (
        (refl, refl),
        (
          (refl, refl),
          ((refl, refl), ((refl, refl), ((refl, refl), ((refl, refl), ((refl, refl), tt))))),
        ),
      ),
    ),
  )

  labels-IsInk : All IsInk (codes "x_seed=") × All IsInk (codes "ed_seed=")
  unfolding is_whitespace
  labels-IsInk = (
    (refl, (refl, (refl, (refl, (refl, (refl, (refl, tt))))))),
    (refl, (refl, (refl, (refl, (refl, (refl, (refl, (refl, tt)))))))),
  )

  heading-lines : lines (heading ++ codes "\n") ≡ heading ∷ []
  unfolding lines
  heading-lines = refl

  identity_body-lines :
      (x e : Bytes)
      → lines (identity_body c x e)
        ≡ heading ∷ (codes "x_seed=" ++ c.hex_encode x) ∷ (codes "ed_seed=" ++ c.hex_encode e) ∷ []
  unfolding identity_body
  identity_body-lines x e =
      lines-append (heading ++ codes "\n") _ refl
      ∙ rw
          (
            heading-lines,
            lines-append (codes "x_seed=" ++ (c.hex_encode x ++ codes "\n"))
                (codes "ed_seed=" ++ (c.hex_encode e ++ codes "\n"))
                (Ended-newline (codes "x_seed=" ++ c.hex_encode x)),
            field-lines (codes "x_seed=") x labels-IsInline.0,
            field-lines (codes "ed_seed=") e labels-IsInline.1,
          )
          refl

  parse_identity-identity_body :
      (x e : Bytes) → IsSeed x → IsSeed e → parse_identity c (identity_body c x e) ≡ some (x, e)
  unfolding parse_identity chosen_seeds seed_lines
  parse_identity-identity_body x e vx ve = rw (identity_body-lines x e) (
      (rw
        (
          heading_line no_seeds,
          field-trim (codes "x_seed=") x labels-IsInk.0,
          seed_line-x no_seeds x vx,
          field-trim (codes "ed_seed=") e labels-IsInk.1,
          seed_line-ed (record no_seeds { x_seed = some x }) e ve,
        )
        refl))

  -- The identity file lasts: a first run, without a file, makes the identity from its two fresh seeds
  -- of 32 bytes and writes the file; every later run on that file, whatever its own fresh seeds and
  -- whether or not it may write, loads the same identity, says that it is not new, and leaves the
  -- file as it is. The laws are those of the hex codec.
  pub load_or_create_again :
      (x e : Bytes)
      → IsSeed x
      → IsSeed e
      → (can_write : Bool) → (x2 e2 : Bytes)
      → (load_or_create c true x e missing
          ≡ (ok (from_seeds c x e, true), text (identity_body c x e)))
        × (load_or_create c can_write x2 e2 (load_or_create c true x e missing).1
            ≡ (ok (from_seeds c x e, false), text (identity_body c x e)))
  unfolding load_or_create
  load_or_create_again x e vx ve can_write x2 e2 =
      (refl, rw (parse_identity-identity_body x e vx ve) refl)
