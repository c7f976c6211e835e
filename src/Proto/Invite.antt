-- ===== src/Proto/Invite.antt =====
-- src/proto.rs: the invite "K0<base64url(x_pub ++ ed_pub ++ nick)>" and the introduction that the
-- relay sends, which has the same three parts.
use ws_usb_linux.Base.{
  ◌≤◌, ◌≡◌, refl, sym, ap, ◌∙◌, ◌↔◌, true, Option, none, some, [], ◌++◌, append-nil, append_assoc,
  length, take, drop, length-append, length-take, length-drop, take-append-drop, drop-drop,
  take-append, drop-append, ltb, ltb-false, if◌then◌else◌, All, All-append, All-map, arith, Bytes,
  IsBytes,
}
use ws_usb_linux.Base.Text.{Text, is_whitespace, trim, strip_prefix}
use ws_usb_linux.Base.Trim.{IsSpace, IsInk, trim-pad, trim-ink, strip_prefix-append}
use ws_usb_linux.Base.Utf8.{
  as_bytes, from_utf8_lossy, IsText, from_utf8_lossy-as_bytes, as_bytes-small,
}
use ws_usb_linux.Base.Result.{
  Result, ok, err, bad_prefix, bad_base64, invite_too_short, bad_verifying_key, intro_too_short,
}
use ws_usb_linux.Crypto.{Crypto, CryptoLaws}
use ws_usb_linux.Proto.{Identity, Peer, qr_prefix}
use ws_usb_linux.Proto.Envelope.{IsIdentity}

-- The last five lines of both decoders.
unfoldable pub peer_of_bytes : Crypto → Bytes → Result Peer
peer_of_bytes c raw =
    let x_pub = take 32 raw in
    let ed_pub = take 32 (drop 32 raw) in
    if c.ed_valid ed_pub
    then ok (record {
      x_pub = x_pub;
      ed_pub = ed_pub;
      id = take 8 x_pub;
      nick = from_utf8_lossy (drop 64 raw);
    })
    else err bad_verifying_key

unfoldable pub decode_raw : Crypto → Option Bytes → Result Peer
decode_raw c none = err bad_base64
decode_raw c (some raw) = if ltb (length raw) 64 then err invite_too_short else peer_of_bytes c raw

unfoldable pub decode_body : Crypto → Option Text → Result Peer
decode_body c none = err bad_prefix
decode_body c (some body) = decode_raw c (c.base64_decode body)

unfoldable pub decode_qr : Crypto → Text → Result Peer
unfolding decode_body decode_raw peer_of_bytes
decode_qr c qr = decode_body c (strip_prefix qr_prefix (trim qr))

unfoldable pub decode_intro_from : Crypto → Bytes → Result Peer
unfolding peer_of_bytes
decode_intro_from c body =
    if ltb (length body) 64 then err intro_too_short else peer_of_bytes c body

unfoldable pub make_qr : Crypto → Identity → Text → Text
make_qr c me nick =
    let combined = me.x_pub ++ (me.ed_pub ++ as_bytes nick) in qr_prefix ++ c.base64_encode combined

-- The peer that an identity with a nick is to the others.
abbrev pub as_peer : Identity → Text → Peer
as_peer me nick = record { x_pub = me.x_pub; ed_pub = me.ed_pub; id = me.id; nick = nick }

-- Both decoders on the three parts of an announcement.
peer_of_bytes-append :
    (c : Crypto) (x_pub ed_pub rest : Bytes)
    → length x_pub ≡ 32
    → length ed_pub ≡ 32
    → c.ed_valid ed_pub ≡ true
    → peer_of_bytes c (x_pub ++ (ed_pub ++ rest))
      ≡ ok (record {
        x_pub = x_pub;
        ed_pub = ed_pub;
        id = take 8 x_pub;
        nick = from_utf8_lossy rest;
      })
unfolding peer_of_bytes
peer_of_bytes-append c x_pub ed_pub rest x e valid =
    rw (first, second, take-append 32 ed_pub rest e, third, valid) refl
  where
    first : take 32 (x_pub ++ (ed_pub ++ rest)) ≡ x_pub
    first = take-append 32 x_pub (ed_pub ++ rest) x

    second : drop 32 (x_pub ++ (ed_pub ++ rest)) ≡ ed_pub ++ rest
    second = drop-append 32 x_pub (ed_pub ++ rest) x

    third : drop 64 (x_pub ++ (ed_pub ++ rest)) ≡ rest
    third =
        rw (← append_assoc x_pub ed_pub rest)
          (drop-append 64 (x_pub ++ ed_pub) rest (omega (arith, length-append x_pub ed_pub)))

module _ {c : Crypto} (laws : CryptoLaws c) (me : Identity) (paired : IsIdentity c me) where
  length-x_pub : length me.x_pub ≡ 32
  length-x_pub = rw paired.x_pub_is (laws.length-x25519 me.x_priv c.basepoint)

  length-ed_pub : length me.ed_pub ≡ 32
  length-ed_pub = rw paired.ed_pub_is (laws.length-ed_public me.ed)

  -- The announced bytes, whichever way they come, are read as the identity's public half.
  peer_of_bytes-keys :
      (nick : Text)
      → IsText nick
      → peer_of_bytes c (me.x_pub ++ (me.ed_pub ++ as_bytes nick)) ≡ ok (as_peer me nick)
  peer_of_bytes-keys nick t =
      peer_of_bytes-append c me.x_pub me.ed_pub (as_bytes nick) length-x_pub length-ed_pub
        (rw paired.ed_pub_is (laws.ed_public_valid me.ed))
      ∙ rw (from_utf8_lossy-as_bytes nick t, ← paired.id_is) refl

  keys-IsBytes : (nick : Text) → IsText nick → IsBytes (me.x_pub ++ (me.ed_pub ++ as_bytes nick))
  keys-IsBytes nick t =
      All-append _ me.x_pub _ (rw paired.x_pub_is (laws.x25519-IsBytes me.x_priv c.basepoint)) (
        All-append _ me.ed_pub _ (rw paired.ed_pub_is (laws.ed_public-IsBytes me.ed))
          (as_bytes-small nick t))

  long_enough : (nick : Text) → 64 ≤ length (me.x_pub ++ (me.ed_pub ++ as_bytes nick))
  long_enough nick = omega (
    arith,
    length-append me.x_pub (me.ed_pub ++ as_bytes nick),
    length-append me.ed_pub (as_bytes nick),
    length-x_pub,
    length-ed_pub,
  )

  make_qr-IsInk : (nick : Text) → All IsInk (make_qr c me nick)
  unfolding make_qr is_whitespace
  make_qr-IsInk nick = (
    refl,
    (refl, All-map (c.base64_encode _) (λ x h. ground arith) (laws.base64_encode-IsUrlSafe _)),
  )

  -- Under the laws of the crates, for an identity with matching halves and a nick of Unicode
  -- scalar values: its invite, with any whitespace before and after it, is decoded to its keys,
  -- its id and the nick.
  pub decode_qr-make_qr :
      (before after nick : Text)
      → All IsSpace before
      → All IsSpace after
      → IsText nick
      → decode_qr c (before ++ (make_qr c me nick ++ after)) ≡ ok (as_peer me nick)
  unfolding decode_qr make_qr
  decode_qr-make_qr before after nick b a t =
      let raw = me.x_pub ++ (me.ed_pub ++ as_bytes nick) in
      rw (trim-pad before (make_qr c me nick) after b a, trim-ink _ (make_qr-IsInk nick))
        (rw (strip_prefix-append qr_prefix (c.base64_encode raw), decode_body)
          (rw (laws.base64_decode-encode raw (keys-IsBytes nick t), decode_raw)
            (rw (ltb-false (length raw) 64 (long_enough nick)) (peer_of_bytes-keys nick t))))

  -- Under the same conditions, the relay's introduction of an identity with a nick and the invite
  -- of the two are decoded to the same result.
  pub decode_intro_from-decode_qr :
      (nick : Text)
      → IsText nick
      → decode_intro_from c (me.x_pub ++ (me.ed_pub ++ as_bytes nick))
        ≡ decode_qr c (make_qr c me nick)
  unfolding decode_intro_from
  decode_intro_from-decode_qr nick t =
      let raw = me.x_pub ++ (me.ed_pub ++ as_bytes nick) in
      rw (ltb-false (length raw) 64 (long_enough nick)) (peer_of_bytes-keys nick t)
      ∙ sym (rw append-nil at (decode_qr-make_qr [] [] nick tt tt t))

-- A peer's keys, as cut out of what announced them.
pub record Announces (c : Crypto) (raw : Bytes) (p : Peer) : Type 0 where
  pub rest : Bytes
  pub splits : raw ≡ p.x_pub ++ (p.ed_pub ++ rest)
  pub length-x_pub : length p.x_pub ≡ 32
  pub length-ed_pub : length p.ed_pub ≡ 32
  pub valid : c.ed_valid p.ed_pub ≡ true
  pub id_is : p.id ≡ take 8 p.x_pub
  pub nick_is : p.nick ≡ from_utf8_lossy rest

module _ (c : Crypto) (raw : Bytes) (p : Peer) where
  peer_of_bytes-Announces : 64 ≤ length raw → peer_of_bytes c raw ≡ ok p → Announces c raw p
  unfolding peer_of_bytes
  peer_of_bytes-Announces long h = record {
    rest = drop 64 raw;
    splits =
        rw (x, e)
          (sym (
            rw (← drop-drop 32 32 64 raw refl) (
              ap (◌++◌ (take 32 raw)) (take-append-drop 32 (drop 32 raw))
              ∙ take-append-drop 32 raw)));
    length-x_pub = rw x (omega (arith, length-take 32 raw));
    length-ed_pub = rw e (omega (arith, length-take 32 (drop 32 raw), length-drop 32 raw));
    valid = rw e (ground arith);
    id_is = ground arith;
    nick_is = ground arith;
  }
    where
      x : p.x_pub ≡ take 32 raw
      x = ground arith

      e : p.ed_pub ≡ take 32 (drop 32 raw)
      e = ground arith

  Announces-peer_of_bytes : Announces c raw p → peer_of_bytes c raw ≡ ok p
  Announces-peer_of_bytes a = rw a.splits (
      peer_of_bytes-append c p.x_pub p.ed_pub a.rest a.length-x_pub a.length-ed_pub a.valid
      ∙ rw (← a.id_is, ← a.nick_is) refl)

  Announces-long : Announces c raw p → 64 ≤ length raw
  Announces-long a = rw a.splits (
      omega (
        arith,
        length-append p.x_pub (p.ed_pub ++ a.rest),
        length-append p.ed_pub a.rest,
        a.length-x_pub,
        a.length-ed_pub,
      ))

  -- An introduction is accepted exactly when it is two keys of 32 bytes, the second a valid verifying
  -- key, and a nick behind them; the peer's id is the first 8 bytes of its first key.
  pub decode_intro_from_iff : (decode_intro_from c raw ≡ ok p) ↔ Announces c raw p
  unfolding decode_intro_from
  decode_intro_from_iff = (
    λ h. peer_of_bytes-Announces (ground arith) (ground arith),
    λ a. rw (ltb-false (length raw) 64 (Announces-long a)) (Announces-peer_of_bytes a),
  )
