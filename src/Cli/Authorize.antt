-- ===== src/Cli/Authorize.antt =====
-- src/main.rs, src/proto.rs and src/authorized.rs: the subcommand `authorize` and the policy after it.
use ws_usb_linux.Base.{
  ◌≡◌, inl, inr, refl, Bool, true, false, some, List, [], ◌∷◌, ◌++◌, list_eq, list_eq_refl,
  if◌then◌else◌, Bool-cases, append-nil,
}
use ws_usb_linux.Base.Text.{Text}
use ws_usb_linux.Base.Utf8.{IsText}
use ws_usb_linux.Base.Result.{ok}
use ws_usb_linux.Crypto.{Crypto, CryptoLaws}
use ws_usb_linux.Proto.{Identity, Peer}
use ws_usb_linux.Proto.Envelope.{IsIdentity}
use ws_usb_linux.Proto.Invite.{make_qr, as_peer, decode_qr, decode_qr-make_qr}
use ws_usb_linux.Authorized.{Entry, File, contains, add, authorize_initiator, decide_table}
use ws_usb_linux.Authorized.Table.{IsTable, IsEntry, entries, load-entries, add_lem}
use ws_usb_linux.Authorized.Policy.{entry_for}
use ws_usb_linux.Cli.{authorize_invite, authorize_peer, added}

contains-append : (es : List Entry) (e : Entry) → contains (es ++ e ∷ []) e.x_pub ≡ true
unfolding contains
contains-append [] e = rw (list_eq_refl e.x_pub) refl
contains-append (x ∷ es) e = elim (Bool-cases (list_eq x.x_pub e.x_pub)) [
  | inl same ↦ rw same refl
  | inr other ↦ rw other (contains-append es e)
]

contains-added :
    (es : List Entry) (e : Entry)
    → contains (if contains es e.x_pub then es else es ++ e ∷ []) e.x_pub ≡ true
contains-added es e = elim (Bool-cases (contains es e.x_pub)) [
  | inl listed ↦ rw listed listed
  | inr new ↦ rw new (contains-append es e)
]

decide_table-listed :
    (c : Crypto) (can_write : Bool) (file : File) (p : Peer) (es : List Entry)
    → contains es p.x_pub ≡ true
    → decide_table c can_write file p (ok es) ≡ (some p, file)
unfolding decide_table contains
decide_table-listed c can_write file p [] h = absurd (cc)
decide_table-listed c can_write file p (e ∷ es) h = rw h refl

module _ {c : Crypto} (laws : CryptoLaws c) (me : Identity) (paired : IsIdentity c me) where
  -- Under the laws of the crates, for an identity with matching halves, a nick of Unicode scalar
  -- values that is one trimmed line, and a writable table whose last line is ended: `authorize` with
  -- the identity's invite reports it as a peer, and leaves a file under which the initiator with
  -- these keys is then taken, with pinning on and without a further change of the file.
  pub authorize_invite-authorizes :
      (file : File) (nick : Text) (can_write : Bool)
      → IsTable file
      → IsText nick
      → IsEntry (entry_for (as_peer me nick))
      → (file' : File) × (authorize_invite c true file (some (make_qr c me nick))
          ≡ some (ok (as_peer me nick), file'))
        × (authorize_initiator c false can_write file' (as_peer me nick)
            ≡ (some (as_peer me nick), file'))
  unfolding authorize_invite authorize_peer added authorize_initiator
  authorize_invite-authorizes file nick can_write t u v = (
    file',
    rw decoded (rw lem.0 refl),
    rw (load-entries c file' lem.1)
        (decide_table-listed c can_write file' (as_peer me nick) (entries c file') listed),
  )
    where
      file' : File
      file' = (add c true file me.x_pub nick).0

      decoded : decode_qr c (make_qr c me nick) ≡ ok (as_peer me nick)
      decoded = rw append-nil at (decode_qr-make_qr laws me paired [] [] nick tt tt u)

      lem :
          ((add c true file me.x_pub nick).1 ≡ ok tt)
          × IsTable file'
          × (entries c file' ≡ (
              if contains (entries c file) me.x_pub
              then entries c file
              else entries c file ++ entry_for (as_peer me nick) ∷ []))
      lem = add_lem laws file (entry_for (as_peer me nick)) t v

      listed : contains (entries c file') me.x_pub ≡ true
      listed = rw lem.2 (contains-added (entries c file) (entry_for (as_peer me nick)))
