-- ===== src/Imap/Letters/Reply.antt =====
-- A reply to a letter of internal/imapbackend/rfc822.go, as internal/smtpbridge reads it.
use xyecoc_mailbridge.Base.{
  ℕ, true, false, none, some, List, [], ◌∷◌, ◌++◌, Bytes, codes, ◌≡◌, refl, ◌∙◌, arith, ap,
  is_empty, lookup, eqb, append_assoc, ◌==◌, ==_iff, ◌≢◌, ||-eq-false,
}
use xyecoc_mailbridge.Text.{
  decimal, itoa, pos, AllDigits, is_digit, decimal-AllDigits, decimal-ne-nil, has_byte, lower_byte,
  trim_space,
}
use xyecoc_mailbridge.Remote.{text}
use xyecoc_mailbridge.Outgoing.{
  Outbound, Entity, cut_prefix_fold, span_digits, closed_id, reply_here, find_reply, first_reply,
  extract_reply_mail_id,
}
use xyecoc_mailbridge.Outgoing.Walk.{parse_outbound_mail, outbound_of}
use xyecoc_mailbridge.Submit.{Gateway, Config, submission}
use xyecoc_mailbridge.Imap.Letters.{remote_bridge_message_id}

same_byte : (x : ℕ) → (x == x) ≡ true
same_byte x = (==_iff x x).1 refl

cut_prefix_fold-append : (p s : Bytes) → cut_prefix_fold (p ++ s) p ≡ some s
unfolding cut_prefix_fold
cut_prefix_fold-append [] [] = refl
cut_prefix_fold-append [] (x ∷ s) = refl
cut_prefix_fold-append (x ∷ p) s = rw (same_byte (lower_byte x), cut_prefix_fold-append p s) refl

span_digits-append : (ds r : Bytes) → AllDigits ds → span_digits (ds ++ b'@' ∷ r) ≡ (ds, b'@' ∷ r)
unfolding span_digits AllDigits
span_digits-append [] r h = unfold is_digit in refl
span_digits-append (d ∷ ds) r h = rw (h.0, span_digits-append ds r h.1) refl

closed_id-digits :
    (ds after : Bytes) → ds ≢ [] → closed_id (ds, codes "@mailbridge>" ++ after) ≡ some ds
unfolding closed_id cut_prefix_fold lower_byte
closed_id-digits [] after h = absurd (h refl)
closed_id-digits (d ∷ ds) after h = refl

reply_here-digits :
    (ds after : Bytes)
    → AllDigits ds
    → ds ≢ []
    → reply_here (codes "<xyecoc-mail-" ++ (ds ++ (codes "@mailbridge>" ++ after))) ≡ some ds
unfolding reply_here cut_prefix_fold lower_byte
reply_here-digits ds after h k =
    ap closed_id (span_digits-append ds (codes "mailbridge>" ++ after) h)
    ∙ closed_id-digits ds after k

reply_here-other : (x : ℕ) (s : Bytes) → (x == b'<') ≡ false → reply_here (x ∷ s) ≡ none
unfolding reply_here cut_prefix_fold lower_byte
reply_here-other x s h = ground arith

-- A text that names a letter between brackets.
unfoldable pub mention : ℕ → Bytes → Bytes → Bytes
unfolding remote_bridge_message_id
mention n before after =
    before ++ (codes "<" ++ (remote_bridge_message_id (pos n) ++ (codes ">" ++ after)))

mention-digits :
    (n : ℕ) (after : Bytes)
    → mention n [] after ≡ codes "<xyecoc-mail-" ++ (decimal n ++ (codes "@mailbridge>" ++ after))
unfolding mention remote_bridge_message_id itoa
mention-digits n after =
    ap (λ (s : Bytes). codes "<xyecoc-mail-" ++ s)
      (append_assoc (decimal n) (codes "@mailbridge") (codes ">" ++ after))

find_reply-skip :
    (before s : Bytes) → has_byte b'<' before ≡ false → find_reply (before ++ s) ≡ find_reply s
unfolding find_reply has_byte
find_reply-skip [] s h = refl
find_reply-skip (x ∷ before) s h =
    let (a, b) = ||-eq-false (x == b'<') (has_byte b'<' before) h in
    rw (find_reply, reply_here-other x (before ++ s) a) (find_reply-skip before s b)

find_reply-here : (s ds : Bytes) → reply_here s ≡ some ds → find_reply s ≡ some ds
unfolding find_reply reply_here
find_reply-here [] ds h = h
find_reply-here (x ∷ s) ds h = rw (find_reply, h) refl

find_reply-mention :
    (n : ℕ) (before after : Bytes)
    → has_byte b'<' before ≡ false
    → find_reply (mention n before after) ≡ some (decimal n)
unfolding mention
find_reply-mention n before after h =
    find_reply-skip before (mention n [] after) h
    ∙ find_reply-here (mention n [] after) (decimal n) (
        ap reply_here (mention-digits n after)
        ∙ reply_here-digits (decimal n) after (decimal-AllDigits n) (decimal-ne-nil n))

module _ {W : Type 0} (g : Gateway W) (cfg : Config) where
  reply_id :
      (n : ℕ) (before after : Bytes) (e : Entity)
      → has_byte b'<' before ≡ false
      → trim_space (e.get (codes "X-Remote-Mail-Id")) ≡ []
      → e.get (codes "In-Reply-To") ≡ mention n before after
      → extract_reply_mail_id e.get ≡ decimal n
  unfolding extract_reply_mail_id first_reply
  reply_id n before after e h blank field =
      rw (extract_reply_mail_id, blank, first_reply, field, find_reply-mention n before after h)
        refl

  submission-reply :
      (m : Outbound) (to : List Bytes)
      → is_empty m.reply_mail_id ≡ false
      → ((submission g cfg m to).action ≡ codes "reply-confirm")
        × (lookup (codes "mail_id") (submission g cfg m to).fields ≡ some (text m.reply_mail_id))
  unfolding submission lookup eqb
  submission-reply m to h = rw (submission, h) (refl, refl)

  decimal-nonempty : (n : ℕ) → is_empty (decimal n) ≡ false
  decimal-nonempty n = go (decimal n) (decimal-ne-nil n)
    where
      go : (s : Bytes) → s ≢ [] → is_empty s ≡ false
      go [] h = absurd (h refl)
      go (x ∷ s) h = refl

  -- A reply whose In-Reply-To names the message ID of a letter built for the mail `n`, with no
  -- bracket in front of it and without an X-Remote-Mail-Id, is parsed and is submitted as an
  -- answer, `reply-confirm`, to the mail `n`.
  pub submission-mention :
      (n : ℕ) (before after raw : Bytes) (to : List Bytes) (e : Entity)
      → has_byte b'<' before ≡ false
      → g.mime.read raw ≡ some e
      → trim_space (e.get (codes "X-Remote-Mail-Id")) ≡ []
      → e.get (codes "In-Reply-To") ≡ mention n before after
      → (m : Outbound) × (parse_outbound_mail g.mime g.unicode raw ≡ some m)
        × ((submission g cfg m to).action ≡ codes "reply-confirm")
        × (lookup (codes "mail_id") (submission g cfg m to).fields ≡ some (text (decimal n)))
  unfolding parse_outbound_mail outbound_of
  submission-mention n before after raw to e h r blank field =
      let m = outbound_of g.mime g.unicode raw (some e) in
      let id : m.reply_mail_id ≡ decimal n = reply_id n before after e h blank field in
      let (action, mail) = submission-reply m to (ap is_empty id ∙ decimal-nonempty n) in
      (m, rw r refl, action, mail ∙ ap (λ (s : Bytes). some (text s)) id)
