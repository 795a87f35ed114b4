-- ===== src/Outgoing/Walk.antt =====
-- internal/smtpbridge/parse_outbound.go: the walk over the parts of a message and the choice of
-- its text, with the fallback `parseMailFromSMTPData` of submit.go.
use xyecoc_mailbridge.Base.{
  Bool, true, not, ◌&&◌, ◌||◌, Option, none, some, List, [], ◌∷◌, ◌++◌, Bytes, codes, eqb, is_empty,
  if◌then◌else◌,
}
use xyecoc_mailbridge.Text.{
  Unicode, to_lower, equal_fold, trim_space, has_prefix, cut_byte, cut, split,
}
use xyecoc_mailbridge.Outgoing.{
  Part, Entity, Mime, Outbound, pick_filename, basename_only, html_esc_plain, extract_reply_mail_id,
}

abbrev pub empty_page : Bytes
empty_page = codes "<html><body></body></html>"

abbrev pub no_subject : Bytes
no_subject = codes "(no subject)"

-- The case of `guessFilename` for a type it has no name for.
unfoldable pub guess_extension : List Bytes → Bytes
guess_extension [] = codes "attachment.bin"
guess_extension (ext ∷ exts) = codes "attachment" ++ ext

-- The value behind a `Subject:` line, the last of them.
unfoldable pub subject_of : Unicode → List Bytes → Bytes → Bytes
unfolding to_lower has_prefix cut_byte trim_space
subject_of u [] subject = subject
subject_of u (ln ∷ lns) subject = subject_of u lns (
    if has_prefix (to_lower u ln) (codes "subject:")
    then elim (cut_byte b':' ln) [ none ↦ subject | some (a, b) ↦ trim_space b ]
    else subject)

-- Header and body, cut at the first empty line.
unfoldable pub split_message : Bytes → Bytes × Bytes
unfolding cut
split_message s = elim (cut (b'\r' ∷ b'\n' ∷ b'\r' ∷ b'\n' ∷ []) s) [
  | some (hdr, body) ↦ (hdr, trim_space body)
  | none ↦ elim (cut (b'\n' ∷ b'\n' ∷ []) s) [
    | some (hdr, body) ↦ (hdr, trim_space body)
    | none ↦ (s, [])
  ]
]

-- `parseMailFromSMTPData`, which reports no error: subject and text.
unfoldable pub parse_mail_from_smtp_data : Unicode → Bytes → Bytes × Bytes
unfolding subject_of split_message
parse_mail_from_smtp_data u s =
    let (hdr, body) = split_message s in
    let subject = subject_of u (split b'\n' hdr) [] in
    (if is_empty subject then no_subject else subject, if is_empty body then empty_page else body)

-- What the walk has collected.
pub record Parts : Type 0 where
  pub html_part : Bytes
  pub plain_part : Bytes
  pub media : List (Bytes × Bytes)

-- A part with its parsed headers.
pub record Headers : Type 0 where
  pub media_type : Bytes
  pub disp : Bytes
  pub fname : Bytes

module _ (mime : Mime) (u : Unicode) where
  -- `guessFilename`.
  unfoldable pub guess_filename : Bytes → Bytes
  unfolding guess_extension to_lower has_prefix
  guess_filename media_type =
      let mt = to_lower u media_type in
      if has_prefix mt (codes "image/jpeg")
      then codes "image.jpg"
      else if has_prefix mt (codes "image/png")
      then codes "image.png"
      else if has_prefix mt (codes "image/gif")
      then codes "image.gif"
      else if has_prefix mt (codes "image/webp")
      then codes "image.webp"
      else guess_extension (mime.extensions_by_type media_type)

  -- `attachPayload`.
  unfoldable pub attach_payload : Bytes → Bytes → Bytes → Bytes × Bytes
  unfolding guess_filename basename_only
  attach_payload filename media_type raw =
      let fn = basename_only filename in
      (if is_empty fn then guess_filename media_type else fn, mime.encode raw)

  -- `shouldEncodeAsAttachment`.
  unfoldable pub should_encode_as_attachment : Bytes → Bytes → Bytes → Bool
  unfolding to_lower has_prefix trim_space eqb
  should_encode_as_attachment disp fname media_type =
      let d = to_lower u (trim_space disp) in
      let mt = to_lower u media_type in
      let named = not (is_empty fname) in
      if eqb d (codes "attachment")
      then true
      else if eqb d (codes "inline") && named && not (has_prefix mt (codes "text/"))
      then true
      else named
        && (has_prefix mt (codes "image/")
            || has_prefix mt (codes "audio/")
            || has_prefix mt (codes "video/"))

  unfoldable pub headers : Part → Headers
  unfolding pick_filename
  headers p =
      let (media_type, ct_params) = mime.parse_media_type p.content_type in
      let (disp, disp_params) = p.disposition in
      record { media_type = media_type; disp = disp; fname = pick_filename disp_params ct_params }

  -- The function that `Walk` is given, on a part whose body `b` is not empty.
  unfoldable pub take_body : Headers → Bytes → Parts → Parts
  unfolding attach_payload should_encode_as_attachment equal_fold
  take_body h b s =
      let attach = record s { media = s.media ++ attach_payload h.fname h.media_type b ∷ [] } in
      let apart = equal_fold u h.disp (codes "attachment") in
      if has_prefix h.media_type (codes "text/html")
      then if apart then attach else record s { html_part = b }
      else if has_prefix h.media_type (codes "text/plain")
      then if apart
        then attach
        else if is_empty s.plain_part
        then record s { plain_part = b }
        else s
      else if should_encode_as_attachment h.disp h.fname h.media_type
      then record s {
        media =
            s.media
            ++ attach_payload (if is_empty h.fname then guess_filename h.media_type else h.fname)
                h.media_type b
              ∷ [];
      }
      else s

  -- The same on any part: one that cannot be read, or is empty, is left out.
  unfoldable pub visit : Option Part → Parts → Parts
  unfolding take_body headers
  visit none s = s
  visit (some p) s = elim p.body [
    | none ↦ s
    | some b ↦ if is_empty b then s else take_body (headers p) b s
  ]

  -- `entity.Walk`.
  unfoldable pub walk : List (Option Part) → Parts → Parts
  unfolding visit
  walk [] s = s
  walk (p ∷ ps) s = walk ps (visit p s)

  -- The text of the message.
  unfoldable pub choose_html : Bytes → Parts → Bytes
  unfolding html_esc_plain parse_mail_from_smtp_data trim_space
  choose_html raw s =
      let html = trim_space s.html_part in
      let fallback = (parse_mail_from_smtp_data u raw).1 in
      if not (is_empty html)
      then html
      else if not (is_empty (trim_space s.plain_part))
      then codes "<pre>" ++ (html_esc_plain s.plain_part ++ codes "</pre>")
      else if is_empty fallback
      then empty_page
      else fallback

  unfoldable pub outbound_of : Bytes → Option Entity → Outbound
  unfolding walk choose_html parse_mail_from_smtp_data extract_reply_mail_id
  outbound_of raw none =
      let (subj, body) = parse_mail_from_smtp_data u raw in
      record { subject = subj; html = body; reply_mail_id = []; attaches = [] }
  outbound_of raw (some e) =
      let subject = e.get (codes "Subject") in
      let s = walk e.parts (record { html_part = []; plain_part = []; media = [] }) in
      record {
        subject = if is_empty (trim_space subject) then no_subject else subject;
        html = choose_html raw s;
        reply_mail_id = extract_reply_mail_id e.get;
        attaches = s.media;
      }

  -- `parseOutboundMail`, `none` for an error; its fallback reports none.
  unfoldable pub parse_outbound_mail : Bytes → Option Outbound
  unfolding outbound_of
  parse_outbound_mail raw = some (outbound_of raw (mime.read raw))
