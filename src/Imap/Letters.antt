-- ===== src/Imap/Letters.antt =====
-- internal/imapbackend/rfc822.go: the letters that are built for IMAP clients. mail.Address,
-- base64, the format of dates, mime.TypeByExtension and mime/multipart are parameters.
pub mod Reply
pub mod EmptyLine
pub mod Headers
pub mod Lines
use xyecoc_mailbridge.Base.{
  ℕ, zero, suc, ◌+◌, Bool, true, false, not, ◌&&◌, Option, none, some, List, [], ◌∷◌, ◌++◌, Bytes,
  codes, is_empty, if◌then◌else◌, length, take, drop,
}
use xyecoc_mailbridge.Text.{
  crlf, with_ends, Unicode, to_lower, ℤ, pos, negsuc, itoa, trim_space, trim_prefix, has_prefix,
  replace_byte, is_ascii,
}
use xyecoc_mailbridge.Remote.{Attachment, MailDetail}

-- The library: `mail.Address.String`, base64's StdEncoding, `date.Format(time.RFC1123Z)`,
-- `mime.TypeByExtension`, and what a multipart writer makes of parts with their headers, with the
-- content type that names its boundary.
pub record Writer : Type 0 where
  pub address : Bytes → Bytes → Bytes
  pub encode : Bytes → Bytes
  pub format_date : ℕ → Bytes
  pub type_by_extension : Bytes → Bytes
  pub multipart : List (List (Bytes × Bytes) × Bytes) → Bytes × Bytes
  pub unicode : Unicode

-- `attachmentPart`.
pub record AttachmentPart : Type 0 where
  pub file_name : Bytes
  pub content_type : Bytes
  pub contents : Bytes

unfoldable pub is_positive : ℤ → Bool
is_positive (pos zero) = false
is_positive (pos (suc n)) = true
is_positive (negsuc n) = false

-- `remoteBridgeMessageID`.
unfoldable pub remote_bridge_message_id : ℤ → Bytes
unfolding itoa
remote_bridge_message_id id = codes "xyecoc-mail-" ++ (itoa id ++ codes "@mailbridge")

-- `sanitizeHeader`.
unfoldable pub sanitize_header : Bytes → Bytes
unfolding replace_byte trim_space
sanitize_header s = trim_space (replace_byte b'\n' (codes " ") (replace_byte b'\r' (codes " ") s))

-- `htmlPayload`.
unfoldable pub html_payload : MailDetail → Bytes → Bytes
html_payload d html =
    if not (is_empty html)
    then html
    else if not (is_empty d.message)
    then d.message
    else codes "<html><body></body></html>"

-- `mimeContentDispositionAttachment`.
unfoldable pub mime_content_disposition_attachment : Bytes → Bytes
unfolding trim_space replace_byte
mime_content_disposition_attachment file_name =
    let t = trim_space file_name in
    let name = if is_empty t then codes "attachment" else t in
    let esc = replace_byte b'"' (codes "\\\"") (replace_byte b'\\' (codes "\\\\") name) in
    codes "attachment; filename=\"" ++ (esc ++ codes "\"")

-- The slices of 76 bytes that `writeMIMEBase64Lines` writes; the fuel is the length.
unfoldable pub slices : ℕ → Bytes → List Bytes
slices zero buf = []
slices (suc f) [] = []
slices (suc f) (x ∷ buf) = take 76 (x ∷ buf) ∷ slices f (drop 76 (x ∷ buf))

-- `attachmentDisplayName`.
unfoldable pub attachment_display_name : Attachment → Bytes
unfolding trim_space trim_prefix itoa
attachment_display_name a =
    let name = trim_space a.file_name in
    let ext = trim_space a.extension in
    if not (is_empty name)
    then name
    else if not (is_empty ext)
    then codes "attachment." ++ trim_prefix ext (codes ".")
    else codes "attachment-" ++ itoa a.id

-- The attachments that have contents.
unfoldable pub nonempty : List AttachmentPart → List AttachmentPart
nonempty [] = []
nonempty (a ∷ more) = let rest = nonempty more in if is_empty a.contents then rest else a ∷ rest

module _ (w : Writer) where
  -- `formatAddr`.
  unfoldable pub format_addr : Bytes → Bytes → Bytes
  unfolding trim_space
  format_addr name email =
      let e = trim_space email in
      if is_empty e then codes "unknown@invalid" else if is_empty name then e else w.address name e

  -- `encodeSubject`.
  unfoldable pub encode_subject : Bytes → Bytes
  unfolding is_ascii
  encode_subject s = if is_ascii s then s else codes "=?UTF-8?B?" ++ (w.encode s ++ codes "?=")

  -- `mimeTypeForAttachment`.
  unfoldable pub mime_type_for_attachment : Attachment → Bytes
  unfolding trim_space has_prefix to_lower
  mime_type_for_attachment a =
      let t = trim_space a.extension in
      let ext = if not (is_empty t) && not (has_prefix t (codes ".")) then codes "." ++ t else t in
      let ct = w.type_by_extension (to_lower w.unicode ext) in
      if is_empty ct then codes "application/octet-stream" else ct

  -- `writeMIMEBase64Lines`.
  unfoldable pub write_mime_base64_lines : Bytes → Bytes
  unfolding slices with_ends
  write_mime_base64_lines raw = with_ends (slices (length (w.encode raw)) (w.encode raw))

  -- The lines that both kinds of letter start with.
  unfoldable pub address_lines : MailDetail → ℕ → List Bytes
  unfolding sanitize_header format_addr encode_subject
  address_lines d date =
      let to = if is_empty d.to then codes "undisclosed@local" else d.to in
      let subj = if is_empty d.subject then codes "(no subject)" else d.subject in
      (codes "From: " ++ sanitize_header (format_addr d.from_name d.from_email))
      ∷ (codes "To: " ++ sanitize_header to)
      ∷ (codes "Subject: " ++ encode_subject subj)
      ∷ (codes "Date: " ++ w.format_date date)
      ∷ codes "MIME-Version: 1.0"
      ∷ []

  -- The lines that a reply refers to.
  unfoldable pub id_lines : ℤ → List Bytes
  unfolding is_positive remote_bridge_message_id itoa
  id_lines id =
      if is_positive id
      then (codes "Message-ID: <" ++ (remote_bridge_message_id id ++ codes ">"))
        ∷ (codes "X-Remote-Mail-Id: " ++ itoa id)
        ∷ []
      else []

  unfoldable pub html_headers : MailDetail → ℕ → List Bytes
  unfolding address_lines id_lines
  html_headers d date =
      address_lines d date
      ++ (codes "Content-Type: text/html; charset=UTF-8"
          ∷ codes "Content-Transfer-Encoding: 8bit"
          ∷ id_lines d.id)

  -- `buildRFC822HTMLOnly`.
  unfoldable pub build_rfc822_html_only : MailDetail → Bytes → ℕ → Bytes
  unfolding html_headers with_ends html_payload
  build_rfc822_html_only d html date =
      with_ends (html_headers d date) ++ (crlf ++ html_payload d html)

  -- The parts of a letter with attachments.
  unfoldable pub attachment_part : AttachmentPart → List (Bytes × Bytes) × Bytes
  unfolding mime_content_disposition_attachment write_mime_base64_lines
  attachment_part a =
      let ct =
        if is_empty a.content_type then codes "application/octet-stream" else a.content_type in
      (
        (codes "Content-Type", ct)
            ∷ (codes "Content-Disposition", mime_content_disposition_attachment a.file_name)
            ∷ (codes "Content-Transfer-Encoding", codes "base64")
            ∷ [],
        write_mime_base64_lines a.contents,
      )

  unfoldable pub attachment_parts : List AttachmentPart → List (List (Bytes × Bytes) × Bytes)
  unfolding attachment_part
  attachment_parts [] = []
  attachment_parts (a ∷ more) = attachment_part a ∷ attachment_parts more

  unfoldable pub html_part : MailDetail → Bytes → List (Bytes × Bytes) × Bytes
  unfolding html_payload
  html_part d html = (
    (codes "Content-Type", codes "text/html; charset=UTF-8")
        ∷ (codes "Content-Transfer-Encoding", codes "8bit")
        ∷ [],
    html_payload d html,
  )

  unfoldable pub multipart_headers : MailDetail → ℕ → Bytes → List Bytes
  unfolding address_lines id_lines
  multipart_headers d date ct =
      address_lines d date ++ ((codes "Content-Type: " ++ ct) ∷ id_lines d.id)

  -- `buildRFC822Multipart`.
  unfoldable pub build_rfc822_multipart : MailDetail → Bytes → ℕ → List AttachmentPart → Bytes
  unfolding multipart_headers with_ends attachment_parts html_part
  build_rfc822_multipart d html date attachments =
      let (ct, body) = w.multipart (html_part d html ∷ attachment_parts attachments) in
      with_ends (multipart_headers d date ct) ++ (crlf ++ body)

  unfoldable pub build_from : MailDetail → Bytes → ℕ → List AttachmentPart → Bytes
  unfolding build_rfc822_html_only build_rfc822_multipart
  build_from d html date [] = build_rfc822_html_only d html date
  build_from d html date (a ∷ more) = build_rfc822_multipart d html date (a ∷ more)

  -- `BuildRFC822`.
  unfoldable pub build_rfc822 : MailDetail → Bytes → ℕ → List AttachmentPart → Bytes
  unfolding build_from nonempty
  build_rfc822 d html date attachments = build_from d html date (nonempty attachments)
