-- ===== src/Imap/Mailbox/Literals.antt =====
-- internal/imapbackend/mailbox.go: the letters that FETCH and SEARCH read.
use xyecoc_mailbridge.Base.{
  ℕ, ◌%◌, ◌^◌, false, Option, none, some, List, [], ◌∷◌, ◌++◌, Bytes, codes, is_empty, length,
  if◌then◌else◌, ◌==◌, ◌⊎◌, inl, inr,
}
use xyecoc_mailbridge.Text.{ℤ, itoa, trim_space, replace_byte}
use xyecoc_mailbridge.Remote.{
  MailSummary, Attachment, MailDetail, request, effective_from, effective_subject,
}
use xyecoc_mailbridge.Remote.Client.{
  Client, Http, post_json, download_get, mail_html_url, mail_asset_origin,
}
use xyecoc_mailbridge.Remote.Attached.{get_attachment_bytes}
use xyecoc_mailbridge.Remote.View.{Decoder, parse_mail_detail_from_view_body}
use xyecoc_mailbridge.Imap.Letters.{
  Writer, AttachmentPart, build_rfc822, attachment_display_name, mime_type_for_attachment,
}
use xyecoc_mailbridge.Imap.Names.{MailboxSpec}
use xyecoc_mailbridge.Imap.Mailbox.{uint32, flags_for}
use xyecoc_mailbridge.Imap.Mailbox.Fetch.{Literal}

-- `htmlEsc`.
unfoldable pub html_esc : Bytes → Bytes
unfolding replace_byte
html_esc s =
    replace_byte b'>' (codes "&gt;")
      (replace_byte b'<' (codes "&lt;") (replace_byte b'&' (codes "&amp;") s))

-- `strings.Replace(s, " ", "T", 1)`.
unfoldable pub replace_space : Bytes → Bytes
replace_space [] = []
replace_space (x ∷ xs) = let rest = replace_space xs in if x == b' ' then b'T' ∷ xs else x ∷ rest

-- The library on a state `W` of the world: `time.Parse` with RFC 3339 and with the layout that has
-- no zone, the clock, HTTP, JSON and the writer of letters.
pub record Reader (W : Type 0) : Type 0 where
  pub parse_rfc3339 : Bytes → Option ℕ
  pub parse_local : Bytes → Option ℕ
  pub now : W → ℕ
  pub http : Http W
  pub decoder : Decoder
  pub writer : Writer

-- The attachments as `append` joins the two lists of a letter.
unfoldable pub all_attachments : MailDetail → List Attachment
all_attachments d = d.attachments ++ d.attaches

module _ {W : Type 0} (lib : Reader W) where
  unfoldable pub first_time : List (Option ℕ) → W → ℕ
  first_time [] w = lib.now w
  first_time (none ∷ more) w = first_time more w
  first_time (some t ∷ more) w = t

  -- `parseTime`.
  unfoldable pub parse_time : Bytes → W → ℕ
  unfolding first_time replace_space trim_space
  parse_time s w =
      let t = trim_space s in
      let r = replace_space t in
      if is_empty t then lib.now w else first_time (lib.parse_rfc3339 r ∷ lib.parse_local r ∷ []) w

  module _ (spec : MailboxSpec) (pending : List ℕ) where
    -- `buildLiteralPreview`.
    unfoldable pub build_literal_preview : MailSummary → W → Literal
    unfolding parse_time html_esc build_rfc822 uint32 flags_for effective_from effective_subject
    build_literal_preview s w =
        let t = parse_time s.created_at w in
        let email = trim_space s.from_email in
        let d : MailDetail = record {
          id = s.id;
          subject = effective_subject s;
          from_name = effective_from s;
          from_email = if is_empty email then codes "sender@local" else email;
          to = [];
          created_at = s.created_at;
          message = [];
          attachments = [];
          attaches = [];
        } in
        let html = codes "<html><body><p>" ++ (html_esc s.snippet ++ codes "</p></body></html>") in
        let text = build_rfc822 lib.writer d html t [] in
        record {
          uid = uint32 s.id;
          flags = flags_for spec pending (uint32 s.id) s;
          date = t;
          size = length text % 2 ^ 32;
          text = text;
        }

    -- The loop over the attachments of a letter: one that cannot be loaded is left out.
    unfoldable pub load_attachments :
        Client → ℤ → Bytes → List Attachment → W → List AttachmentPart × W
    unfolding get_attachment_bytes attachment_display_name mime_type_for_attachment
    load_attachments c id created [] w = ([], w)
    load_attachments c id created (a ∷ more) w =
        let (r, w') = get_attachment_bytes lib.http lib.writer.unicode c a id created w in
        let (rest, w'') = load_attachments c id created more w' in
        elim r [
          | inl e ↦ (rest, w'')
          | inr blob ↦ (
            record {
              file_name = attachment_display_name a;
              content_type = mime_type_for_attachment lib.writer a;
              contents = blob;
            }
                ∷ rest,
            w'',
          )
        ]

    -- The text of a letter whose details are known; `html` is empty where it cannot be loaded.
    unfoldable pub finish_literal : Client → MailSummary → MailDetail → Bytes → W → Literal × W
    unfolding load_attachments all_attachments parse_time build_rfc822 uint32 flags_for
    finish_literal c s detail html w =
        let created = trim_space detail.created_at in
        let mail_created = if is_empty created then trim_space s.created_at else created in
        let (parts, w') = load_attachments c s.id mail_created (all_attachments detail) w in
        let t = parse_time detail.created_at w' in
        let text = build_rfc822 lib.writer detail html t parts in
        let size = length text % 2 ^ 32 in
        (
          record {
            uid = uint32 s.id;
            flags = flags_for spec pending (uint32 s.id) s;
            date = t;
            size = if size == 0 then 1 else size;
            text = text;
          },
          w',
        )

    unfoldable pub html_of : Bytes ⊎ Bytes → Bytes
    html_of (inl e) = []
    html_of (inr b) = b

    unfoldable pub detail_literal :
        Client → MailSummary → Bytes ⊎ MailDetail → W → (Bytes ⊎ Literal) × W
    unfolding finish_literal html_of download_get mail_html_url mail_asset_origin
    detail_literal c s (inl e) w = (inl e, w)
    detail_literal c s (inr d) w =
        let url = mail_html_url lib.http.path_escape (mail_asset_origin c) c.token s.id in
        let (html, w') = download_get lib.http c url false w in
        let (m, w'') = finish_literal c s (record d { id = s.id }) (html_of html) w' in (inr m, w'')

    unfoldable pub body_literal : Client → MailSummary → (Bytes ⊎ Bytes) × W → (Bytes ⊎ Literal) × W
    unfolding detail_literal parse_mail_detail_from_view_body
    body_literal c s (inl e, w) = (inl e, w)
    body_literal c s (inr raw, w) =
        detail_literal c s (parse_mail_detail_from_view_body lib.decoder raw) w

    -- `buildLiteral`; the left is an error.
    unfoldable pub build_literal : Client → Bytes → MailSummary → W → (Bytes ⊎ Literal) × W
    unfolding post_json body_literal itoa
    build_literal c view_lang s w =
        let id = itoa s.id in
        let req = record (request (codes "mail") (codes "view") view_lang) {
          params = (codes "mail_id", id) ∷ (codes "param_1", id) ∷ [];
        } in
        body_literal c s (post_json lib.http c c.token req w)
