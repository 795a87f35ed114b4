-- ===== src/Tests/Letters.antt =====
-- Concrete runs of the letters of both directions.
use xyecoc_mailbridge.Base.{
  ℕ, suc, true, none, some, List, [], ◌∷◌, ◌++◌, Bytes, codes, ◌≡◌, refl, ◌≤◌, length, All, joined,
  eqb, if◌then◌else◌, ◌==◌,
}
use xyecoc_mailbridge.Text.{Inline, is_inline, no_tables, pos, with_ends, crlf, join, cut}
use xyecoc_mailbridge.Remote.{MailDetail, Attachment}
use xyecoc_mailbridge.Remote.Client.{Client, Http, replied, failed}
use xyecoc_mailbridge.Remote.Attached.{Sourced, get_attachment_bytes, get_attachment_bytes-Sourced}
use xyecoc_mailbridge.Outgoing.{Mime, Entity, Part, Outbound, html_esc_plain}
use xyecoc_mailbridge.Outgoing.Walk.{parse_outbound_mail}
use xyecoc_mailbridge.Outgoing.Basename.{is_plain}
use xyecoc_mailbridge.Outgoing.Attached.{AllNamed, parse_outbound_mail-AllNamed}
use xyecoc_mailbridge.Outgoing.Escape.{shown, is_text, html_esc_plain-shown}
use xyecoc_mailbridge.Imap.Letters.{
  Writer, AttachmentPart, build_rfc822_html_only, build_rfc822_multipart, html_headers,
  multipart_headers, html_payload, html_part, attachment_parts, write_mime_base64_lines,
}
use xyecoc_mailbridge.Imap.Letters.EmptyLine.{blank_line, IsLine}
use xyecoc_mailbridge.Imap.Letters.Headers.{cut-build_rfc822}
use xyecoc_mailbridge.Imap.Letters.Lines.{write_mime_base64_lines-slices}

-- A part with a file whose name is a path.
abbrev picture : Part
picture = record {
  content_type = codes "image/png";
  disposition = (codes "attachment", (codes "filename", codes "C:\\tmp\\a/b.png") ∷ []);
  body = some (codes "PNG");
}

abbrev page : Part
page = record {
  content_type = codes "text/plain";
  disposition = ([], []);
  body = some (codes "1 < 2");
}

-- A reply to the letter of the mail 41.
abbrev pub fields_of_reply : Bytes → Bytes
fields_of_reply key =
    if eqb key (codes "In-Reply-To")
    then codes "<xyecoc-mail-41@mailbridge>"
    else if eqb key (codes "Subject")
    then codes "Re: hi"
    else []

abbrev pub reply : Entity
reply = record { get = fields_of_reply; parts = some page ∷ none ∷ some picture ∷ [] }

abbrev pub mime : Mime
mime = record {
  read = λ raw. some reply;
  parse_media_type = λ ct. (ct, []);
  extensions_by_type = λ t. codes ".bin" ∷ [];
  encode = λ raw. raw;
}

extensions_are_plain : (t : Bytes) → All (All λ c. is_plain c ≡ true) (mime.extensions_by_type t)
unfolding is_plain
extensions_are_plain t = ((refl, (refl, (refl, (refl, tt)))), tt)

parse_outbound_mail-AllNamed_example :
    (m : Outbound) × (parse_outbound_mail mime no_tables (codes "raw") ≡ some m)
    × AllNamed m.attaches
parse_outbound_mail-AllNamed_example =
    parse_outbound_mail-AllNamed mime no_tables extensions_are_plain (codes "raw")

html_esc_plain-shown_example :
    All (λ x. is_text x ≡ true) (html_esc_plain (codes "1 < 2 & 3"))
    × (shown 0 (html_esc_plain (codes "1 < 2 & 3")) ≡ codes "1 < 2 & 3")
html_esc_plain-shown_example = html_esc_plain-shown (codes "1 < 2 & 3")

-- A library that writes its texts unchanged.
abbrev pub writer : Writer
writer = record {
  address = λ name email. name ++ email;
  encode = λ raw. codes "AAAA";
  format_date = λ t. codes "today";
  type_by_extension = λ e. codes "image/png";
  multipart = λ parts. (codes "a/b", codes "--b--");
  unicode = no_tables;
}

abbrev detail : MailDetail
detail = record {
  id = pos 41;
  subject = codes "hi";
  from_name = codes "Bob";
  from_email = codes "bob@x.org";
  to = codes "ann@x.org\r\nBcc: eve@x.org";
  created_at = [];
  message = [];
  attachments = [];
  attaches = [];
}

abbrev file : AttachmentPart
file = record { file_name = codes "a.png"; content_type = []; contents = codes "PNG" }

encoded-Inline : (t : Bytes) → Inline (writer.encode t)
unfolding Inline is_inline
encoded-Inline t = (refl, (refl, (refl, (refl, tt))))

date-Inline : Inline (writer.format_date 0)
unfolding Inline is_inline
date-Inline = (refl, (refl, (refl, (refl, (refl, tt)))))

subject-Inline : Inline detail.subject
unfolding Inline is_inline
subject-Inline = (refl, (refl, tt))

type-Inline :
    Inline (writer.multipart (html_part writer detail [] ∷ attachment_parts writer (file ∷ []))).0
unfolding Inline is_inline
type-Inline = (refl, (refl, (refl, tt)))

cut-build_rfc822_example :
    All IsLine (html_headers writer detail 0)
    × (cut blank_line (build_rfc822_html_only writer detail [] 0)
        ≡ some (join crlf (html_headers writer detail 0), html_payload detail []))
    × All IsLine (multipart_headers writer detail 0 (codes "a/b"))
    × (cut blank_line (build_rfc822_multipart writer detail [] 0 (file ∷ []))
        ≡ some (join crlf (multipart_headers writer detail 0 (codes "a/b")), codes "--b--"))
cut-build_rfc822_example =
    cut-build_rfc822 writer encoded-Inline detail [] 0 (file ∷ []) date-Inline (λ a. subject-Inline)
      type-Inline

write_mime_base64_lines-slices_example :
    (lines : List Bytes) × (write_mime_base64_lines writer (codes "PNG") ≡ with_ends lines)
    × All (λ (l : Bytes). length l ≤ 76) lines
    × (joined lines ≡ codes "AAAA")
write_mime_base64_lines-slices_example = write_mime_base64_lines-slices writer (codes "PNG")

-- A server that refuses the first request.
abbrev pub http : Http ℕ
http = record {
  post = λ url body w. (failed (codes "no"), suc w);
  get = λ url header w. (replied (if w == 0 then 404 else 200) (codes "PNG"), suc w);
  marshal = λ token req. [];
  marshal_reply = λ token req. [];
  unmarshal = λ raw. none;
  decode = λ b. none;
  parse_url = λ url. none;
  path_escape = λ s. s;
  query_escape = λ s. s;
  json = record {
    nested_status = λ b. none;
    nested_message = λ b. none;
    nested_token = λ b. none;
    text_token = λ b. none;
    nested_mails = λ b. none;
  };
}

abbrev pub client : Client
client = record { base_url = codes "http://a"; asset_url = []; lang = []; token = codes "T" }

abbrev attached : Attachment
attached = record {
  id = pos 7;
  file_name = codes "a.png";
  extension = codes ".PNG";
  created_at = codes "2026-01-02T03:04";
  content = [];
  url = [];
}

get_attachment_bytes-Sourced_example :
    Sourced http no_tables client attached
      (pos 41)
      []
      (get_attachment_bytes http no_tables client attached (pos 41) [] 0).0
get_attachment_bytes-Sourced_example =
    get_attachment_bytes-Sourced http no_tables client attached (pos 41) [] 0
