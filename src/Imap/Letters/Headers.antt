-- ===== src/Imap/Letters/Headers.antt =====
-- Where the headers of a letter of internal/imapbackend/rfc822.go end.
use xyecoc_mailbridge.Base.{
  ℕ, zero, suc, Bool, true, false, some, List, [], ◌∷◌, ◌++◌, Bytes, codes, ◌==◌, ◌≡◌, refl, arith,
  All, All-append, All-both, is_empty, &&-eq-true, ◌&&◌, Bool-cases, if◌then◌else◌, inl, inr,
}
use xyecoc_mailbridge.Text.{
  is_ascii, Inline, is_inline, crlf, ℤ, pos, negsuc, itoa, decimal, AllDigits, is_digit,
  decimal-AllDigits, replace_byte, Misses, replace_byte-Misses, replace_byte-All, trim_space-All,
  cut, join,
}
use xyecoc_mailbridge.Remote.{MailDetail}
use xyecoc_mailbridge.Imap.Letters.{
  Writer, AttachmentPart, sanitize_header, address_lines, id_lines, html_headers, multipart_headers,
  build_rfc822_html_only, build_rfc822_multipart, html_payload, html_part, attachment_parts,
  encode_subject, is_positive, remote_bridge_message_id,
}
use xyecoc_mailbridge.Imap.Letters.EmptyLine.{IsLine, blank_line, headers_end}

sanitize_header-Inline : (s : Bytes) → Inline (sanitize_header s)
unfolding sanitize_header Inline is_inline Misses
sanitize_header-Inline s =
    let cr : Bytes = replace_byte b'\r' (codes " ") s in
    trim_space-All _ _ (
      All-both (λ x. (x == b'\r') ≡ false) (λ x. (x == b'\n') ≡ false) (λ c. is_inline c ≡ true)
        (λ x h k. rw (h, k) refl) (replace_byte b'\n' (codes " ") cr)
        (replace_byte-All (λ x. (x == b'\r') ≡ false) b'\n' (codes " ") cr (refl, tt)
          (replace_byte-Misses b'\r' (codes " ") s (refl, tt)))
        (replace_byte-Misses b'\n' (codes " ") cr (refl, tt)))

digits-Inline : (s : Bytes) → AllDigits s → Inline s
unfolding AllDigits Inline
digits-Inline [] h = tt
digits-Inline (c ∷ s) h = (digit c h.0, digits-Inline s h.1)
  where
    digit : (c : ℕ) → is_digit c ≡ true → is_inline c ≡ true
    digit c h = unfold is_digit is_inline in ground arith

-- A text without a line break, computed.
all_inline : Bytes → Bool
all_inline [] = true
all_inline (x ∷ s) = is_inline x && all_inline s

all_inline-Inline : (s : Bytes) → all_inline s ≡ true → Inline s
unfolding all_inline Inline
all_inline-Inline [] h = tt
all_inline-Inline (x ∷ s) h =
    let (a, b) = &&-eq-true (is_inline x) (all_inline s) h in (a, all_inline-Inline s b)

-- A line that starts with a literal text.
field-IsLine :
    (x : ℕ) (name value : Bytes)
    → all_inline (x ∷ name) ≡ true
    → Inline value
    → IsLine ((x ∷ name) ++ value)
unfolding IsLine Inline
field-IsLine x name value h k =
    (refl, All-append _ (x ∷ name) value (all_inline-Inline (x ∷ name) h) k)

module _ (w : Writer) (encoded : (t : Bytes) → Inline (w.encode t)) where
  encode_subject-Inline : (s : Bytes) → (is_ascii s ≡ true → Inline s) → Inline (encode_subject w s)
  unfolding encode_subject Inline all_inline is_inline
  encode_subject-Inline s h = elim (Bool-cases (is_ascii s)) [
    | inl a ↦ rw a (h a)
    | inr b ↦ rw b (
        All-append _ (codes "=?UTF-8?B?") _ (all_inline-Inline (codes "=?UTF-8?B?") refl) (
          All-append _ (w.encode s) (codes "?=") (encoded s) (all_inline-Inline (codes "?=") refl)))
  ]

  subject-Inline :
      (s : Bytes)
      → (is_ascii s ≡ true → Inline s)
      → Inline (encode_subject w (if is_empty s then codes "(no subject)" else s))
  unfolding all_inline is_inline
  subject-Inline [] h =
      encode_subject-Inline (codes "(no subject)")
        (λ a. all_inline-Inline (codes "(no subject)") refl)
  subject-Inline (x ∷ s) h = encode_subject-Inline (x ∷ s) h

  address_lines-IsLine :
      (d : MailDetail) (date : ℕ)
      → Inline (w.format_date date)
      → (is_ascii d.subject ≡ true → Inline d.subject)
      → All IsLine (address_lines w d date)
  unfolding address_lines all_inline is_inline
  address_lines-IsLine d date f h = (
    field-IsLine b'F' (codes "rom: ") _ refl (
        sanitize_header-Inline
          (xyecoc_mailbridge.Imap.Letters.format_addr w d.from_name d.from_email)),
    (
      field-IsLine b'T' (codes "o: ") _ refl
          (sanitize_header-Inline (if is_empty d.to then codes "undisclosed@local" else d.to)),
      (
        field-IsLine b'S' (codes "ubject: ") _ refl (subject-Inline d.subject h),
        (
          field-IsLine b'D' (codes "ate: ") _ refl f,
          (field-IsLine b'M' (codes "IME-Version: 1.0") [] refl (unfold Inline in tt), tt),
        ),
      ),
    ),
  )

  id-Inline : (n : ℕ) → Inline (remote_bridge_message_id (pos n) ++ codes ">")
  unfolding remote_bridge_message_id itoa Inline all_inline is_inline
  id-Inline n =
      All-append _ (codes "xyecoc-mail-" ++ (decimal n ++ codes "@mailbridge")) (codes ">")
        (All-append _ (codes "xyecoc-mail-") _ (all_inline-Inline (codes "xyecoc-mail-") refl) (
          All-append _ (decimal n) _ (digits-Inline (decimal n) (decimal-AllDigits n))
            (all_inline-Inline (codes "@mailbridge") refl)))
        (all_inline-Inline (codes ">") refl)

  id_lines-IsLine : (id : ℤ) → All IsLine (id_lines w id)
  unfolding id_lines all_inline is_inline is_positive itoa
  id_lines-IsLine (negsuc n) = tt
  id_lines-IsLine (pos zero) = tt
  id_lines-IsLine (pos (suc n)) = (
    field-IsLine b'M' (codes "essage-ID: <") _ refl (id-Inline (suc n)),
    (
      field-IsLine b'X' (codes "-Remote-Mail-Id: ") (decimal (suc n)) refl
          (digits-Inline (decimal (suc n)) (decimal-AllDigits (suc n))),
      tt,
    ),
  )

  html_headers-IsLine :
      (d : MailDetail) (date : ℕ)
      → Inline (w.format_date date)
      → (is_ascii d.subject ≡ true → Inline d.subject)
      → All IsLine (html_headers w d date)
  unfolding html_headers all_inline is_inline
  html_headers-IsLine d date f h =
      All-append IsLine (address_lines w d date)
        (codes "Content-Type: text/html; charset=UTF-8"
          ∷ codes "Content-Transfer-Encoding: 8bit"
          ∷ id_lines w d.id)
        (address_lines-IsLine d date f h)
        (
          field-IsLine b'C' (codes "ontent-Type: text/html; charset=UTF-8") [] refl
              (unfold Inline in tt),
          (
            field-IsLine b'C' (codes "ontent-Transfer-Encoding: 8bit") [] refl
                (unfold Inline in tt),
            id_lines-IsLine d.id,
          ),
        )

  multipart_headers-IsLine :
      (d : MailDetail) (date : ℕ) (ct : Bytes)
      → Inline (w.format_date date)
      → (is_ascii d.subject ≡ true → Inline d.subject)
      → Inline ct
      → All IsLine (multipart_headers w d date ct)
  unfolding multipart_headers all_inline is_inline
  multipart_headers-IsLine d date ct f h k =
      All-append IsLine (address_lines w d date) ((codes "Content-Type: " ++ ct) ∷ id_lines w d.id)
        (address_lines-IsLine d date f h)
        (field-IsLine b'C' (codes "ontent-Type: ") ct refl k, id_lines-IsLine d.id)

  -- Where the library writes no line break into base64, a date or a content type, and the subject
  -- has none unless it is encoded: none of the lines that the bridge wrote as headers has a carriage
  -- return or a line feed in it, whatever the names and addresses of the sender and the recipients
  -- are, and the first empty line of a letter stands behind these lines, followed exactly by the
  -- body.
  pub cut-build_rfc822 :
      (d : MailDetail) (html : Bytes) (date : ℕ) (attachments : List AttachmentPart)
      → Inline (w.format_date date)
      → (is_ascii d.subject ≡ true → Inline d.subject)
      → Inline (w.multipart (html_part w d html ∷ attachment_parts w attachments)).0
      → All IsLine (html_headers w d date)
        × (cut blank_line (build_rfc822_html_only w d html date)
            ≡ some (join crlf (html_headers w d date), html_payload d html))
        × All IsLine (
            multipart_headers w d date
              (w.multipart (html_part w d html ∷ attachment_parts w attachments)).0)
        × (cut blank_line (build_rfc822_multipart w d html date attachments)
            ≡ some (
              join crlf (
                  multipart_headers w d date
                    (w.multipart (html_part w d html ∷ attachment_parts w attachments)).0),
              (w.multipart (html_part w d html ∷ attachment_parts w attachments)).1,
            ))
  unfolding build_rfc822_html_only build_rfc822_multipart html_headers multipart_headers
      address_lines
  cut-build_rfc822 d html date attachments f h k = (
    html_headers-IsLine d date f h,
    headers_end (html_headers w d date) (html_payload d html) refl (html_headers-IsLine d date f h),
    multipart_headers-IsLine d date _ f h k,
    headers_end (multipart_headers w d date _) _ refl (multipart_headers-IsLine d date _ f h k),
  )
