-- ===== src/Outgoing/Attached.antt =====
-- What internal/smtpbridge/parse_outbound.go promises of the names of attachments.
use xyecoc_mailbridge.Base.{
  ℕ, Bool, true, false, Option, none, some, List, [], ◌∷◌, ◌++◌, Bytes, codes, ◌≡◌, refl,
  if◌then◌else◌, All, All-append, Bool-cases, inl, inr, is_empty, if-Both, &&-eq-true, ◌&&◌,
}
use xyecoc_mailbridge.Text.{Unicode, has_prefix, equal_fold}
use xyecoc_mailbridge.Outgoing.{Mime, Part, Entity, basename_only, Outbound}
use xyecoc_mailbridge.Outgoing.Walk.{
  Parts, Headers, guess_extension, guess_filename, attach_payload, headers, take_body, visit, walk,
  outbound_of, parse_outbound_mail, should_encode_as_attachment,
}
use xyecoc_mailbridge.Outgoing.Basename.{is_plain, basename_only-plain}

-- A name that is not empty and has no separator.
unfoldable pub IsFileName : Bytes → Type 0
IsFileName s = (is_empty s ≡ false) × All (λ c. is_plain c ≡ true) s

-- Each attachment has such a name.
unfoldable pub AllNamed : List (Bytes × Bytes) → Type 0
AllNamed = All λ (a : Bytes × Bytes). IsFileName a.0

all_plain : Bytes → Bool
all_plain [] = true
all_plain (x ∷ s) = is_plain x && all_plain s

all_plain-All : (s : Bytes) → all_plain s ≡ true → All (λ c. is_plain c ≡ true) s
unfolding all_plain
all_plain-All [] h = tt
all_plain-All (x ∷ s) h =
    let (a, b) = &&-eq-true (is_plain x) (all_plain s) h in (a, all_plain-All s b)

literal : (x : ℕ) (s : Bytes) → all_plain (x ∷ s) ≡ true → IsFileName (x ∷ s)
unfolding IsFileName
literal x s h = (refl, all_plain-All (x ∷ s) h)

module _ (mime : Mime) (u : Unicode)
    (extensions : (t : Bytes) → All (All λ c. is_plain c ≡ true) (mime.extensions_by_type t)) where
  guess_extension-IsFileName :
      (exts : List Bytes)
      → All (All λ c. is_plain c ≡ true) exts
      → IsFileName (guess_extension exts)
  unfolding guess_extension IsFileName
  guess_extension-IsFileName [] h =
      literal b'a' (codes "ttachment.bin") (unfold all_plain is_plain in refl)
  guess_extension-IsFileName (e ∷ es) h = (
    refl,
    All-append _ (codes "attachment") e
        (literal b'a' (codes "ttachment") (unfold all_plain is_plain in refl)).1 h.0,
  )

  guess_filename-IsFileName : (t : Bytes) → IsFileName (guess_filename mime u t)
  unfolding guess_filename
  guess_filename-IsFileName t =
      if-Both IsFileName _ (literal b'i' (codes "mage.jpg") (unfold all_plain is_plain in refl)) (
        if-Both IsFileName _ (literal b'i' (codes "mage.png") (unfold all_plain is_plain in refl)) (
          if-Both IsFileName _ (literal b'i' (codes "mage.gif") (unfold all_plain is_plain in refl))
            (if-Both IsFileName _
              (literal b'i' (codes "mage.webp") (unfold all_plain is_plain in refl))
              (guess_extension-IsFileName (mime.extensions_by_type t) (extensions t)))))

  attach_payload-IsFileName : (name t raw : Bytes) → IsFileName (attach_payload mime u name t raw).0
  unfolding attach_payload
  attach_payload-IsFileName name t raw = elim (Bool-cases (is_empty (basename_only name))) [
    | inl e ↦ rw e (guess_filename-IsFileName t)
    | inr e ↦ rw e (unfold IsFileName in (e, basename_only-plain name))
  ]

  attach-AllNamed :
      (name t raw : Bytes) (media : List (Bytes × Bytes))
      → AllNamed media
      → AllNamed (media ++ attach_payload mime u name t raw ∷ [])
  unfolding AllNamed
  attach-AllNamed name t raw media a =
      All-append _ media _ a (attach_payload-IsFileName name t raw, tt)

  Named : Parts → Type 0
  Named s = AllNamed s.media

  with_text-Named :
      (html plain : Bytes) (s : Parts)
      → Named s
      → Named (record s { html_part = html; plain_part = plain })
  unfolding Named
  with_text-Named html plain s a = a

  attached-Named :
      (name t raw : Bytes) (s : Parts)
      → Named s
      → Named (record s { media = s.media ++ attach_payload mime u name t raw ∷ [] })
  unfolding Named
  attached-Named name t raw s a = attach-AllNamed name t raw s.media a

  take_body-Named : (h : Headers) (b : Bytes) (s : Parts) → Named s → Named (take_body mime u h b s)
  unfolding take_body
  take_body-Named h b s a =
      if-Both Named (has_prefix h.media_type (codes "text/html"))
        (if-Both Named (equal_fold u h.disp (codes "attachment"))
          (attached-Named h.fname h.media_type b s a) (with_text-Named b s.plain_part s a))
        (if-Both Named (has_prefix h.media_type (codes "text/plain"))
          (if-Both Named (equal_fold u h.disp (codes "attachment"))
            (attached-Named h.fname h.media_type b s a)
            (if-Both Named (is_empty s.plain_part) (with_text-Named s.html_part b s a) a))
          (if-Both Named (should_encode_as_attachment mime u h.disp h.fname h.media_type)
            (attached-Named
              (if is_empty h.fname then guess_filename mime u h.media_type else h.fname)
              h.media_type b s a)
            a))

  visit-Named :
      (p : Part) (o : Option Bytes) (s : Parts)
      → Named s
      → p.body ≡ o
      → Named (visit mime u (some p) s)
  unfolding visit
  visit-Named p none s a e = rw e a
  visit-Named p (some b) s a e =
      rw e (if-Both Named (is_empty b) a (take_body-Named (headers mime u p) b s a))

  walk-Named : (ps : List (Option Part)) (s : Parts) → Named s → Named (walk mime u ps s)
  unfolding walk visit
  walk-Named [] s a = a
  walk-Named (none ∷ ps) s a = walk-Named ps s a
  walk-Named (some p ∷ ps) s a = walk-Named ps _ (visit-Named p p.body s a refl)

  outbound_of-AllNamed :
      (raw : Bytes) (o : Option Entity) → AllNamed (outbound_of mime u raw o).attaches
  unfolding outbound_of AllNamed Named
  outbound_of-AllNamed raw none = tt
  outbound_of-AllNamed raw (some e) = walk-Named e.parts _ tt

  -- The parser takes every message, and whatever file names a client sends, each attachment that
  -- goes to the API has a name that is not empty and has no path separator, where the extensions
  -- that the library knows have none.
  pub parse_outbound_mail-AllNamed :
      (raw : Bytes)
      → (m : Outbound) × (parse_outbound_mail mime u raw ≡ some m) × AllNamed m.attaches
  unfolding parse_outbound_mail
  parse_outbound_mail-AllNamed raw =
      (outbound_of mime u raw (mime.read raw), refl, outbound_of-AllNamed raw (mime.read raw))
