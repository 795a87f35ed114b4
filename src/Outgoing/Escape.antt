-- ===== src/Outgoing/Escape.antt =====
-- What `htmlEscPlain` of internal/smtpbridge/parse_outbound.go promises of a plain text.
use xyecoc_mailbridge.Base.{
  ℕ, zero, suc, Bool, true, not, ◌||◌, [], ◌∷◌, ◌++◌, Bytes, codes, ◌==◌, ◌≡◌, refl, ap, ◌∙◌,
  if◌then◌else◌, arith, All, All-append, Bool-cases, inl, inr, append_assoc,
}
use xyecoc_mailbridge.Text.{replace_byte, has_prefix}
use xyecoc_mailbridge.Outgoing.{html_esc_plain}

replace_byte-append :
    (c : ℕ) (r a b : Bytes) → replace_byte c r (a ++ b) ≡ replace_byte c r a ++ replace_byte c r b
unfolding replace_byte
replace_byte-append c r [] b = refl
replace_byte-append c r (x ∷ a) b = elim (Bool-cases (x == c)) [
  | inl e ↦
      rw (e, replace_byte-append c r a b, append_assoc r (replace_byte c r a) (replace_byte c r b))
        refl
  | inr e ↦ rw (e, replace_byte-append c r a b) refl
]

-- The text of one byte.
unfoldable pub entity : ℕ → Bytes
entity c =
    if c == b'&'
    then codes "&amp;"
    else if c == b'<'
    then codes "&lt;"
    else if c == b'>'
    then codes "&gt;"
    else c ∷ []

html_esc_plain-byte : (c : ℕ) → html_esc_plain (c ∷ []) ≡ entity c
unfolding html_esc_plain replace_byte entity
html_esc_plain-byte c = elim (Bool-cases (c == b'&')) [
  | inl a ↦ rw a refl
  | inr a ↦ rw a (elim (Bool-cases (c == b'<')) [
    | inl l ↦ rw l refl
    | inr l ↦ rw l (elim (Bool-cases (c == b'>')) [ inl g ↦ rw g refl | inr g ↦ rw g refl ])
  ])
]

html_esc_plain-cons : (c : ℕ) (s : Bytes) → html_esc_plain (c ∷ s) ≡ entity c ++ html_esc_plain s
unfolding html_esc_plain
html_esc_plain-cons c s =
    ap (λ (t : Bytes). replace_byte b'>' (codes "&gt;") (replace_byte b'<' (codes "&lt;") t))
      (replace_byte-append b'&' (codes "&amp;") (c ∷ []) s)
    ∙ ap (replace_byte b'>' (codes "&gt;")) (
        replace_byte-append b'<' (codes "&lt;") (replace_byte b'&' (codes "&amp;") (c ∷ []))
          (replace_byte b'&' (codes "&amp;") s))
    ∙ replace_byte-append b'>' (codes "&gt;")
        (replace_byte b'<' (codes "&lt;") (replace_byte b'&' (codes "&amp;") (c ∷ [])))
        (replace_byte b'<' (codes "&lt;") (replace_byte b'&' (codes "&amp;") s))
    ∙ ap (λ (t : Bytes). t ++ html_esc_plain s) (html_esc_plain-byte c)

-- No byte opens or closes a tag.
unfoldable pub is_text : ℕ → Bool
is_text c = not (c == b'<' || c == b'>')

entity-is_text : (c : ℕ) → All (λ x. is_text x ≡ true) (entity c)
unfolding entity is_text
entity-is_text c = elim (Bool-cases (c == b'&')) [
  | inl a ↦ rw a (refl, (refl, (refl, (refl, (refl, tt)))))
  | inr a ↦ rw a (elim (Bool-cases (c == b'<')) [
    | inl l ↦ rw l (refl, (refl, (refl, (refl, tt))))
    | inr l ↦ rw l (elim (Bool-cases (c == b'>')) [
      | inl g ↦ rw g (refl, (refl, (refl, (refl, tt))))
      | inr g ↦ rw g (rw (l, g) refl, tt)
    ])
  ])
]

html_esc_plain-is_text : (s : Bytes) → All (λ x. is_text x ≡ true) (html_esc_plain s)
html_esc_plain-is_text [] = unfold html_esc_plain replace_byte in tt
html_esc_plain-is_text (c ∷ s) =
    rw (html_esc_plain-cons c s)
      (All-append _ (entity c) _ (entity-is_text c) (html_esc_plain-is_text s))

-- What a browser shows: the three entities are read back, `k` is what is left of one.
unfoldable pub shown : ℕ → Bytes → Bytes
unfolding has_prefix
shown k [] = []
shown (suc k) (x ∷ xs) = shown k xs
shown zero (x ∷ xs) =
    let amp = shown 4 xs in
    let tag = shown 3 xs in
    let rest = shown 0 xs in
    if has_prefix (x ∷ xs) (codes "&amp;")
    then b'&' ∷ amp
    else if has_prefix (x ∷ xs) (codes "&lt;")
    then b'<' ∷ tag
    else if has_prefix (x ∷ xs) (codes "&gt;")
    then b'>' ∷ tag
    else x ∷ rest

shown-entity : (c : ℕ) (s : Bytes) → shown 0 (entity c ++ s) ≡ c ∷ shown 0 s
unfolding shown entity has_prefix
shown-entity c s = elim (Bool-cases (c == b'&')) [
  | inl a ↦ rw a (ap (λ (x : ℕ). x ∷ shown 0 s) (ground arith))
  | inr a ↦ rw a (elim (Bool-cases (c == b'<')) [
    | inl l ↦ rw l (ap (λ (x : ℕ). x ∷ shown 0 s) (ground arith))
    | inr l ↦ rw l (elim (Bool-cases (c == b'>')) [
      | inl g ↦ rw g (ap (λ (x : ℕ). x ∷ shown 0 s) (ground arith))
      | inr g ↦ rw g (rw a refl)
    ])
  ])
]

shown-html_esc_plain : (s : Bytes) → shown 0 (html_esc_plain s) ≡ s
shown-html_esc_plain [] = unfold html_esc_plain replace_byte shown in refl
shown-html_esc_plain (c ∷ s) =
    rw (html_esc_plain-cons c s, shown-entity c (html_esc_plain s), shown-html_esc_plain s) refl

-- A plain text becomes HTML without a tag, and a browser shows it unchanged.
pub html_esc_plain-shown :
    (s : Bytes) → All (λ x. is_text x ≡ true) (html_esc_plain s) × (shown 0 (html_esc_plain s) ≡ s)
html_esc_plain-shown s = (html_esc_plain-is_text s, shown-html_esc_plain s)
