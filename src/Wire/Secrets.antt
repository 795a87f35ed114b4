-- ===== src/Wire/Secrets.antt =====
-- Which passwords `redactIMAPLine` of internal/protocollog/writer.go masks.
use xyecoc_mailbridge.Base.{
  ℕ, Bool, true, false, ◌&&◌, List, [], ◌∷◌, ◌++◌, Bytes, codes, leb, ◌≡◌, refl, ap, ◌∙◌, arith,
  All, is_empty, append_assoc, append-nil,
}
use xyecoc_mailbridge.Text.{
  Unicode, equal_fold, fields, fields_from, flush, space_len, is_ascii_space, is_space2, is_space3,
}
use xyecoc_mailbridge.Wire.{redact_imap_line, redact_login}

-- An ASCII byte that is no space and no control character.
unfoldable pub is_graphic : ℕ → Bool
is_graphic c = leb 33 c && leb c 126

-- A word: not empty, and of such bytes.
unfoldable pub IsWord : Bytes → Type 0
IsWord w = (is_empty w ≡ false) × All (λ c. is_graphic c ≡ true) w

space_len-graphic : (x : ℕ) (s : Bytes) → is_graphic x ≡ true → space_len (x ∷ s) ≡ 0
unfolding space_len is_graphic is_ascii_space is_space2 is_space3
space_len-graphic x [] h = ground arith
space_len-graphic x (y ∷ []) h = ground arith
space_len-graphic x (y ∷ z ∷ s) h = ground arith

space_len-space : (s : Bytes) → space_len (b' ' ∷ s) ≡ 1
unfolding space_len is_ascii_space
space_len-space [] = refl
space_len-space (y ∷ []) = refl
space_len-space (y ∷ z ∷ s) = refl

fields_from-word :
    (cur w s : Bytes)
    → All (λ c. is_graphic c ≡ true) w
    → fields_from 0 cur (w ++ b' ' ∷ s) ≡ flush (cur ++ w) (fields s)
unfolding fields_from fields
fields_from-word cur [] s h = rw (fields_from, space_len-space s, append-nil cur) refl
fields_from-word cur (x ∷ w) s h =
    rw (fields_from, space_len-graphic x (w ++ b' ' ∷ s) h.0)
      (fields_from-word (cur ++ x ∷ []) w s h.1
        ∙ ap (λ (c : Bytes). flush c (fields s)) (append_assoc cur (x ∷ []) w))

flush-word : (w : Bytes) (rest : List Bytes) → is_empty w ≡ false → flush w rest ≡ w ∷ rest
unfolding flush
flush-word [] rest h = absurd (cc h)
flush-word (x ∷ w) rest h = refl

fields-word : (w s : Bytes) → IsWord w → fields (w ++ b' ' ∷ s) ≡ w ∷ fields s
unfolding fields IsWord
fields-word w s h = fields_from-word [] w s h.1 ∙ flush-word w (fields s) h.0

-- The line of a LOGIN command with the password at its end is logged without the password,
-- whatever that is: with its tag, its user name and a mark.
pub redact_imap_line-login :
    (u : Unicode) (tag verb user password first : Bytes) (more : List Bytes)
    → IsWord tag
    → IsWord verb
    → IsWord user
    → equal_fold u verb (codes "LOGIN") ≡ true
    → fields password ≡ first ∷ more
    → redact_imap_line u (tag ++ b' ' ∷ (verb ++ b' ' ∷ (user ++ b' ' ∷ password)))
      ≡ tag ++ (codes " LOGIN " ++ (user ++ codes " [redacted]"))
unfolding redact_imap_line redact_login
redact_imap_line-login u tag verb user password first more t v n e p =
    rw
      (
        redact_imap_line,
        fields-word tag (verb ++ b' ' ∷ (user ++ b' ' ∷ password)) t,
        fields-word verb (user ++ b' ' ∷ password) v,
        fields-word user password n,
        p,
        e,
      )
      refl
