-- ===== src/Imap/Letters/EmptyLine.antt =====
-- Where lines that are followed by an empty line end, for internal/imapbackend/rfc822.go.
use xyecoc_mailbridge.Base.{
  ℕ, Bool, true, false, none, some, List, [], ◌∷◌, ◌++◌, Bytes, ◌==◌, ◌≡◌, refl, arith, All,
  is_empty, append_assoc, ap, ◌∙◌, append-nil,
}
use xyecoc_mailbridge.Text.{Inline, is_inline, crlf, with_ends, cut, cut_prefix, join}

-- A line of a header: not empty, and without a break.
unfoldable pub IsLine : Bytes → Type 0
IsLine l = (is_empty l ≡ false) × Inline l

abbrev pub blank_line : Bytes
blank_line = b'\r' ∷ b'\n' ∷ b'\r' ∷ b'\n' ∷ []

cut-step :
    (x : ℕ) (s p q : Bytes)
    → cut_prefix (x ∷ s) blank_line ≡ none
    → cut blank_line s ≡ some (p, q)
    → cut blank_line (x ∷ s) ≡ some (x ∷ p, q)
unfolding cut
cut-step x s p q h e = rw (cut, h, e) refl

inline-ne : (x : ℕ) → is_inline x ≡ true → (x == b'\r') ≡ false
unfolding is_inline
inline-ne x h = ground arith

cut-Inline :
    (a s p q : Bytes)
    → Inline a
    → cut blank_line s ≡ some (p, q)
    → cut blank_line (a ++ s) ≡ some (a ++ p, q)
unfolding cut_prefix Inline
cut-Inline [] s p q h e = e
cut-Inline (x ∷ a) s p q h e =
    cut-step x (a ++ s) (a ++ p) q (rw (cut_prefix, inline-ne x h.0) refl)
      (cut-Inline a s p q h.1 e)

cut-break :
    (y : ℕ) (s p q : Bytes)
    → is_inline y ≡ true
    → cut blank_line (y ∷ s) ≡ some (p, q)
    → cut blank_line (b'\r' ∷ b'\n' ∷ y ∷ s) ≡ some (b'\r' ∷ b'\n' ∷ p, q)
unfolding cut_prefix
cut-break y s p q h e =
    cut-step b'\r' (b'\n' ∷ y ∷ s) (b'\n' ∷ p) q (rw (inline-ne y h) refl)
      (cut-step b'\n' (y ∷ s) p q refl e)

cut-with_ends :
    (l : Bytes) (ls : List Bytes) (body : Bytes)
    → IsLine l
    → All IsLine ls
    → cut blank_line (with_ends (l ∷ ls) ++ (crlf ++ body)) ≡ some (join crlf (l ∷ ls), body)
unfolding with_ends join IsLine Inline
cut-with_ends l [] body h hs =
    ap (cut blank_line) (append_assoc l crlf (crlf ++ body))
    ∙ cut-Inline l (crlf ++ (crlf ++ body)) [] body h.1 (unfold cut cut_prefix in refl)
    ∙ ap (λ (s : Bytes). some (s, body)) (append-nil l)
cut-with_ends l ([] ∷ ls) body h hs = absurd (cc (hs.0.0))
cut-with_ends l ((y ∷ k) ∷ ls) body h hs =
    ap (cut blank_line) (append_assoc l (crlf ++ with_ends ((y ∷ k) ∷ ls)) (crlf ++ body))
    ∙ cut-Inline l _ _ body h.1
        (cut-break y _ _ body hs.0.1.0 (cut-with_ends (y ∷ k) ls body hs.0 hs.1))

abbrev pub has_line : List Bytes → Bool
has_line [] = false
has_line (l ∷ ls) = true

pub headers_end :
    (ls : List Bytes) (body : Bytes)
    → has_line ls ≡ true
    → All IsLine ls
    → cut blank_line (with_ends ls ++ (crlf ++ body)) ≡ some (join crlf ls, body)
headers_end [] body e h = absurd (cc e)
headers_end (l ∷ ls) body e h = cut-with_ends l ls body h.0 h.1
