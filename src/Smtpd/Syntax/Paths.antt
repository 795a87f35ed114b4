-- ===== src/Smtpd/Syntax/Paths.antt =====
-- The addresses that MAIL and RCPT of internal/mhalesmtpd/smtpd.go read from their arguments.
use xyecoc_mailbridge.Base.{
  ℕ, ◌≡◌, ◌≢◌, refl, false, Option, none, some, [], ◌∷◌, ◌++◌, map, Bytes, codes, arith, ◌∙◌,
  Option-cases, inl, inr,
}
use xyecoc_mailbridge.Text.{lower_byte, has_byte}
use xyecoc_mailbridge.Smtpd.Syntax.{
  cut_keyword, open_angle, open_path, close_path, leftmost, non_empty, rcpt_here, rcpt_to,
  parameters, mail_here, mail_from, or_else,
}

cut_keyword-append :
    (word p r : Bytes) → map lower_byte word ≡ p → cut_keyword (word ++ r) p ≡ some r
unfolding cut_keyword
cut_keyword-append [] p r e = ground arith
cut_keyword-append (x ∷ xs) [] r e = cc
cut_keyword-append (x ∷ xs) (c ∷ cs) r e = ground (arith, cut_keyword-append xs cs r)

close_path-none : (p : Bytes) → has_byte b'>' p ≡ false → close_path p ≡ none
unfolding close_path has_byte
close_path-none [] h = refl
close_path-none (c ∷ cs) h = ground (arith, close_path-none cs)

-- The last `>` closes the path, whatever stands before it on the line.
close_path-last :
    (a p : Bytes)
    → has_byte 10 a ≡ false
    → has_byte b'>' p ≡ false
    → close_path (a ++ b'>' ∷ p) ≡ some (a, p)
unfolding close_path has_byte
close_path-last [] p h k = ground (arith, close_path-none p k)
close_path-last (c ∷ cs) p h k = ground (arith, close_path-last cs p)

leftmost-here {ℓ} :
    {A : Type ℓ} (f : Bytes → Option A) (s : Bytes) (a : A) → f s ≡ some a → leftmost f s ≡ some a
unfolding leftmost
leftmost-here f [] a e = e
leftmost-here f (x ∷ xs) a e = rw (leftmost, e)

-- For `FROM:` in any case: MAIL reads the address `a` exactly, whatever bytes but a line feed it
-- holds (it may be empty, and may hold `<` and `>`), where it stands in angle brackets behind the
-- keyword and no `>` follows; what follows the bracket are the parameters if it begins with white
-- space, and is ignored if not.
pub mail_from-path :
    (word a params : Bytes)
    → map lower_byte word ≡ codes "from:"
    → has_byte 10 a ≡ false
    → has_byte b'>' params ≡ false
    → mail_from (word ++ (b'<' ∷ (a ++ (b'>' ∷ params)))) ≡ some (a, parameters params)
unfolding mail_from mail_here open_path open_angle
mail_from-path word a params w h k =
    leftmost-here mail_here (word ++ (b'<' ∷ (a ++ (b'>' ∷ params)))) (a, parameters params)
      (rw (
        cut_keyword-append word (codes "from:") (b'<' ∷ (a ++ (b'>' ∷ params))) w,
        close_path-last a params h k,
      ))

-- For `TO:` in any case: RCPT reads a non-empty address exactly where it stands in angle brackets
-- behind the keyword and no `>` follows, whatever bytes but a line feed it holds.
pub rcpt_to-path :
    (word : Bytes) (c : ℕ) (cs rest : Bytes)
    → map lower_byte word ≡ codes "to:"
    → has_byte 10 (c ∷ cs) ≡ false
    → has_byte b'>' rest ≡ false
    → rcpt_to (word ++ (b'<' ∷ ((c ∷ cs) ++ (b'>' ∷ rest)))) ≡ some (c ∷ cs)
unfolding rcpt_to rcpt_here open_path open_angle non_empty
rcpt_to-path word c cs rest w h k =
    leftmost-here rcpt_here (word ++ (b'<' ∷ ((c ∷ cs) ++ (b'>' ∷ rest)))) (c ∷ cs) (
      rw (cut_keyword-append word (codes "to:") (b'<' ∷ ((c ∷ cs) ++ (b'>' ∷ rest))) w)
        (ground (arith, close_path-last (c ∷ cs) rest h k)))

close_path-no_newline : (p a b : Bytes) → close_path p ≡ some (a, b) → has_byte 10 a ≡ false
unfolding close_path has_byte
close_path-no_newline [] a b e = cc
close_path-no_newline (x ∷ xs) a b e = elim (Option-cases (close_path xs)) [
  | inl last ↦ ground (arith, last)
  | inr ((a', b'), more) ↦ ground (arith, more, close_path-no_newline xs a' b' more)
]

leftmost-some {ℓ κ} :
    {A : Type ℓ} (P : A → Type κ) (f : Bytes → Option A) (s : Bytes) (a : A)
    → ((t : Bytes) (x : A) → f t ≡ some x → P x)
    → leftmost f s ≡ some a
    → P a
unfolding leftmost
leftmost-some P f [] a h e = h [] a e
leftmost-some {A} P f (x ∷ xs) a h e = go (f (x ∷ xs)) refl e (leftmost-some P f xs a h)
  where
    go :
        (m : Option A)
        → f (x ∷ xs) ≡ m
        → elim m [ none ↦ leftmost f xs | some b ↦ some b ] ≡ some a
        → (leftmost f xs ≡ some a → P a)
        → P a
    go none here e later = later e
    go (some b) here e later = h (x ∷ xs) a (here ∙ e)

abbrev IsAddress : Bytes → Type 0
IsAddress a = (a ≢ []) × (has_byte 10 a ≡ false)

or_else-some {ℓ κ} :
    {A : Type ℓ} {B : Type κ} (m : Option A) (f : A → Option B) {b : B}
    → or_else m f ≡ some b
    → (a : A) × (m ≡ some a) × (f a ≡ some b)
or_else-some none f e = cc
or_else-some (some a) f e = (a, refl, e)

non_empty-IsAddress : (m a : Bytes) → non_empty m ≡ some a → has_byte 10 m ≡ false → IsAddress a
unfolding non_empty
non_empty-IsAddress [] a e h = cc
non_empty-IsAddress (c ∷ cs) a e h = (λ q. cc, ground arith)

rcpt_here-IsAddress : (s a : Bytes) → rcpt_here s ≡ some a → IsAddress a
unfolding rcpt_here
rcpt_here-IsAddress s a e =
    let (r, _, e1) = or_else-some (cut_keyword s (codes "to:")) _ e in
    let (p, _, e2) = or_else-some (open_path r) _ e1 in
    let (m, closed, e3) = or_else-some (close_path p) _ e2 in
    non_empty-IsAddress m.0 a e3 (close_path-no_newline p m.0 m.1 closed)

-- An address that RCPT reads from any arguments at all is not empty and holds no line feed.
pub rcpt_to-IsAddress : (s a : Bytes) → rcpt_to s ≡ some a → (a ≢ []) × (has_byte 10 a ≡ false)
unfolding rcpt_to
rcpt_to-IsAddress s a e = leftmost-some IsAddress rcpt_here s a rcpt_here-IsAddress e
