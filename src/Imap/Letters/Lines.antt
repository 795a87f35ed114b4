-- ===== src/Imap/Letters/Lines.antt =====
-- The lines of base64 that `writeMIMEBase64Lines` of internal/imapbackend/rfc822.go writes.
use xyecoc_mailbridge.Base.{
  ℕ, zero, suc, ◌≤◌, List, [], ◌∷◌, ◌++◌, Bytes, ◌≡◌, refl, ap, ◌∙◌, arith, All, length, take, drop,
  length-take-le, joined,
}
use xyecoc_mailbridge.Text.{with_ends}
use xyecoc_mailbridge.Imap.Letters.{Writer, slices, write_mime_base64_lines}

take-drop : (n : ℕ) (s : Bytes) → take n s ++ drop n s ≡ s
take-drop zero s = refl
take-drop (suc n) [] = refl
take-drop (suc n) (x ∷ s) = ap (λ (t : Bytes). x ∷ t) (take-drop n s)

length-drop-le : (n : ℕ) (s : Bytes) → length (drop n s) ≤ length s
length-drop-le zero s = omega arith
length-drop-le (suc n) [] = omega arith
length-drop-le (suc n) (x ∷ s) = omega (arith, length-drop-le n s)

joined-slices : (f : ℕ) (s : Bytes) → length s ≤ f → joined (slices f s) ≡ s
unfolding joined slices
joined-slices zero [] h = refl
joined-slices zero (x ∷ s) h = absurd (omega arith)
joined-slices (suc f) [] h = refl
joined-slices (suc f) (x ∷ s) h =
    ap (λ (t : Bytes). x ∷ (take 75 s ++ t))
      (joined-slices f (drop 75 s) (omega (arith, length-drop-le 75 s)))
    ∙ ap (λ (t : Bytes). x ∷ t) (take-drop 75 s)

slices-short : (f : ℕ) (s : Bytes) → All (λ (l : Bytes). length l ≤ 76) (slices f s)
unfolding slices
slices-short zero s = tt
slices-short (suc f) [] = tt
slices-short (suc f) (x ∷ s) = (length-take-le 76 (x ∷ s), slices-short f (drop 75 s))

-- The base64 text of an attachment is written in lines of at most 76 bytes, each with its line
-- end, and nothing of it is lost or added.
pub write_mime_base64_lines-slices :
    (w : Writer) (raw : Bytes)
    → (lines : List Bytes) × (write_mime_base64_lines w raw ≡ with_ends lines)
      × All (λ (l : Bytes). length l ≤ 76) lines
      × (joined lines ≡ w.encode raw)
unfolding write_mime_base64_lines
write_mime_base64_lines-slices w raw = (
  slices (length (w.encode raw)) (w.encode raw),
  refl,
  slices-short (length (w.encode raw)) (w.encode raw),
  joined-slices (length (w.encode raw)) (w.encode raw) (omega arith),
)
