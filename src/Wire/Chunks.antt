-- ===== src/Wire/Chunks.antt =====
-- The lines that `LineWriter` of internal/protocollog/writer.go finds in a stream.
use xyecoc_mailbridge.Base.{
  ℕ, zero, suc, ◌≤◌, List, [], ◌∷◌, ◌++◌, Bytes, ◌≡◌, refl, sym, ap, ◌∙◌, arith, All, is_empty, inl,
  inr, append_assoc, append-nil, length, length-append, subst, joined, Bool-cases,
}
use xyecoc_mailbridge.Text.{Inline, Unicode, crlf, with_ends, trim_space}
use xyecoc_mailbridge.Wire.{drain, write, write_all, emit_lines, emit_line}
use xyecoc_mailbridge.Wire.Lines.{Unended, drain-Unended, drain-line, overlap, line-front}

-- What reading a part of a stream of lines gives: whole lines, and the beginning of the next one.
record Cut (f : ℕ) (d r : Bytes) (lines : List Bytes) : Type 0 where
  ended : List Bytes
  later : List Bytes
  left : Bytes
  whole : lines ≡ ended ++ later
  drained : drain f d ≡ (ended, left)
  rest : left ++ r ≡ with_ends later
  unended : Unended left

nothing-left : (d r : Bytes) → d ++ r ≡ [] → (d ≡ []) × (r ≡ [])
nothing-left [] r h = (refl, h)
nothing-left (x ∷ d) r h = absurd (cc h)

short-Cut :
    (f : ℕ) (d r : Bytes) (lines : List Bytes)
    → Unended d
    → d ++ r ≡ with_ends lines
    → Cut f d r lines
short-Cut f d r lines h e = record {
  ended = [];
  later = lines;
  left = d;
  whole = refl;
  drained = drain-Unended f d h;
  rest = e;
  unended = h;
}

long-Cut :
    (f : ℕ) (l t r : Bytes) (ls : List Bytes)
    → Inline l
    → Cut f t r ls
    → Cut (suc f) (l ++ (crlf ++ t)) r (l ∷ ls)
long-Cut f l t r ls i c = record {
  ended = l ∷ c.ended;
  later = c.later;
  left = c.left;
  whole = ap (◌∷◌ l) c.whole;
  drained = drain-line f l t i ∙ rw c.drained refl;
  rest = c.rest;
  unended = c.unended;
}

long-step :
    (f : ℕ) (l t r : Bytes) (ls : List Bytes)
    → length (l ++ (crlf ++ t)) ≤ f
    → Inline l
    → ((g : ℕ) → length t ≤ g → Cut g t r ls)
    → Cut f (l ++ (crlf ++ t)) r (l ∷ ls)
long-step zero l t r ls k i ih = absurd (omega (arith, length-append l (crlf ++ t)))
long-step (suc f) l t r ls k i ih =
    long-Cut f l t r ls i (ih f (omega (arith, length-append l (crlf ++ t))))

prefix-Cut :
    (f : ℕ) (d r : Bytes) (lines : List Bytes)
    → length d ≤ f
    → All Inline lines
    → d ++ r ≡ with_ends lines
    → Cut f d r lines
unfolding with_ends Unended
prefix-Cut f d r [] k i e =
    let (none_left, x) = nothing-left d r e in
    short-Cut f d r [] (subst Unended (sym none_left) tt) e
prefix-Cut f d r (l ∷ ls) k i e =
    elim (overlap d r (l ++ crlf) (with_ends ls) (e ∙ sym (append_assoc l crlf (with_ends ls)))) [
      | inr (x, t, h) ↦ short-Cut f d r (l ∷ ls) (line-front l d x t i.0 h) e
      | inl (t, h, q) ↦
          let whole : d ≡ l ++ (crlf ++ t) = h ∙ append_assoc l crlf t in
          subst (λ (s : Bytes). Cut f s r (l ∷ ls)) (sym whole)
            (long-step f l t r ls (subst (λ (s : Bytes). length s ≤ f) whole k) i.0
              (λ g j. prefix-Cut g t r ls j i.1 q))
    ]

emit_line-append :
    (u : Unicode) (l : Bytes) (a b : List Bytes) → emit_line u l (a ++ b) ≡ emit_line u l a ++ b
unfolding emit_line
emit_line-append u l a b = elim (Bool-cases (is_empty (trim_space l))) [
  | inl e ↦ rw (emit_line, e) refl
  | inr e ↦ rw (emit_line, e) refl
]

emit_lines-append :
    (u : Unicode) (a b : List Bytes) → emit_lines u (a ++ b) ≡ emit_lines u a ++ emit_lines u b
unfolding emit_lines
emit_lines-append u [] b = refl
emit_lines-append u (l ∷ a) b =
    ap (emit_line u l) (emit_lines-append u a b)
    ∙ emit_line-append u l (emit_lines u a) (emit_lines u b)

ended-Unended : (l s : Bytes) → Unended (l ++ (crlf ++ s)) → ⊥
unfolding Unended
ended-Unended [] s h = cc (h.1.0)
ended-Unended (x ∷ l) s h = ended-Unended l s h.1

no-lines : (lines : List Bytes) → Unended (with_ends lines) → lines ≡ []
unfolding with_ends
no-lines [] h = refl
no-lines (l ∷ ls) h = absurd (ended-Unended l (with_ends ls) h)

later-All : (a b : List Bytes) → All Inline (a ++ b) → All Inline b
later-All [] b h = h
later-All (x ∷ a) b h = later-All a b h.1

write_all-from :
    (u : Unicode) (chunks : List Bytes) (buf : Bytes) (lines : List Bytes)
    → Unended buf
    → All Inline lines
    → buf ++ joined chunks ≡ with_ends lines
    → write_all u chunks buf ≡ (emit_lines u lines, [])
unfolding write_all joined with_ends write emit_lines
write_all-from u [] buf lines h i e =
    let full : buf ≡ with_ends lines = sym (append-nil buf) ∙ e in
    let none_left : lines ≡ [] = no-lines lines (subst Unended full h) in
    ap (λ (b : Bytes). ([], b)) (full ∙ ap with_ends none_left)
    ∙ ap (λ (ls : List Bytes). (emit_lines u ls, [])) (sym none_left)
write_all-from u ([] ∷ ps) buf lines h i e = write_all-from u ps buf lines h i e
write_all-from u ((x ∷ p) ∷ ps) buf lines h i e =
    let c =
      prefix-Cut (length (buf ++ x ∷ p)) (buf ++ x ∷ p) (joined ps) lines (omega arith) i
        (append_assoc buf (x ∷ p) (joined ps) ∙ e) in
    let ih =
      write_all-from u ps c.left c.later c.unended
        (later-All c.ended c.later (subst (All Inline) c.whole i)) c.rest in
    rw (c.drained, ih)
      (ap (λ (s : List Bytes). (s, []))
        (sym (emit_lines-append u c.ended c.later) ∙ ap (emit_lines u) (sym c.whole)))

-- However a stream of lines that end in CR LF is cut into writes, the writes log exactly its
-- lines, in order, and leave nothing in the buffer.
pub write_all-with_ends :
    (u : Unicode) (chunks lines : List Bytes)
    → All Inline lines
    → joined chunks ≡ with_ends lines
    → write_all u chunks [] ≡ (emit_lines u lines, [])
unfolding Unended
write_all-with_ends u chunks lines i e = write_all-from u chunks [] lines tt i e
