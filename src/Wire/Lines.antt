-- ===== src/Wire/Lines.antt =====
-- The lines that `LineWriter` of internal/protocollog/writer.go finds in a stream.
use xyecoc_mailbridge.Base.{
  ℕ, zero, suc, true, false, none, some, [], ◌∷◌, ◌++◌, Bytes, ◌==◌, ◌≡◌, refl, sym, arith, All,
  ◌⊎◌, inl, inr, cons_injective, ap₂, subst,
}
use xyecoc_mailbridge.Text.{Inline, is_inline, crlf, cut, cut_prefix, cut_byte}
use xyecoc_mailbridge.Wire.{next_line, drain}

-- A text without a line feed.
unfoldable pub Unended : Bytes → Type 0
Unended = All λ c. (c == b'\n') ≡ false

pub crlf-Unended : (x : ℕ) (s : Bytes) → Unended s → cut_prefix (x ∷ s) crlf ≡ none
unfolding cut_prefix Unended
crlf-Unended x [] h = ground arith
crlf-Unended x (y ∷ s) h = rw (cut_prefix, h.0) (ground arith)

pub cut-Unended : (s : Bytes) → Unended s → cut crlf s ≡ none
unfolding cut cut_prefix Unended
cut-Unended [] h = refl
cut-Unended (x ∷ s) h = rw (cut, crlf-Unended x s h.1, cut-Unended s h.1) refl

pub cut_byte-Unended : (s : Bytes) → Unended s → cut_byte b'\n' s ≡ none
unfolding cut_byte Unended
cut_byte-Unended [] h = refl
cut_byte-Unended (x ∷ s) h = rw (h.0, cut_byte-Unended s h.1) refl

pub next_line-Unended : (s : Bytes) → Unended s → next_line s ≡ none
unfolding next_line
next_line-Unended s h = rw (next_line, cut-Unended s h, cut_byte-Unended s h) refl

pub crlf-inline : (x : ℕ) (s : Bytes) → is_inline x ≡ true → cut_prefix (x ∷ s) crlf ≡ none
unfolding cut_prefix is_inline
crlf-inline x s h = ground arith

pub cut-line : (l s : Bytes) → Inline l → cut crlf (l ++ (crlf ++ s)) ≡ some (l, s)
unfolding cut cut_prefix Inline is_inline
cut-line [] s h = refl
cut-line (x ∷ l) s h = rw (cut, crlf-inline x _ h.0, cut-line l s h.1) refl

pub next_line-line : (l s : Bytes) → Inline l → next_line (l ++ (crlf ++ s)) ≡ some (l, s)
unfolding next_line
next_line-line l s h = rw (next_line, cut-line l s h) refl

pub drain-Unended : (f : ℕ) (s : Bytes) → Unended s → drain f s ≡ ([], s)
unfolding drain
drain-Unended zero s h = refl
drain-Unended (suc f) s h = rw (drain, next_line-Unended s h) refl

pub drain-line :
    (f : ℕ) (l s : Bytes)
    → Inline l
    → drain (suc f) (l ++ (crlf ++ s)) ≡ (l ∷ (drain f s).0, (drain f s).1)
unfolding drain
drain-line f l s h = rw (drain, next_line-line l s h) refl

-- Of two ways to cut a text, one piece in front is the longer.
pub overlap :
    (d r a b : Bytes)
    → d ++ r ≡ a ++ b
    → ((t : Bytes) × (d ≡ a ++ t) × (t ++ r ≡ b)) ⊎ ((x : ℕ) × (e : Bytes) × (a ≡ d ++ x ∷ e))
overlap d r [] b h = inl (d, refl, h)
overlap [] r (x ∷ a) b h = inr (x, a, refl)
overlap (y ∷ d) r (x ∷ a) b h =
    let (same, rest) = cons_injective h in
    elim (overlap d r a b rest) [
      | inl (t, e, k) ↦ inl (t, ap₂ ◌∷◌ same e, k)
      | inr (z, e, k) ↦ inr (z, e, ap₂ ◌∷◌ (sym same) k)
    ]

pub crlf-front : (d : Bytes) (x : ℕ) (e : Bytes) → crlf ≡ d ++ x ∷ e → Unended d
unfolding Unended
crlf-front [] x e h = tt
crlf-front (y ∷ []) x e h =
    let (same, rest) = cons_injective h in (subst (λ (c : ℕ). (c == b'\n') ≡ false) same refl, tt)
crlf-front (y ∷ z ∷ []) x e h = absurd (cc h)
crlf-front (y ∷ z ∷ w ∷ d) x e h = absurd (cc h)

pub inline-ne : (c : ℕ) → is_inline c ≡ true → (c == b'\n') ≡ false
unfolding is_inline
inline-ne c h = ground arith

pub line-front : (l d : Bytes) (x : ℕ) (e : Bytes) → Inline l → l ++ crlf ≡ d ++ x ∷ e → Unended d
unfolding Unended Inline
line-front [] d x e i h = crlf-front d x e h
line-front (c ∷ l) [] x e i h = tt
line-front (c ∷ l) (y ∷ d) x e i h =
    let (same, rest) = cons_injective h in
    (subst (λ (b : ℕ). (b == b'\n') ≡ false) same (inline-ne c i.0), line-front l d x e i.1 rest)
