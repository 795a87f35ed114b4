-- ===== src/Text/Trim.antt =====
-- strings.TrimSpace, TrimRight of one byte, and Fields. The white space of `unicode.IsSpace` is
-- written out in UTF-8.
use mathlib.Core.List.{reverse, reverse-append, reverse-cons, reverse-reverse}
use xyecoc_mailbridge.Base.{
  List, ℕ, zero, suc, Bool, ◌&&◌, ◌||◌, [], ◌∷◌, ◌++◌, Bytes, ◌==◌, leb, ◌≡◌, refl, sym, ap, ◌∙◌,
  if◌then◌else◌, arith, All, All-append,
}

unfoldable pub is_ascii_space : ℕ → Bool
is_ascii_space c = (leb 9 c && leb c 13) || c == 32

-- U+0085 and U+00A0.
unfoldable pub is_space2 : ℕ → ℕ → Bool
is_space2 a b = a == 0xC2 && (b == 0x85 || b == 0xA0)

-- U+1680, U+2000 to U+200A, U+2028, U+2029, U+202F, U+205F and U+3000.
unfoldable pub is_space3 : ℕ → ℕ → ℕ → Bool
is_space3 a b c =
    (a == 0xE1 && b == 0x9A && c == 0x80)
    || (a == 0xE2
        && b == 0x80
        && ((leb 0x80 c && leb c 0x8A) || c == 0xA8 || c == 0xA9 || c == 0xAF))
    || (a == 0xE2 && b == 0x81 && c == 0x9F)
    || (a == 0xE3 && b == 0x80 && c == 0x80)

-- The bytes of the white-space character at the front, 0 where there is none.
unfoldable pub space_len : Bytes → ℕ
unfolding is_ascii_space is_space2 is_space3
space_len [] = 0
space_len (a ∷ []) = if is_ascii_space a then 1 else 0
space_len (a ∷ b ∷ []) = if is_ascii_space a then 1 else if is_space2 a b then 2 else 0
space_len (a ∷ b ∷ c ∷ s) =
    if is_ascii_space a then 1 else if is_space2 a b then 2 else if is_space3 a b c then 3 else 0

-- The same at the back of a string that is given backwards.
unfoldable pub space_len_back : Bytes → ℕ
unfolding is_ascii_space is_space2 is_space3
space_len_back [] = 0
space_len_back (a ∷ []) = if is_ascii_space a then 1 else 0
space_len_back (a ∷ b ∷ []) = if is_ascii_space a then 1 else if is_space2 b a then 2 else 0
space_len_back (a ∷ b ∷ c ∷ s) =
    if is_ascii_space a then 1 else if is_space2 b a then 2 else if is_space3 c b a then 3 else 0

-- Skips `k` bytes, and then all that `len` finds at the front.
unfoldable pub strip : (Bytes → ℕ) → ℕ → Bytes → Bytes
strip len k [] = []
strip len (suc k) (x ∷ xs) = strip len k xs
strip len zero (x ∷ xs) = elim (len (x ∷ xs)) [ zero ↦ x ∷ xs | suc k ↦ strip len k xs ]

unfoldable pub trim_space : Bytes → Bytes
unfolding strip space_len space_len_back
trim_space s = reverse (strip space_len_back 0 (reverse (strip space_len 0 s)))

-- The length of a byte `c` at the front.
unfoldable pub byte_len : ℕ → Bytes → ℕ
byte_len c [] = 0
byte_len c (x ∷ xs) = if x == c then 1 else 0

-- `strings.TrimRight(s, "c")`.
unfoldable pub trim_right : ℕ → Bytes → Bytes
unfolding strip byte_len
trim_right c s = reverse (strip (byte_len c) 0 (reverse s))

-- Nothing is left to strip on either side.
pub record IsTrimmed (s : Bytes) : Type 0 where
  pub front : space_len s ≡ 0
  pub back : space_len_back (reverse s) ≡ 0

space_len-prefix : (r t : Bytes) → space_len (r ++ t) ≡ 0 → space_len r ≡ 0
unfolding space_len
space_len-prefix [] t h = refl
space_len-prefix (a ∷ []) [] h = h
space_len-prefix (a ∷ []) (b ∷ []) h = ground arith
space_len-prefix (a ∷ []) (b ∷ c ∷ t) h = ground arith
space_len-prefix (a ∷ b ∷ []) [] h = h
space_len-prefix (a ∷ b ∷ []) (c ∷ t) h = ground arith
space_len-prefix (a ∷ b ∷ c ∷ r) t h = h

strip-done : (len : Bytes → ℕ) (s : Bytes) → len s ≡ 0 → strip len 0 s ≡ s
unfolding strip
strip-done len [] h = refl
strip-done len (x ∷ xs) h = rw (strip, h)

strip-clean : (len : Bytes → ℕ) (k : ℕ) (s : Bytes) → len [] ≡ 0 → len (strip len k s) ≡ 0
unfolding strip
strip-clean len k [] e = e
strip-clean len (suc k) (x ∷ xs) e = strip-clean len k xs e
strip-clean len zero (x ∷ xs) e = go (len (x ∷ xs)) refl (λ k. strip-clean len k xs e)
  where
    go :
        (n : ℕ)
        → len (x ∷ xs) ≡ n
        → ((k : ℕ) → len (strip len k xs) ≡ 0)
        → len (elim n [ zero ↦ x ∷ xs | suc k ↦ strip len k xs ]) ≡ 0
    go zero q ih = q
    go (suc k) q ih = ih k

-- What is stripped stands in front of the rest.
strip-suffix : (len : Bytes → ℕ) (k : ℕ) (s : Bytes) → (t : Bytes) × (t ++ strip len k s ≡ s)
unfolding strip
strip-suffix len k [] = ([], refl)
strip-suffix len (suc k) (x ∷ xs) = let (t, e) = strip-suffix len k xs in (x ∷ t, ap (◌∷◌ x) e)
strip-suffix len zero (x ∷ xs) = go (len (x ∷ xs)) (λ k. strip-suffix len k xs)
  where
    go :
        (n : ℕ)
        → ((k : ℕ) → (t : Bytes) × (t ++ strip len k xs ≡ xs))
        → (t : Bytes) × (t ++ elim n [ zero ↦ x ∷ xs | suc k ↦ strip len k xs ] ≡ x ∷ xs)
    go zero ih = ([], refl)
    go (suc k) ih = let (t, e) = ih k in (x ∷ t, ap (◌∷◌ x) e)

-- The result of `TrimSpace` has no white space at either end.
pub trim_space-IsTrimmed : (s : Bytes) → IsTrimmed (trim_space s)
unfolding trim_space
trim_space-IsTrimmed s =
    let l : Bytes = strip space_len 0 s in
    let b : Bytes = strip space_len_back 0 (reverse l) in
    let (t, e) = strip-suffix space_len_back 0 (reverse l) in
    record {
      front = space_len-prefix (reverse b) (reverse t) (
          ap space_len (sym (reverse-append t b) ∙ ap reverse e ∙ reverse-reverse l)
          ∙ strip-clean space_len 0 s refl);
      back = rw (reverse-reverse b) (strip-clean space_len_back 0 (reverse l) refl);
    }

pub trim_space-fixed : (s : Bytes) → IsTrimmed s → trim_space s ≡ s
unfolding trim_space
trim_space-fixed s h =
    ap (λ (x : Bytes). reverse (strip space_len_back 0 (reverse x)))
      (strip-done space_len s h.front)
    ∙ ap reverse (strip-done space_len_back (reverse s) h.back)
    ∙ reverse-reverse s

pub trim_space_idem : (s : Bytes) → trim_space (trim_space s) ≡ trim_space s
trim_space_idem s = trim_space-fixed (trim_space s) (trim_space-IsTrimmed s)

pub All-reverse {ℓ} : (P : ℕ → Type ℓ) (xs : Bytes) → All P xs → All P (reverse xs)
All-reverse P [] h = tt
All-reverse P (x ∷ xs) h =
    rw (reverse-cons x xs) (All-append P (reverse xs) (x ∷ []) (All-reverse P xs h.1) (h.0, tt))

strip-All {ℓ} :
    (P : ℕ → Type ℓ) (len : Bytes → ℕ) (k : ℕ) (s : Bytes) → All P s → All P (strip len k s)
unfolding strip
strip-All P len k [] h = tt
strip-All P len (suc k) (x ∷ xs) h = strip-All P len k xs h.1
strip-All P len zero (x ∷ xs) h = go (len (x ∷ xs)) (λ k. strip-All P len k xs h.1)
  where
    go :
        (n : ℕ)
        → ((k : ℕ) → All P (strip len k xs))
        → All P (elim n [ zero ↦ x ∷ xs | suc k ↦ strip len k xs ])
    go zero later = h
    go (suc k) later = later k

-- What every byte of a string satisfies, every byte of the trimmed string satisfies.
pub trim_space-All {ℓ} : (P : ℕ → Type ℓ) (s : Bytes) → All P s → All P (trim_space s)
unfolding trim_space
trim_space-All P s h =
    All-reverse P _ (strip-All P space_len_back 0 _ (All-reverse P _ (strip-All P space_len 0 s h)))

pub trim_right-All {ℓ} : (P : ℕ → Type ℓ) (c : ℕ) (s : Bytes) → All P s → All P (trim_right c s)
unfolding trim_right
trim_right-All P c s h =
    All-reverse P _ (strip-All P (byte_len c) 0 (reverse s) (All-reverse P s h))

-- A word that is not empty, in front of the others.
unfoldable pub flush : Bytes → List Bytes → List Bytes
flush [] rest = rest
flush (x ∷ cur) rest = (x ∷ cur) ∷ rest

-- `strings.Fields` behind a word that has begun, with `k` bytes of a space still to skip.
unfoldable pub fields_from : ℕ → Bytes → Bytes → List Bytes
unfolding flush space_len
fields_from k cur [] = flush cur []
fields_from (suc k) cur (x ∷ xs) = fields_from k cur xs
fields_from zero cur (x ∷ xs) = elim (space_len (x ∷ xs)) [
  | zero ↦ fields_from 0 (cur ++ x ∷ []) xs
  | suc k ↦ flush cur (fields_from k [] xs)
]

unfoldable pub fields : Bytes → List Bytes
unfolding fields_from
fields s = fields_from 0 [] s
