-- ===== src/Text/Search.antt =====
-- strings.HasPrefix, TrimPrefix, HasSuffix, Contains, IndexByte, SplitN and the cut at a byte.
use mathlib.Core.List.{reverse}
use xyecoc_mailbridge.Base.{
  ℕ, Bool, true, false, ◌&&◌, ◌||◌, Option, none, some, [], ◌∷◌, ◌++◌, Bytes, ◌==◌, ◌≡◌,
  if◌then◌else◌, arith,
}

unfoldable pub has_prefix : Bytes → Bytes → Bool
has_prefix s [] = true
has_prefix [] (p ∷ ps) = false
has_prefix (x ∷ xs) (p ∷ ps) = x == p && has_prefix xs ps

-- `s` behind the prefix, where it is one.
unfoldable pub cut_prefix : Bytes → Bytes → Option Bytes
cut_prefix s [] = some s
cut_prefix [] (p ∷ ps) = none
cut_prefix (x ∷ xs) (p ∷ ps) = let rest = cut_prefix xs ps in if x == p then rest else none

unfoldable pub trim_prefix : Bytes → Bytes → Bytes
unfolding cut_prefix
trim_prefix s p = elim (cut_prefix s p) [ none ↦ s | some rest ↦ rest ]

unfoldable pub has_suffix : Bytes → Bytes → Bool
unfolding has_prefix
has_suffix s p = has_prefix (reverse s) (reverse p)

unfoldable pub contains : Bytes → Bytes → Bool
unfolding has_prefix
contains [] p = has_prefix [] p
contains (x ∷ xs) p = has_prefix (x ∷ xs) p || contains xs p

-- `strings.Contains(s, "c")` and `strings.IndexByte(s, c) >= 0` for one byte.
unfoldable pub has_byte : ℕ → Bytes → Bool
has_byte c [] = false
has_byte c (x ∷ xs) = x == c || has_byte c xs

-- `s[:i]` and `s[i+1:]` at the first `c`, as `strings.Index(s, "c")` finds it.
unfoldable pub cut_byte : ℕ → Bytes → Option (Bytes × Bytes)
cut_byte c [] = none
cut_byte c (x ∷ xs) =
    let rest = cut_byte c xs in
    if x == c then some ([], xs) else elim rest [ none ↦ none | some (a, b) ↦ some (x ∷ a, b) ]

pub has_byte-append-cons : (c : ℕ) (a b : Bytes) → has_byte c (a ++ c ∷ b) ≡ true
unfolding has_byte
has_byte-append-cons c [] b = ground arith
has_byte-append-cons c (x ∷ a) b = ground (arith, has_byte-append-cons c a b)

-- `strings.SplitN(s, sep, 2)`: what stands before and behind the first `sep`.
unfoldable pub cut : Bytes → Bytes → Option (Bytes × Bytes)
unfolding cut_prefix
cut sep [] = elim (cut_prefix [] sep) [ none ↦ none | some r ↦ some ([], r) ]
cut sep (x ∷ xs) =
    let rest = cut sep xs in
    elim (cut_prefix (x ∷ xs) sep) [
      | some r ↦ some ([], r)
      | none ↦ elim rest [ none ↦ none | some (a, b) ↦ some (x ∷ a, b) ]
    ]
