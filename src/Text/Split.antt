-- ===== src/Text/Split.antt =====
-- strings.Split, Join and ReplaceAll for one byte, lines with their ends, and texts without some
-- bytes.
use xyecoc_mailbridge.Base.{
  not, ◌||◌, true, Bool, ℕ, List, [], ◌∷◌, ◌++◌, Bytes, ◌==◌, if◌then◌else◌, All, Bool-cases, ◌≡◌,
  inl, if-Both, false, All-append, inr,
}

-- Puts a byte in front of the first part.
unfoldable pub push_first : ℕ → List Bytes → List Bytes
push_first x [] = (x ∷ []) ∷ []
push_first x (p ∷ ps) = (x ∷ p) ∷ ps

-- `strings.Split(s, "c")`: never the empty list.
unfoldable pub split : ℕ → Bytes → List Bytes
unfolding push_first
split c [] = [] ∷ []
split c (x ∷ xs) = let rest = split c xs in if x == c then [] ∷ rest else push_first x rest

unfoldable pub join : Bytes → List Bytes → Bytes
join sep [] = []
join sep (p ∷ []) = p
join sep (p ∷ q ∷ ps) = p ++ (sep ++ join sep (q ∷ ps))

abbrev pub crlf : Bytes
crlf = b'\r' ∷ b'\n' ∷ []

-- Each line with its end.
unfoldable pub with_ends : List Bytes → Bytes
with_ends [] = []
with_ends (l ∷ ls) = l ++ (crlf ++ with_ends ls)

-- `strings.ReplaceAll` of a byte by a string.
unfoldable pub replace_byte : ℕ → Bytes → Bytes → Bytes
replace_byte c r [] = []
replace_byte c r (x ∷ xs) = let rest = replace_byte c r xs in if x == c then r ++ rest else x ∷ rest

-- No byte is `c`.
unfoldable pub Misses : ℕ → Bytes → Type 0
Misses c = All λ x. (x == c) ≡ false

pub replace_byte-Misses : (c : ℕ) (r s : Bytes) → Misses c r → Misses c (replace_byte c r s)
unfolding replace_byte Misses
replace_byte-Misses c r [] h = tt
replace_byte-Misses c r (x ∷ s) h = elim (Bool-cases (x == c)) [
  | inl e ↦ rw e (All-append _ r _ h (replace_byte-Misses c r s h))
  | inr e ↦ rw e (e, replace_byte-Misses c r s h)
]

pub replace_byte-All :
    (P : ℕ → Type 0) (c : ℕ) (r s : Bytes) → All P r → All P s → All P (replace_byte c r s)
unfolding replace_byte
replace_byte-All P c r [] hr h = tt
replace_byte-All P c r (x ∷ s) hr h =
    if-Both (All P) (x == c) (All-append P r _ hr (replace_byte-All P c r s hr h.1))
      (h.0, replace_byte-All P c r s hr h.1)

-- No byte of a line break.
unfoldable pub is_inline : ℕ → Bool
is_inline c = not (c == b'\r' || c == b'\n')

unfoldable pub Inline : Bytes → Type 0
Inline = All λ c. is_inline c ≡ true
