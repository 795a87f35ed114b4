-- ===== src/Imap/Names/Sanitized.antt =====
-- What `sanitizeIMAPMailboxName` promises of its result.
use xyecoc_mailbridge.Base.{
  ℕ, ◌≤◌, Bool, not, true, ◌||◌, ◌&&◌, [], ◌∷◌, Bytes, ltb, leb, ◌==◌, ◌≡◌, length, length-take-le,
  take-All, All, arith, Bool-cases, inl, inr,
}
use xyecoc_mailbridge.Text.{trim_space-All, trim_space}
use xyecoc_mailbridge.Imap.Names.{sanitize, sanitize_runes, sanitize_byte}

-- No separator and no ASCII control character.
unfoldable pub is_safe : ℕ → Bool
is_safe c = not (c == b'/' || c == b'\\' || ltb c 32 || c == 127)

AllSafe : Bytes → Type 0
AllSafe = All λ c. is_safe c ≡ true

sanitize_byte-AllSafe : (c : ℕ) (rest : Bytes) → AllSafe rest → AllSafe (sanitize_byte c rest)
unfolding sanitize_byte AllSafe is_safe
sanitize_byte-AllSafe c rest h = elim (Bool-cases (c == b'/' || c == b'\\')) [
  | inl e ↦ rw e (ground arith, h)
  | inr e ↦
      rw e (elim (Bool-cases (ltb c 32 || c == 127)) [
        | inl f ↦ rw f h
        | inr f ↦ rw f (ground arith, h)
      ])
]

sanitize_runes-AllSafe : (s : Bytes) → AllSafe (sanitize_runes s)
unfolding sanitize_runes AllSafe
sanitize_runes-AllSafe [] = tt
sanitize_runes-AllSafe (c ∷ []) = sanitize_byte-AllSafe c [] tt
sanitize_runes-AllSafe (c ∷ d ∷ s) = elim (Bool-cases (c == 0xC2 && leb d 0x9F)) [
  | inl e ↦ rw e (sanitize_runes-AllSafe s)
  | inr e ↦ rw e (sanitize_byte-AllSafe c _ (sanitize_runes-AllSafe (d ∷ s)))
]

-- A sanitized name has at most 200 bytes, and none of them is a separator or an ASCII control
-- character.
pub sanitize-IsSafe :
    (s : Bytes) → (length (sanitize s) ≤ 200) × All (λ c. is_safe c ≡ true) (sanitize s)
unfolding sanitize AllSafe
sanitize-IsSafe s = (
  length-take-le 200 _,
  take-All _ 200 _ (trim_space-All _ _ (sanitize_runes-AllSafe (trim_space s))),
)
