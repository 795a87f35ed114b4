-- ===== src/Outgoing/Basename.antt =====
-- What `basenameOnly` of internal/smtpbridge/parse_outbound.go promises of a file name.
use xyecoc_mailbridge.Base.{
  ℕ, Bool, true, false, not, ◌||◌, List, [], ◌∷◌, Bytes, codes, ◌==◌, ◌≡◌, refl, if◌then◌else◌, All,
  Bool-cases, inl, inr, is_empty, ◌⊎◌, eqb, if-Both, All-both,
}
use xyecoc_mailbridge.Text.{
  replace_byte, Misses, replace_byte-Misses, split, push_first, trim_right, trim_right-All,
}
use xyecoc_mailbridge.Outgoing.{last_part, base, basename_only}

-- No separator of a path.
unfoldable pub is_plain : ℕ → Bool
is_plain c = not (c == b'/' || c == b'\\')

push_first-All :
    (P : ℕ → Type 0) (x : ℕ) (ps : List Bytes)
    → P x
    → All (All P) ps
    → All (All P) (push_first x ps)
unfolding push_first
push_first-All P x [] h a = ((h, tt), tt)
push_first-All P x (p ∷ ps) h a = ((h, a.0), a.1)

split-All : (P : ℕ → Type 0) (c : ℕ) (s : Bytes) → All P s → All (All P) (split c s)
unfolding split
split-All P c [] h = (tt, tt)
split-All P c (x ∷ s) h = elim (Bool-cases (x == c)) [
  | inl e ↦ rw e (tt, split-All P c s h.1)
  | inr e ↦ rw e (push_first-All P x (split c s) h.0 (split-All P c s h.1))
]

split-Misses : (c : ℕ) (s : Bytes) → All (Misses c) (split c s)
unfolding split Misses
split-Misses c [] = (tt, tt)
split-Misses c (x ∷ s) = elim (Bool-cases (x == c)) [
  | inl e ↦ rw e (tt, split-Misses c s)
  | inr e ↦ rw e (push_first-All (λ y. (y == c) ≡ false) x (split c s) e (split-Misses c s))
]

last_part-All : (P : ℕ → Type 0) (ps : List Bytes) → All (All P) ps → All P (last_part ps)
unfolding last_part
last_part-All P [] a = tt
last_part-All P (p ∷ []) a = a.0
last_part-All P (p ∷ q ∷ ps) a = last_part-All P (q ∷ ps) a.1

both : (s : Bytes) → Misses b'/' s → Misses b'\\' s → All (λ c. is_plain c ≡ true) s
unfolding Misses is_plain
both =
    All-both (λ x. (x == b'/') ≡ false) (λ x. (x == b'\\') ≡ false) (λ c. is_plain c ≡ true)
      λ x h k. rw (h, k) refl

-- What `basenameOnly` has of a string that is a separator or plain.
named-plain :
    (b : Bytes)
    → (b ≡ codes "/") ⊎ All (λ c. is_plain c ≡ true) b
    → All (λ c. is_plain c ≡ true) (if eqb b (codes ".") || eqb b (codes "/") then [] else b)
unfolding eqb
named-plain b (inl e) = rw e tt
named-plain b (inr h) =
    if-Both (All λ c. is_plain c ≡ true) (eqb b (codes ".") || eqb b (codes "/")) tt h

base-plain :
    (s : Bytes) → Misses b'\\' s → (base s ≡ codes "/") ⊎ All (λ c. is_plain c ≡ true) (base s)
unfolding base Misses is_plain
base-plain s h =
    if-Both (λ b. (b ≡ codes "/") ⊎ All (λ c. is_plain c ≡ true) b) (is_empty s) (inr (refl, tt))
      (if-Both (λ b. (b ≡ codes "/") ⊎ All (λ c. is_plain c ≡ true) b) (is_empty name) (inl refl)
        (inr (
          both name
            (last_part-All (λ x. (x == b'/') ≡ false) _ (split-Misses b'/' (trim_right b'/' s)))
            (last_part-All (λ x. (x == b'\\') ≡ false) _
              (split-All (λ x. (x == b'\\') ≡ false) b'/' _
                (trim_right-All (λ x. (x == b'\\') ≡ false) b'/' s h))))))
  where
    name : Bytes
    name = last_part (split b'/' (trim_right b'/' s))

-- The name that is left is one component of the path.
pub basename_only-plain : (s : Bytes) → All (λ c. is_plain c ≡ true) (basename_only s)
unfolding basename_only Misses
basename_only-plain s =
    named-plain (base (replace_byte b'\\' (codes "/") s))
      (base-plain _ (replace_byte-Misses b'\\' (codes "/") s (refl, tt)))
