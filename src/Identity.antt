-- ===== src/Identity.antt =====
-- internal/identity/email.go: the address that a login stands for.
use mathlib.Core.List.{reverse, reverse-append, reverse-cons}
use xyecoc_mailbridge.Base.{
  ℕ, Bool, true, false, not, ◌||◌, none, some, [], ◌∷◌, ◌++◌, Bytes, codes, is_empty, ◌≡◌, refl,
  sym, ap, ◌∙◌, ◌==◌, if◌then◌else◌, arith, Bool-cases, inl, inr, append_assoc,
}
use xyecoc_mailbridge.Text.{
  trim_space, trim_prefix, cut_prefix, has_byte, cut_byte, has_byte-append-cons, IsTrimmed,
  space_len, space_len_back, is_ascii_space, is_space2, is_space3, trim_space-fixed,
  trim_space-IsTrimmed,
}

unfoldable pub with_domain : Bytes → Bytes → Bytes
with_domain login domain =
    if is_empty domain || has_byte b'@' login then login else login ++ (b'@' ∷ domain)

-- `ExpandLocalPart`.
unfoldable pub expand_local_part : Bytes → Bytes → Bytes
unfolding with_domain
expand_local_part login domain =
    with_domain (trim_space login) (trim_prefix (trim_space domain) (codes "@"))

-- The part before the first `@`, where there is one and it is not empty.
unfoldable pub local_part : Bytes → Bytes
local_part login = elim (cut_byte b'@' login) [
  | none ↦ login
  | some (before, behind) ↦ if is_empty before then login else before
]

-- `RemoteAuthEmail`.
unfoldable pub remote_auth_email : Bytes → Bool → Bytes
unfolding local_part
remote_auth_email login local_only =
    let t = trim_space login in if not local_only || is_empty t then t else local_part t

at_front : (t rest : Bytes) → space_len t ≡ 0 → space_len (t ++ (b'@' ∷ rest)) ≡ 0
unfolding space_len is_ascii_space is_space2 is_space3
at_front [] [] h = refl
at_front [] (x ∷ []) h = refl
at_front [] (x ∷ y ∷ rest) h = refl
at_front (a ∷ []) [] h = ground arith
at_front (a ∷ []) (x ∷ rest) h = ground arith
at_front (a ∷ b ∷ []) rest h = ground arith
at_front (a ∷ b ∷ c ∷ t) rest h = h

at_back : (t rest : Bytes) → space_len_back t ≡ 0 → space_len_back (t ++ (b'@' ∷ rest)) ≡ 0
unfolding space_len_back is_ascii_space is_space2 is_space3
at_back [] [] h = refl
at_back [] (x ∷ []) h = ground arith
at_back [] (x ∷ y ∷ rest) h = ground arith
at_back (a ∷ []) [] h = ground arith
at_back (a ∷ []) (x ∷ rest) h = ground arith
at_back (a ∷ b ∷ []) rest h = ground arith
at_back (a ∷ b ∷ c ∷ t) rest h = h

with_domain-IsTrimmed :
    (t d : Bytes) → IsTrimmed t → space_len_back (reverse d) ≡ 0 → IsTrimmed (with_domain t d)
unfolding with_domain
with_domain-IsTrimmed t d h b = elim (Bool-cases (is_empty d || has_byte b'@' t)) [
  | inl e ↦ rw e h
  | inr e ↦ rw e (record {
    front = at_front t d h.front;
    back =
        rw
          (
            reverse-append t (b'@' ∷ d),
            reverse-cons b'@' d,
            append_assoc (reverse d) (b'@' ∷ []) (reverse t),
          )
          (at_back (reverse d) (reverse t) b);
  })
]

with_domain_idem : (t d : Bytes) → with_domain (with_domain t d) d ≡ with_domain t d
unfolding with_domain
with_domain_idem t d = elim (Bool-cases (is_empty d || has_byte b'@' t)) [
  | inl e ↦ rw (e, e) refl
  | inr e ↦ rw (e, has_byte-append-cons b'@' t d) (ground arith)
]

back_prefix : (r t : Bytes) → space_len_back (r ++ t) ≡ 0 → space_len_back r ≡ 0
unfolding space_len_back
back_prefix [] t h = refl
back_prefix (a ∷ []) [] h = h
back_prefix (a ∷ []) (b ∷ []) h = ground arith
back_prefix (a ∷ []) (b ∷ c ∷ t) h = ground arith
back_prefix (a ∷ b ∷ []) [] h = h
back_prefix (a ∷ b ∷ []) (c ∷ t) h = ground arith
back_prefix (a ∷ b ∷ c ∷ r) t h = h

-- The domain behind an `@` ends as the whole does.
domain_back :
    (d : Bytes)
    → space_len_back (reverse d) ≡ 0
    → space_len_back (reverse (trim_prefix d (codes "@"))) ≡ 0
unfolding trim_prefix cut_prefix
domain_back [] h = h
domain_back (x ∷ d) h = elim (Bool-cases (x == b'@')) [
  | inl e ↦
      rw (trim_prefix, e)
        (back_prefix (reverse d) (x ∷ []) (ap space_len_back (sym (reverse-cons x d)) ∙ h))
  | inr e ↦ rw (trim_prefix, e) h
]

expand_local_part-fixed :
    (login domain : Bytes)
    → trim_space (expand_local_part login domain) ≡ expand_local_part login domain
unfolding expand_local_part
expand_local_part-fixed login domain = trim_space-fixed _ (
    with_domain-IsTrimmed (trim_space login) _ (trim_space-IsTrimmed login)
      (domain_back (trim_space domain) (IsTrimmed.back (trim_space-IsTrimmed domain))))

-- Once a login has its domain, `ExpandLocalPart` does not change it any more.
pub expand_local_part_idem :
    (login domain : Bytes)
    → expand_local_part (expand_local_part login domain) domain ≡ expand_local_part login domain
unfolding expand_local_part
expand_local_part_idem login domain =
    ap (λ (x : Bytes). with_domain x (trim_prefix (trim_space domain) (codes "@")))
      (expand_local_part-fixed login domain)
    ∙ with_domain_idem (trim_space login) _

cut_byte-append-cons :
    (c : ℕ) (a b : Bytes) → has_byte c a ≡ false → cut_byte c (a ++ (c ∷ b)) ≡ some (a, b)
unfolding cut_byte has_byte
cut_byte-append-cons c [] b h = ground arith
cut_byte-append-cons c (x ∷ a) b h =
    rw (cut_byte, cut_byte-append-cons c a b (ground (arith, h))) (ground (arith, h))

cut_byte-none : (c : ℕ) (a : Bytes) → has_byte c a ≡ false → cut_byte c a ≡ none
unfolding cut_byte has_byte
cut_byte-none c [] h = refl
cut_byte-none c (x ∷ a) h = rw (cut_byte, cut_byte-none c a (ground (arith, h))) (ground (arith, h))

local_part-with_domain :
    (t d : Bytes) → is_empty t ≡ false → has_byte b'@' t ≡ false → local_part (with_domain t d) ≡ t
unfolding local_part with_domain
local_part-with_domain t [] n h = rw (local_part, cut_byte-none b'@' t h) refl
local_part-with_domain t (x ∷ d) n h =
    rw (with_domain, h, local_part, cut_byte-append-cons b'@' t (x ∷ d) h, n) refl

with_domain-is_empty : (t d : Bytes) → is_empty t ≡ false → is_empty (with_domain t d) ≡ false
unfolding with_domain
with_domain-is_empty [] d n = absurd (cc n)
with_domain-is_empty (x ∷ t) d n = elim (Bool-cases (is_empty d || has_byte b'@' (x ∷ t))) [
  | inl e ↦ rw e refl
  | inr e ↦ rw e refl
]

-- For a login without an `@` that is not blank, the API gets the login as it was typed, without
-- the white space around it, where it wants the local part: the domain that the bridge added is
-- taken off again.
pub remote_auth_email-expand_local_part :
    (login domain : Bytes)
    → is_empty (trim_space login) ≡ false
    → has_byte b'@' (trim_space login) ≡ false
    → remote_auth_email (expand_local_part login domain) true ≡ trim_space login
unfolding remote_auth_email expand_local_part
remote_auth_email-expand_local_part login domain n h =
    let t : Bytes = trim_space login in
    let d : Bytes = trim_prefix (trim_space domain) (codes "@") in
    rw (expand_local_part-fixed login domain, with_domain-is_empty t d n)
      (local_part-with_domain t d n h)
