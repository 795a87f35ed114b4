-- ===== src/Imap/Names/Fresh.antt =====
-- The loops of `uniqueDisplayName` and `uniqueTagDisplayName` end, and with a new name.
use mathlib.Core.List.{append_cancel_left, tail-eq_of_cons-eq}
use xyecoc_mailbridge.Base.{
  ℕ, zero, suc, ◌+◌, ◌≤◌, ◌<◌, ◌≡◌, ◌≢◌, refl, sym, ◌∙◌, true, false, Option, none, some, List, [],
  ◌∷◌, ◌++◌, Bytes, codes, eqb, eqb_iff, length, ltb, if◌then◌else◌, arith, Bool-cases, subst, inl,
  inr,
}
use xyecoc_mailbridge.Text.{Unicode, decimal, decimal_injective}
use xyecoc_mailbridge.Imap.Names.{
  MailboxSpec, taken, candidate, first_free, claim, display_base, canonical_name,
  unique_display_name, unique_tag_display_name,
}

-- The map without a key.
without : Bytes → List Bytes → List Bytes
without k [] = []
without k (j ∷ rest) = if eqb j k then without k rest else j ∷ without k rest

length-without-le : (k : Bytes) (occ : List Bytes) → length (without k occ) ≤ length occ
unfolding without
length-without-le k [] = omega arith
length-without-le k (j ∷ rest) = ground (arith, length-without-le k rest)

length-without :
    (k : Bytes) (occ : List Bytes) → taken k occ ≡ true → length (without k occ) < length occ
unfolding without taken
length-without k [] h = ground arith
length-without k (j ∷ rest) h = ground (arith, length-without-le k rest, length-without k rest)

taken-without :
    (k l : Bytes) (occ : List Bytes) → k ≢ l → taken l occ ≡ true → taken l (without k occ) ≡ true
unfolding without taken
taken-without k l [] d h = ground arith
taken-without k l (j ∷ rest) d h =
    ground (arith, eqb_iff j k, eqb_iff j l, taken-without k l rest d)

-- Names that differ from one another and are all taken are not more than the map has.
pigeonhole :
    (name : ℕ → Bytes) (m k : ℕ) (occ : List Bytes)
    → ((i j : ℕ) → k ≤ i → k ≤ j → name i ≡ name j → i ≡ j)
    → ((j : ℕ) → k ≤ j → j < k + m → taken (name j) occ ≡ true)
    → m ≤ length occ
pigeonhole name zero k occ inj all = omega arith
pigeonhole name (suc m) k occ inj all = omega (
  arith,
  length-without (name k) occ (all k (omega arith) (omega arith)),
  pigeonhole name m (suc k) (without (name k) occ)
      (λ i j a b e. inj i j (omega arith) (omega arith) e)
      (λ j a b.
        taken-without (name k) (name j) occ
          (λ e. absurd (omega (arith, inj k j (omega arith) (omega arith) e)))
          (all j (omega arith) (omega arith))),
)

first_free-taken :
    (name : ℕ → Bytes) (f i : ℕ) (occ : List Bytes)
    → taken (name i) occ ≡ true
    → first_free name (suc f) i occ ≡ first_free name f (suc i) occ
unfolding first_free
first_free-taken name f i occ t = rw t refl

first_free-free :
    (name : ℕ → Bytes) (f i : ℕ) (occ : List Bytes)
    → taken (name i) occ ≡ false
    → first_free name (suc f) i occ ≡ some (name i)
unfolding first_free
first_free-free name f i occ t = rw t refl

-- When the fuel runs out, every name tried was taken.
first_free-none :
    (name : ℕ → Bytes) (f i : ℕ) (occ : List Bytes)
    → first_free name f i occ ≡ none
    → (j : ℕ) → i ≤ j
    → j < i + f
    → taken (name j) occ ≡ true
first_free-none name zero i occ h j a b = absurd (omega arith)
first_free-none name (suc f) i occ h j a b = elim (Bool-cases (taken (name i) occ)) [
  | inl t ↦ elim (Bool-cases (ltb i j)) [
    | inl later ↦
        first_free-none name f (suc i) occ (sym (first_free-taken name f i occ t) ∙ h) j
          (ground (arith, later)) (omega arith)
    | inr here ↦ subst (λ (k : ℕ). taken (name k) occ ≡ true) (ground (arith, a, here)) t
  ]
  | inr t ↦ absurd (cc (h, first_free-free name f i occ t))
]

-- A name that the loop returns is new.
first_free-some :
    (name : ℕ → Bytes) (f i : ℕ) (occ : List Bytes) (n : Bytes)
    → first_free name f i occ ≡ some n
    → taken n occ ≡ false
unfolding first_free
first_free-some name zero i occ n h = absurd (cc h)
first_free-some name (suc f) i occ n h = elim (Bool-cases (taken (name i) occ)) [
  | inl t ↦ first_free-some name f (suc i) occ n (sym (first_free-taken name f i occ t) ∙ h)
  | inr t ↦ cc (h, first_free-free name f i occ t, t)
]

-- With the fuel of `claim` the loop returns.
first_free-enough :
    (name : ℕ → Bytes) (occ : List Bytes)
    → ((i j : ℕ) → 2 ≤ i → 2 ≤ j → name i ≡ name j → i ≡ j)
    → first_free name (suc (suc (suc (length occ)))) 0 occ ≢ none
first_free-enough name occ inj h = omega (
  arith,
  pigeonhole name (suc (length occ)) 2 occ inj (λ j a b.
      first_free-none name (suc (suc (suc (length occ)))) 0 occ h j (omega arith) (omega arith)),
)

-- What a returned name and map are: the name is new, and it alone joins the map.
unfoldable pub IsNew : List Bytes → Option (Bytes × List Bytes) → Type 0
IsNew occ none = ⊥
IsNew occ (some (n, after)) = (taken n occ ≡ false) × (after ≡ n ∷ occ)

claim-IsNew :
    (name : ℕ → Bytes) (occ : List Bytes)
    → ((i j : ℕ) → 2 ≤ i → 2 ≤ j → name i ≡ name j → i ≡ j)
    → IsNew occ (claim name occ)
unfolding claim IsNew
claim-IsNew name occ inj = go (first_free name fuel 0 occ) refl
  where
    fuel : ℕ
    fuel = suc (suc (suc (length occ)))

    go : (o : Option Bytes) → first_free name fuel 0 occ ≡ o → IsNew occ (claim name occ)
    go none e = absurd (first_free-enough name occ inj e)
    go (some n) e = rw (e, IsNew) (first_free-some name fuel 0 occ n e, refl)

candidate_injective :
    (base : Bytes) (spec : MailboxSpec) (i j : ℕ)
    → 2 ≤ i
    → 2 ≤ j
    → candidate base spec i ≡ candidate base spec j
    → i ≡ j
unfolding candidate
candidate_injective base spec zero j a b e = absurd (omega arith)
candidate_injective base spec (suc zero) j a b e = absurd (omega arith)
candidate_injective base spec (suc (suc i)) zero a b e = absurd (omega arith)
candidate_injective base spec (suc (suc i)) (suc zero) a b e = absurd (omega arith)
candidate_injective base spec (suc (suc i)) (suc (suc j)) a b e =
    decimal_injective (suc (suc i)) (suc (suc j)) (
      tail-eq_of_cons-eq
        (append_cancel_left base (b'~' ∷ decimal (suc (suc i))) (b'~' ∷ decimal (suc (suc j))) e))

-- For every text of the API and every set of names in use, `uniqueDisplayName` returns, with a
-- name that is not in use, and it adds this name and nothing else to the set.
pub unique_display_name-IsNew :
    (u : Unicode) (api_name : Bytes) (spec : MailboxSpec) (occ : List Bytes)
    → IsNew occ (unique_display_name u api_name spec occ)
unfolding unique_display_name
unique_display_name-IsNew u api_name spec occ =
    claim-IsNew _ occ (candidate_injective (display_base u api_name (canonical_name spec)) spec)

-- For every tag name and every set of names in use, `uniqueTagDisplayName` returns, with a name
-- that is not in use, and it adds this name and nothing else to the set.
pub unique_tag_display_name-IsNew :
    (u : Unicode) (tag_name : Bytes) (spec : MailboxSpec) (occ : List Bytes)
    → IsNew occ (unique_tag_display_name u tag_name spec occ)
unfolding unique_tag_display_name
unique_tag_display_name-IsNew u tag_name spec occ =
    claim-IsNew _ occ
      (candidate_injective (codes "Tag-" ++ display_base u tag_name spec.param2) spec)
