-- ===== src/Remote/Redact/Alike.antt =====
-- What the log of internal/remote/redact.go tells of a password: nothing.
use xyecoc_mailbridge.Base.{
  ℕ, zero, suc, Bool, true, false, some, Bytes, ◌≡◌, refl, sym, ap, ap₂, ◌∙◌, if◌then◌else◌,
  is_empty, ◌||◌, ||-eq-false, codes, arith, eqb_iff, [],
}
use xyecoc_mailbridge.Remote.Redact.{
  Tree, array, object, Items, nil, cons, Members, end, member, Codec, is_password, is_token,
  is_mails, redact_member, redact_value, redact_items, redact_members, omitted, omitted_in,
  with_omitted, redact_json_string, redacted_text, shorten, to_lower,
}

-- Two values that differ at most in what stands under keys for passwords, outside of tokens and
-- lists of mails, which are the same.
mutual
  pub data Alike (c : Codec) : Tree → Tree → Type 0 where
    same : {v : Tree} → Alike c v v
    arrays : {ts us : Items} → AlikeItems c ts us → Alike c (array ts) (array us)
    objects : {ms ns : Members} → AlikeMembers c ms ns → Alike c (object ms) (object ns)

  pub data AlikeItems (c : Codec) : Items → Items → Type 0 where
    nils : AlikeItems c nil nil
    conses :
        {t u : Tree} {ts us : Items}
        → Alike c t u
        → AlikeItems c ts us
        → AlikeItems c (cons t ts) (cons u us)

  pub data AlikeMembers (c : Codec) : Members → Members → Type 0 where
    ends : AlikeMembers c end end
    secrets :
        {k : Bytes} {v w : Tree} {ms ns : Members}
        → is_password c k ≡ true
        → AlikeMembers c ms ns
        → AlikeMembers c (member k v ms) (member k w ns)
    equals :
        {k : Bytes} {v : Tree} {ms ns : Members}
        → AlikeMembers c ms ns
        → AlikeMembers c (member k v ms) (member k v ns)
    insides :
        {k : Bytes} {v w : Tree} {ms ns : Members}
        → (is_token c k || is_mails c k) ≡ false
        → Alike c v w
        → AlikeMembers c ms ns
        → AlikeMembers c (member k v ms) (member k w ns)

module _ (c : Codec) where
  password-mails : (k : Bytes) → is_password c k ≡ true → is_mails c k ≡ false
  unfolding is_password is_mails
  password-mails k h = ground (
    arith,
    eqb_iff (to_lower c.unicode k) (codes "mails"),
    eqb_iff (to_lower c.unicode k) (codes "password"),
    eqb_iff (to_lower c.unicode k) (codes "pass"),
    eqb_iff (to_lower c.unicode k) (codes "secret"),
  )

  omitted-step :
      (k : Bytes) (v w : Tree) (ms ns : Members)
      → (if is_mails c k then omitted v else 0) ≡ (if is_mails c k then omitted w else 0)
      → omitted_in c ms ≡ omitted_in c ns
      → omitted_in c (member k v ms) ≡ omitted_in c (member k w ns)
  unfolding omitted_in
  omitted-step k v w ms ns h e =
      ap₂ (λ (later here : ℕ). elim later as (λ m. ℕ) [ zero ↦ here | suc n ↦ suc n ]) e h

  omitted_in-Alike : {ms ns : Members} → AlikeMembers c ms ns → omitted_in c ms ≡ omitted_in c ns
  omitted_in-Alike ends = refl
  omitted_in-Alike (secrets {k} {v} {w} {ms} {ns} p a) =
      omitted-step k v w ms ns (rw (password-mails k p) refl) (omitted_in-Alike a)
  omitted_in-Alike (equals {k} {v} {ms} {ns} a) = omitted-step k v v ms ns refl (omitted_in-Alike a)
  omitted_in-Alike (insides {k} {v} {w} {ms} {ns} p x a) =
      let (t, m) = ||-eq-false (is_token c k) (is_mails c k) p in
      omitted-step k v w ms ns (rw m refl) (omitted_in-Alike a)

  secret-member :
      (k : Bytes) (v w a b : Tree)
      → is_password c k ≡ true
      → redact_member c k v a ≡ redact_member c k w b
  unfolding redact_member
  secret-member k v w a b h = rw (redact_member, h) refl

  inside-member :
      (k : Bytes) (v w a : Tree)
      → (is_token c k || is_mails c k) ≡ false
      → redact_member c k v a ≡ redact_member c k w a
  unfolding redact_member
  inside-member k v w a h =
      let (t, m) = ||-eq-false (is_token c k) (is_mails c k) h in rw (redact_member, t, m) refl

  mutual
    unfolding redact_value

    redact_value-Alike : {v w : Tree} → Alike c v w → redact_value c v ≡ redact_value c w
    redact_value-Alike same = refl
    redact_value-Alike (arrays h) = ap array (redact_items-Alike h)
    redact_value-Alike (objects h) =
        ap₂ (λ (n : ℕ) (x : Members). object (with_omitted n x)) (omitted_in-Alike h)
          (redact_members-Alike h)

    redact_items-Alike :
        {ts us : Items} → AlikeItems c ts us → redact_items c ts ≡ redact_items c us
    redact_items-Alike nils = refl
    redact_items-Alike (conses h k) = ap₂ cons (redact_value-Alike h) (redact_items-Alike k)

    redact_members-Alike :
        {ms ns : Members} → AlikeMembers c ms ns → redact_members c ms ≡ redact_members c ns
    redact_members-Alike ends = refl
    redact_members-Alike (secrets {k} {v} {w} p a) =
        ap₂ (member k) (secret-member k v w (redact_value c v) (redact_value c w) p)
          (redact_members-Alike a)
    redact_members-Alike (equals {k} {v} a) =
        ap (member k (redact_member c k v (redact_value c v))) (redact_members-Alike a)
    redact_members-Alike (insides {k} {v} {w} p x a) =
        ap₂ (member k)
          (ap (redact_member c k v) (redact_value-Alike x)
            ∙ inside-member k v w (redact_value c w) p)
          (redact_members-Alike a)

  -- Two texts that are not empty, and that JSON reads as values that differ only in what stands
  -- under keys for a password, in nested objects and lists, but not inside the value of a key for a
  -- token or of `mails`, are logged alike, where JSON can encode the redacted value.
  pub redact_json_string-Alike :
      (s t out : Bytes) (v w : Tree)
      → is_empty s ≡ false
      → is_empty t ≡ false
      → c.unmarshal s ≡ some v
      → c.unmarshal t ≡ some w
      → c.marshal (redact_value c v) ≡ some out
      → Alike c v w
      → redact_json_string c s ≡ redact_json_string c t
  unfolding redact_json_string redacted_text shorten
  redact_json_string-Alike s t out v w full fill e k written a =
      ap (λ (b : Bool). if b then [] else redacted_text c s (c.unmarshal s)) full
      ∙ ap (redacted_text c s) e
      ∙ ap (shorten c s) written
      ∙ ap (shorten c t) (sym written ∙ ap c.marshal (redact_value-Alike a))
      ∙ sym (
          ap (λ (b : Bool). if b then [] else redacted_text c t (c.unmarshal t)) fill
          ∙ ap (redacted_text c t) k)
