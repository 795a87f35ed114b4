-- ===== src/Imap/Mailbox/Actions/Evicts.antt =====
-- What a STORE, MOVE or EXPUNGE that succeeds leaves behind: no stale list in the cache, and
-- after EXPUNGE no pending message.
use xyecoc_mailbridge.Base.{
  ℕ, Bool, true, false, ◌&&◌, Option, none, some, List, [], ◌∷◌, Bytes, codes, eqb, eqb_refl, ◌≡◌,
  refl, sym, ap, ◌∙◌, arith, Bool-cases, inl, inr, lookup, lookup-erase, ◌==◌, subst,
}
use xyecoc_mailbridge.Text.{ℤ, pos}
use xyecoc_mailbridge.Remote.{Answer, answered, unreachable, mail_mutation_ok, Api}
use xyecoc_mailbridge.Imap.Names.{MailboxSpec, spec_cache_key}
use xyecoc_mailbridge.Imap.User.{Settings, call, invalidate_spec}
use xyecoc_mailbridge.Imap.User.Change.{
  Status, ok, no_such_mailbox, already_exists, bad_name, unsupported, api_error, refused,
}
use xyecoc_mailbridge.Imap.Mailbox.{SeqSet, Flag, has_id, remove_id}
use xyecoc_mailbridge.Imap.Mailbox.Actions.{
  FlagsOp, Mailbox, action_request, mail_action, then_do, over, apply_flag_op, invalidate, act_on,
  move_action, update_messages_flags, move_to, expunge_ids, expunge,
}

-- No list is cached for the mailbox.
unfoldable pub Uncached : {W : Type 0} → MailboxSpec → Mailbox W → Type 0
Uncached s m = lookup (spec_cache_key s) m.user.list_cache ≡ none

module _ {W : Type 0} (api : Api W) (cfg : Settings) (spec : MailboxSpec) where
  pub then_do-ok :
      (r : Status × Mailbox W) (next : Mailbox W → Status × Mailbox W)
      → (then_do api cfg spec r next).0 ≡ ok
      → (r.0 ≡ ok) × (then_do api cfg spec r next ≡ next r.1)
  unfolding then_do
  then_do-ok (ok, m) next h = (refl, refl)
  then_do-ok (no_such_mailbox, m) next h = absurd (cc h)
  then_do-ok (already_exists, m) next h = absurd (cc h)
  then_do-ok (bad_name, m) next h = absurd (cc h)
  then_do-ok (unsupported, m) next h = absurd (cc h)
  then_do-ok (api_error e, m) next h = absurd (cc h)
  then_do-ok (refused a e, m) next h = absurd (cc h)

  invalidate-Uncached : (m : Mailbox W) (s : MailboxSpec) → Uncached s (invalidate api cfg spec s m)
  unfolding invalidate Uncached invalidate_spec
  invalidate-Uncached m s =
      lookup-erase (spec_cache_key s) (spec_cache_key s) m.user.list_cache
      ∙ rw (eqb_refl (spec_cache_key s)) refl

  invalidate-keeps :
      (m : Mailbox W) (s t : MailboxSpec) → Uncached s m → Uncached s (invalidate api cfg spec t m)
  unfolding invalidate Uncached invalidate_spec
  invalidate-keeps m s t h =
      lookup-erase (spec_cache_key t) (spec_cache_key s) m.user.list_cache ∙ ground (arith, h)

  -- When `UpdateMessagesFlags` reports success, the list of the mailbox is not in the cache.
  pub update_messages_flags-Uncached :
      (uid : Bool) (set : Option SeqSet) (op : FlagsOp) (flags : List Flag) (m : Mailbox W)
      → (update_messages_flags api cfg spec uid set op flags m).0 ≡ ok
      → Uncached spec (update_messages_flags api cfg spec uid set op flags m).1
  unfolding update_messages_flags
  update_messages_flags-Uncached uid set op flags m h =
      let (done, e) =
        then_do-ok (over api cfg spec uid set (λ id. apply_flag_op api cfg spec id op flags) m) _
          h in
      subst (λ (r : Status × Mailbox W). Uncached spec r.1) (sym e) (invalidate-Uncached _ spec)

  -- When `MoveMessages` to another mailbox reports success, neither the list of this mailbox nor
  -- the list of the other one is in the cache.
  pub move_to-Uncached :
      (uid : Bool) (set : Option SeqSet) (dest : MailboxSpec) (m : Mailbox W)
      → (eqb dest.param1 spec.param1 && eqb dest.param2 spec.param2) ≡ false
      → (move_to api cfg spec uid set (some dest) m).0 ≡ ok
      → Uncached spec (move_to api cfg spec uid set (some dest) m).1
        × Uncached dest (move_to api cfg spec uid set (some dest) m).1
  unfolding move_to
  move_to-Uncached uid set dest m d =
      rw (move_to, d)
        (λ h.
          let (done, e) =
            then_do-ok (over api cfg spec uid set (act_on api cfg spec (move_action dest)) m) _ h in
          subst (λ (r : Status × Mailbox W). Uncached spec r.1 × Uncached dest r.1) (sym e)
            (invalidate-keeps _ spec dest (invalidate-Uncached _ spec), invalidate-Uncached _ dest))

  mail_action-pending :
      (id : ℤ) (action : Bytes) (value : Option Bytes) (m : Mailbox W)
      → (mail_action api cfg spec id action value m).1.pending_deleted ≡ m.pending_deleted
  unfolding mail_action
  mail_action-pending id action value m =
      go (call api cfg (action_request api cfg spec id action value) m.user).0 refl
    where
      go :
          (a : Answer)
          → (call api cfg (action_request api cfg spec id action value) m.user).0 ≡ a
          → (mail_action api cfg spec id action value m).1.pending_deleted ≡ m.pending_deleted
      go (unreachable t) e = rw (mail_action, e) refl
      go (answered r) e = elim (Bool-cases (mail_mutation_ok api.json api.unicode r)) [
        | inl good ↦ rw (mail_action, e, good) refl
        | inr bad ↦ rw (mail_action, e, bad) refl
      ]

  remove_id-has_id :
      (x k : ℕ) (ids : List ℕ)
      → has_id x (remove_id k ids) ≡ true
      → (has_id x ids ≡ true) × ((k == x) ≡ false)
  unfolding has_id remove_id
  remove_id-has_id x k [] h = absurd (ground (arith, h))
  remove_id-has_id x k (j ∷ ids) h = ground (arith, remove_id-has_id x k ids)

  -- What stays pending was pending, and is not an id of the loop.
  expunge_ids-pending :
      (ids : List ℕ) (m : Mailbox W)
      → (expunge_ids api cfg spec ids m).0 ≡ ok
      → (x : ℕ) → has_id x (expunge_ids api cfg spec ids m).1.pending_deleted ≡ true
      → (has_id x m.pending_deleted ≡ true) × (has_id x ids ≡ false)
  unfolding expunge_ids has_id
  expunge_ids-pending [] m h x p = (p, refl)
  expunge_ids-pending (id ∷ ids) m h x p =
      let first = mail_action api cfg spec (pos id) (codes "delete") none m in
      let m' = record first.1 { pending_deleted = remove_id id first.1.pending_deleted } in
      let (done, e) = then_do-ok first _ h in
      let rest =
        expunge_ids-pending ids m' (sym (ap (λ (r : Status × Mailbox W). r.0) e) ∙ h) x
          (subst (λ (r : Status × Mailbox W). has_id x r.1.pending_deleted ≡ true) e p) in
      let kept = remove_id-has_id x id first.1.pending_deleted rest.0 in
      (
        ap (has_id x) (sym (mail_action-pending (pos id) (codes "delete") none m)) ∙ kept.0,
        ground (arith, kept.1, rest.1),
      )

none_has : (ids : List ℕ) → ((x : ℕ) → has_id x ids ≡ true → ⊥) → ids ≡ []
unfolding has_id
none_has [] h = refl
none_has (j ∷ ids) h = absurd (h j (ground arith))

-- When `range` over the pending messages takes each of them, and `Expunge` reports success, no
-- message is pending any more, and the list of the mailbox is not in the cache.
pub expunge-pending :
    {W : Type 0} (api : Api W) (cfg : Settings) (spec : MailboxSpec)
    → ((w : W) (ids : List ℕ) (x : ℕ)
        → has_id x ids ≡ true
        → has_id x (api.range_order w ℕ ids) ≡ true)
    → (m : Mailbox W) → (expunge api cfg spec m).0 ≡ ok
    → ((expunge api cfg spec m).1.pending_deleted ≡ []) × Uncached spec (expunge api cfg spec m).1
unfolding expunge
expunge-pending api cfg spec all m h =
    let ids = api.range_order m.user.world ℕ m.pending_deleted in
    let (done, e) = then_do-ok api cfg spec (expunge_ids api cfg spec ids m) _ h in
    subst (λ (r : Status × Mailbox _). (r.1.pending_deleted ≡ []) × Uncached spec r.1) (sym e)
      (
        none_has _ (λ x p. left_over x (expunge_ids-pending api cfg spec ids m done x p)),
        invalidate-Uncached api cfg spec _ spec,
      )
  where
    left_over :
        (x : ℕ)
        → (has_id x m.pending_deleted ≡ true)
          × (has_id x (api.range_order m.user.world ℕ m.pending_deleted) ≡ false)
        → ⊥
    left_over x (p, q) = cc (all m.user.world m.pending_deleted x p, q)
