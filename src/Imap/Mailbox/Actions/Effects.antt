-- ===== src/Imap/Mailbox/Actions/Effects.antt =====
-- How the requests of single steps of STORE, COPY and MOVE add up to those of a whole command.
use xyecoc_mailbridge.Base.{
  Bool, Option, none, some, List, [], ◌∷◌, Bytes, ◌≡◌, refl, sym, ap, ◌∙◌, ◌⊎◌, inl, inr, ℕ, codes,
  ◌++◌, subst, Bool-cases,
}
use xyecoc_mailbridge.Text.{ℤ}
use xyecoc_mailbridge.Remote.{
  MailSummary, Request, Answer, answered, unreachable, mail_mutation_ok, Api,
}
use xyecoc_mailbridge.Imap.Names.{MailboxSpec, page_id}
use xyecoc_mailbridge.Imap.User.{Settings, call}
use xyecoc_mailbridge.Imap.User.Change.{Status, ok}
use xyecoc_mailbridge.Imap.Mailbox.{
  SeqSet, Flag, seen, deleted, flagged, draft, answered_flag, other, uint32, load_summaries, call,
}
use xyecoc_mailbridge.Imap.Mailbox.Actions.{
  FlagsOp, Mailbox, each, over, selected, apply_flag_op, act_on, mail_action, action_request,
  then_do, is_remove, add_id, apply_flag, page_id,
}
use xyecoc_mailbridge.Imap.Mailbox.Actions.Requests.{
  Performed, nothing, then_one, each_requests, each_pending, flag_pending, flags_pending,
  act_requests, flag_requests, flags_requests, Carried,
}
use xyecoc_mailbridge.Imap.Mailbox.Actions.Evicts.{then_do-ok}

Performed-append :
    {W : Type 0} {api : Api W} (xs ys : List Request) {u v w : W}
    → Performed api xs u v
    → Performed api ys v w
    → Performed api (xs ++ ys) u w
Performed-append [] ys nothing q = q
Performed-append (x ∷ xs) ys (then_one e good p) q = then_one e good (Performed-append xs ys p q)

module _ {W : Type 0} (api : Api W) (cfg : Settings) (spec : MailboxSpec) where
  -- A command that succeeds made the requests, and changed the pending IDs as told.
  pub Effect : List Request → (List ℕ → List ℕ) → Mailbox W → Status × Mailbox W → Type 0
  Effect reqs pend m r =
      Performed api reqs m.user.world r.1.user.world
      × (r.1.pending_deleted ≡ pend m.pending_deleted)

  mail_action-Effect :
      (id : ℤ) (action : Bytes) (value : Option Bytes) (m : Mailbox W)
      → (mail_action api cfg spec id action value m).0 ≡ ok
      → Effect
          (action_request api cfg spec id action value ∷ [])
          (λ p. p)
          m
          (mail_action api cfg spec id action value m)
  unfolding mail_action Effect call page_id
  mail_action-Effect id action value m =
      go (api.perform (action_request api cfg spec id action value) m.user.world).0 refl
    where
      go :
          (a : Answer)
          → (api.perform (action_request api cfg spec id action value) m.user.world).0 ≡ a
          → (mail_action api cfg spec id action value m).0 ≡ ok
          → Effect
              (action_request api cfg spec id action value ∷ [])
              (λ p. p)
              m
              (mail_action api cfg spec id action value m)
      go (unreachable t) e = rw (mail_action, e) (λ h. absurd (cc h))
      go (answered r) e = elim (Bool-cases (mail_mutation_ok api.json api.unicode r)) [
        | inl good ↦ rw (mail_action, e, good) (λ h. (then_one e good nothing, refl))
        | inr bad ↦ rw (mail_action, e, bad) (λ h. absurd (cc h))
      ]

  then_do-Effect :
      (xs ys : List Request) (f g : List ℕ → List ℕ) (m : Mailbox W) (r : Status × Mailbox W)
      (next : Mailbox W → Status × Mailbox W)
      → (r.0 ≡ ok → Effect xs f m r)
      → ((n : Mailbox W) → (next n).0 ≡ ok → Effect ys g n (next n))
      → (then_do api cfg spec r next).0 ≡ ok
      → Effect (xs ++ ys) (λ p. g (f p)) m (then_do api cfg spec r next)
  unfolding Effect
  then_do-Effect xs ys f g m r next first second h =
      let (done, e) = then_do-ok api cfg spec r next h in
      let (made, pend) = first done in
      let (more, pend') = second r.1 (sym (ap (λ (q : Status × Mailbox W). q.0) e) ∙ h) in
      subst
        (λ (q : Status × Mailbox W).
          Performed api (xs ++ ys) m.user.world q.1.user.world
          × (q.1.pending_deleted ≡ g (f m.pending_deleted)))
        (sym e) (Performed-append xs ys made more, pend' ∙ ap g pend)

  apply_flag-Effect :
      (id : ℤ) (op : FlagsOp) (f : Flag) (m : Mailbox W)
      → (apply_flag api cfg spec id op f m).0 ≡ ok
      → Effect
          (flag_requests api cfg spec op f id)
          (flag_pending op f id)
          m
          (apply_flag api cfg spec id op f m)
  unfolding apply_flag flag_requests flag_pending Effect
  apply_flag-Effect id op seen m = elim (Bool-cases (is_remove op)) [
    | inl e ↦ rw (apply_flag, e) (λ h. (nothing, refl))
    | inr e ↦ rw (apply_flag, e) (mail_action-Effect id (codes "read") none m)
  ]
  apply_flag-Effect id op deleted m = elim (Bool-cases (is_remove op)) [
    | inl e ↦ rw (apply_flag, e) (λ h. (nothing, refl))
    | inr e ↦
        rw (apply_flag, e)
          (then_do-Effect _ [] (λ p. p) (add_id (uint32 id)) m _ _
            (mail_action-Effect id (codes "delete") none m) (λ n h. (nothing, refl)))
  ]
  apply_flag-Effect id op flagged m = elim (Bool-cases (is_remove op)) [
    | inl e ↦ rw (apply_flag, e) (λ h. (nothing, refl))
    | inr e ↦ rw (apply_flag, e) (mail_action-Effect id (codes "important") none m)
  ]
  apply_flag-Effect id op draft m = λ h. (nothing, refl)
  apply_flag-Effect id op answered_flag m = λ h. (nothing, refl)
  apply_flag-Effect id op (other f) m = λ h. (nothing, refl)

  pub apply_flag_op-Effect :
      (id : ℤ) (op : FlagsOp) (fs : List Flag) (m : Mailbox W)
      → (apply_flag_op api cfg spec id op fs m).0 ≡ ok
      → Effect
          (flags_requests api cfg spec op fs id)
          (flags_pending op fs id)
          m
          (apply_flag_op api cfg spec id op fs m)
  unfolding apply_flag_op flags_requests flags_pending Effect
  apply_flag_op-Effect id op [] m h = (nothing, refl)
  apply_flag_op-Effect id op (f ∷ fs) m h =
      then_do-Effect (flag_requests api cfg spec op f id) (flags_requests api cfg spec op fs id)
        (flag_pending op f id) (flags_pending op fs id) m (apply_flag api cfg spec id op f m)
        (apply_flag_op api cfg spec id op fs) (apply_flag-Effect id op f m)
        (apply_flag_op-Effect id op fs) h

  pub act_on-Effect :
      (o : Option (Bytes × Option Bytes)) (id : ℤ) (m : Mailbox W)
      → (act_on api cfg spec o id m).0 ≡ ok
      → Effect (act_requests api cfg spec o id) (λ p. p) m (act_on api cfg spec o id m)
  unfolding act_on act_requests
  act_on-Effect none id m h = absurd (cc h)
  act_on-Effect (some (action, value)) id m h = mail_action-Effect id action value m h

  each-Effect :
      (act : ℤ → Mailbox W → Status × Mailbox W) (reqs : ℤ → List Request)
      (pend : ℤ → List ℕ → List ℕ)
      → ((id : ℤ) (n : Mailbox W) → (act id n).0 ≡ ok → Effect (reqs id) (pend id) n (act id n))
      → (ids : List ℤ) (m : Mailbox W) → (each api cfg spec act ids m).0 ≡ ok
      → Effect (each_requests reqs ids) (each_pending pend ids) m (each api cfg spec act ids m)
  unfolding each each_requests each_pending Effect
  each-Effect act reqs pend does [] m h = (nothing, refl)
  each-Effect act reqs pend does (id ∷ ids) m h =
      then_do-Effect (reqs id) (each_requests reqs ids) (pend id) (each_pending pend ids) m
        (act id m) (each api cfg spec act ids) (does id m) (each-Effect act reqs pend does ids) h

  pub over-Carried :
      (uid : Bool) (set : Option SeqSet) (act : ℤ → Mailbox W → Status × Mailbox W)
      (reqs : ℤ → List Request) (pend : ℤ → List ℕ → List ℕ) (m : Mailbox W)
      → ((id : ℤ) (n : Mailbox W) → (act id n).0 ≡ ok → Effect (reqs id) (pend id) n (act id n))
      → (over api cfg spec uid set act m).0 ≡ ok
      → Carried api cfg spec uid set reqs pend m (over api cfg spec uid set act m).1
  unfolding over Effect
  over-Carried uid set act reqs pend m does = go (load_summaries api cfg spec m.user).0 refl
    where
      go :
          (l : Bytes ⊎ List MailSummary)
          → (load_summaries api cfg spec m.user).0 ≡ l
          → (over api cfg spec uid set act m).0 ≡ ok
          → Carried api cfg spec uid set reqs pend m (over api cfg spec uid set act m).1
      go (inl e) q = rw (over, q) (λ h. absurd (cc h))
      go (inr sums) q =
          rw (over, q)
            (λ h.
              let (made, pend') =
                each-Effect act reqs pend does (selected api cfg spec uid set sums)
                  (record m { user = (load_summaries api cfg spec m.user).1 }) h in
              record { sums = sums; loaded = q; performed = made; pending = pend' })
