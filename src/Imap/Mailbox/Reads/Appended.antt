-- ===== src/Imap/Mailbox/Reads/Appended.antt =====
-- What a successful APPEND of internal/imapbackend/mailbox.go means.
use xyecoc_mailbridge.Base.{
  true, none, some, List, Bytes, ◌≡◌, refl, Bool-cases, inl, inr, lookup, lookup-erase, eqb_refl,
}
use xyecoc_mailbridge.Remote.{Response, Answer, answered, unreachable, mail_mutation_ok, Api}
use xyecoc_mailbridge.Imap.Names.{MailboxSpec, spec_cache_key}
use xyecoc_mailbridge.Imap.User.{Settings, User, call, invalidate_spec}
use xyecoc_mailbridge.Imap.User.Change.{ok}
use xyecoc_mailbridge.Imap.Mailbox.{Flag}
use xyecoc_mailbridge.Imap.Mailbox.Reads.{has_draft, draft_request, finish_append, create_message}

module _ {W : Type 0} (api : Api W) (cfg : Settings) (spec : MailboxSpec) where
  -- The message has the flag \Draft, the API answered the request for it with a success, and the
  -- list of the mailbox is not cached.
  unfoldable pub Drafted : List Flag → Bytes → User W → User W → Type 0
  Drafted flags raw u v =
      (has_draft flags ≡ true)
      × ((r : Response) × ((api.perform (draft_request api cfg spec raw) u.world).0 ≡ answered r)
          × (mail_mutation_ok api.json api.unicode r ≡ true))
      × (lookup (spec_cache_key spec) v.list_cache ≡ none)

  finish_append-ok :
      (a : Answer) (u : User W)
      → (finish_append api cfg spec (a, u)).0 ≡ ok
      → ((r : Response) × (a ≡ answered r) × (mail_mutation_ok api.json api.unicode r ≡ true))
        × (lookup (spec_cache_key spec) (finish_append api cfg spec (a, u)).1.list_cache ≡ none)
  unfolding finish_append invalidate_spec
  finish_append-ok (unreachable e) u = λ h. absurd (cc h)
  finish_append-ok (answered r) u = elim (Bool-cases (mail_mutation_ok api.json api.unicode r)) [
    | inl good ↦
        rw (finish_append, good)
          (λ h. (
            (r, refl, good),
            rw
                (
                  lookup-erase (spec_cache_key spec) (spec_cache_key spec) u.list_cache,
                  eqb_refl (spec_cache_key spec),
                )
                refl,
          ))
    | inr bad ↦ rw (finish_append, bad) (λ h. absurd (cc h))
  ]

  -- When APPEND reports success, the message was marked as a draft, the API took it, and the list
  -- of the mailbox is not cached.
  pub create_message-Drafted :
      (flags : List Flag) (raw : Bytes) (u : User W)
      → (create_message api cfg spec flags (some raw) u).0 ≡ ok
      → Drafted flags raw u (create_message api cfg spec flags (some raw) u).1
  unfolding create_message Drafted call
  create_message-Drafted flags raw u = elim (Bool-cases (has_draft flags)) [
    | inl e ↦
        rw (create_message, e)
          (λ h.
            let (sent, gone) =
              finish_append-ok (api.perform (draft_request api cfg spec raw) u.world).0 _ h in
            (refl, sent, gone))
    | inr e ↦ rw (create_message, e) (λ h. absurd (cc h))
  ]
