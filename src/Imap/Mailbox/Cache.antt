-- ===== src/Imap/Mailbox/Cache.antt =====
-- What `loadSummaries` of internal/imapbackend/mailbox.go keeps.
use xyecoc_mailbridge.Base.{
  true, false, none, some, List, [], Bytes, eqb_refl, ◌≡◌, refl, ◌∙◌, arith, ◌⊎◌, inl, inr,
  lookup-put, lookup, ℕ, Bool, if◌then◌else◌, ltb, ◌-◌, ◌+◌, ap, sym,
}
use xyecoc_mailbridge.Remote.{MailSummary, Api}
use xyecoc_mailbridge.Imap.Names.{MailboxSpec, spec_cache_key}
use xyecoc_mailbridge.Imap.User.{Settings, User}
use xyecoc_mailbridge.Imap.Mailbox.{pages, cached, store, load_summaries, summary_cache_ttl}

module _ {W : Type 0} (api : Api W) (cfg : Settings) where
  -- A load that the cache does not answer keeps its list, with the time at its end.
  store-kept :
      (spec : MailboxSpec) (r : (Bytes ⊎ List MailSummary) × User W) (sums : List MailSummary)
      → (store api cfg spec r).0 ≡ inr sums
      → lookup (spec_cache_key spec) (store api cfg spec r).1.list_cache
        ≡ some (record { at = api.now (store api cfg spec r).1.world; summaries = sums })
  unfolding store
  store-kept spec (inl e, u) sums h = absurd (cc h)
  store-kept spec (inr all, u) sums h =
      lookup-put (spec_cache_key spec) (spec_cache_key spec)
        (record { at = api.now u.world; summaries = all }) u.list_cache
      ∙ rw (eqb_refl (spec_cache_key spec)) (ground (arith, h))

  in_time :
      (now at : ℕ) (sums : List MailSummary)
      → (if ltb (now - at) summary_cache_ttl then some sums else none)
        ≡ (if ltb now (at + 45000000000) then some sums else none)
  in_time now at sums = ground arith

  cached-lifetime :
      (spec : MailboxSpec) (u : User W) (at : ℕ) (sums : List MailSummary)
      → lookup (spec_cache_key spec) u.list_cache ≡ some (record { at = at; summaries = sums })
      → cached api cfg spec u
        ≡ (if ltb (api.now u.world) (at + 45000000000) then some sums else none)
  unfolding cached
  cached-lifetime spec u at sums e = rw (cached, e) (in_time (api.now u.world) at sums)

  served :
      (spec : MailboxSpec) (u : User W) (sums : List MailSummary) (fresh : Bool)
      → cached api cfg spec u ≡ (if fresh then some sums else none)
      → load_summaries api cfg spec u
        ≡ (if fresh then (inr sums, u) else store api cfg spec (pages api cfg 500 spec 1 [] u))
  unfolding load_summaries
  served spec u sums true e = rw (load_summaries, e) refl
  served spec u sums false e = rw (load_summaries, e) refl

  -- Once a list was loaded from the API, and as long as the cache keeps the same entry for the
  -- mailbox: a load within 45 seconds of it gives the list again, without a call of the API and
  -- without a change of the state, and from 45 seconds on a load asks the API again.
  pub load_summaries-lifetime :
      (spec : MailboxSpec) (u v : User W) (sums : List MailSummary)
      → cached api cfg spec u ≡ none
      → (load_summaries api cfg spec u).0 ≡ inr sums
      → lookup (spec_cache_key spec) v.list_cache
        ≡ lookup (spec_cache_key spec) (load_summaries api cfg spec u).1.list_cache
      → load_summaries api cfg spec v ≡ (
          if ltb (api.now v.world) (api.now (load_summaries api cfg spec u).1.world + 45000000000)
          then (inr sums, v)
          else store api cfg spec (pages api cfg 500 spec 1 [] v))
  load_summaries-lifetime spec u v sums e h kept =
      let loaded : load_summaries api cfg spec u
          ≡ store api cfg spec (pages api cfg 500 spec 1 [] u) =
        unfold load_summaries in rw (load_summaries, e) refl in
      served spec v sums _ (
        cached-lifetime spec v _ sums (
          kept
          ∙ ap
              (λ (r : (Bytes ⊎ List MailSummary) × User W).
                lookup (spec_cache_key spec) r.1.list_cache)
              loaded
          ∙ store-kept spec (pages api cfg 500 spec 1 [] u) sums
              (sym (ap (λ (r : (Bytes ⊎ List MailSummary) × User W). r.0) loaded) ∙ h)
          ∙ ap
              (λ (r : (Bytes ⊎ List MailSummary) × User W).
                some (record { at = api.now r.1.world; summaries = sums }))
              (sym loaded)))
