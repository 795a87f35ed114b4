-- ===== src/Imap/Mailbox.antt =====
-- internal/imapbackend/mailbox.go: numbers and flags of the messages, and the list of a mailbox
-- with its cache.
pub mod Fetch
pub mod Literals
pub mod Reads
pub mod Actions
pub mod Cache
pub mod Numbers
use xyecoc_mailbridge.Base.{
  ℕ, zero, suc, ◌+◌, ◌-◌, ◌*◌, ◌%◌, ◌^◌, Bool, true, false, not, ◌&&◌, ◌||◌, Option, none, some,
  List, [], ◌∷◌, ◌++◌, Bytes, codes, eqb, length, ltb, leb, ◌==◌, if◌then◌else◌, lookup, put, ◌⊎◌,
  inl, inr,
}
use xyecoc_mailbridge.Text.{ℤ, pos, negsuc}
use xyecoc_mailbridge.Remote.{
  MailSummary, Response, Request, request, Answer, answered, unreachable, no_mails,
  mail_list_response_ok, merge_mail_list_fields, response_err_msg, Api,
}
use xyecoc_mailbridge.Imap.Names.{MailboxSpec, spec_cache_key, params_from_spec}
use xyecoc_mailbridge.Imap.User.{Settings, SummaryCache, User, call}

-- `uint32(n)`.
unfoldable pub uint32 : ℤ → ℕ
uint32 (pos n) = n % 2 ^ 32
uint32 (negsuc n) = 2 ^ 32 - 1 - n % 2 ^ 32

-- The loop of `nextUID` and of `mailboxMaxSeqAndUID`.
unfoldable pub max_uid : List MailSummary → ℕ → ℕ
unfolding uint32
max_uid [] max = max
max_uid (s ∷ ss) max = let u = uint32 s.id in max_uid ss (if ltb max u then u else max)

-- `nextUID`.
unfoldable pub next_uid : List MailSummary → ℕ
unfolding max_uid
next_uid sums = (max_uid sums 0 + 1) % 2 ^ 32

-- `countUnseen`, from a count.
unfoldable pub count_unseen : List MailSummary → ℕ → ℕ
count_unseen [] n = n
count_unseen (s ∷ ss) n = count_unseen ss (if s.read then n else (n + 1) % 2 ^ 32)

-- `mailboxMaxSeqAndUID`.
unfoldable pub mailbox_max_seq_and_uid : List MailSummary → ℕ × ℕ
unfolding max_uid
mailbox_max_seq_and_uid sums = (length sums % 2 ^ 32, max_uid sums 0)

-- What the code asks of an `imap.SeqSet`.
pub record SeqSet : Type 0 where
  pub empty : Bool
  pub contains : ℕ → Bool
  pub dynamic : Bool

-- `seqSetAddressesMessage`; `none` is a nil set.
unfoldable pub seq_set_addresses_message : Bool → Option SeqSet → ℕ → ℕ → ℕ → Bool
seq_set_addresses_message uid none id max_seq max_uid = false
seq_set_addresses_message uid (some set) id max_seq max_uid =
    let limit = if uid then max_uid else max_seq in
    if set.empty || id == 0
    then false
    else if set.contains id
    then true
    else if set.dynamic
    then not (limit == 0) && id == limit
    else false

unfoldable pub before : ℤ → ℤ → Bool
before (pos m) (pos n) = ltb m n
before (pos m) (negsuc n) = false
before (negsuc m) (pos n) = true
before (negsuc m) (negsuc n) = ltb n m

unfoldable pub insert : MailSummary → List MailSummary → List MailSummary
unfolding before
insert s [] = s ∷ []
insert s (t ∷ ts) = let rest = insert s ts in if before t.id s.id then t ∷ rest else s ∷ t ∷ ts

-- `sort.Slice` by ID.
unfoldable pub sort : List MailSummary → List MailSummary
unfolding insert
sort [] = []
sort (s ∷ ss) = insert s (sort ss)

-- The flags that the code knows.
pub data Flag : Type 0 where
  seen deleted flagged draft answered_flag : Flag
  other : Bytes → Flag

-- `summaryFlags`.
unfoldable pub summary_flags : MailboxSpec → MailSummary → List Flag
unfolding eqb
summary_flags spec s =
    (if s.read then seen ∷ [] else [])
    ++ ((if s.important then flagged ∷ [] else [])
        ++ (if eqb spec.param1 (codes "draft") then draft ∷ [] else []))

unfoldable pub has_id : ℕ → List ℕ → Bool
has_id k [] = false
has_id k (j ∷ rest) = j == k || has_id k rest

unfoldable pub remove_id : ℕ → List ℕ → List ℕ
remove_id k [] = []
remove_id k (j ∷ rest) = let kept = remove_id k rest in if j == k then kept else j ∷ kept

-- `flagsFor`, with the map `pendingDeleted`.
unfoldable pub flags_for : MailboxSpec → List ℕ → ℕ → MailSummary → List Flag
unfolding summary_flags has_id
flags_for spec pending uid s =
    summary_flags spec s ++ (if has_id uid pending then deleted ∷ [] else [])

-- 45 seconds.
abbrev pub summary_cache_ttl : ℕ
summary_cache_ttl = 45000000000

module _ {W : Type 0} (api : Api W) (cfg : Settings) where
  -- The request for a page of a list.
  unfoldable pub list_request : MailboxSpec → ℕ → Request
  list_request spec page = record (request (codes "mail") (codes "default") cfg.default_lang) {
    params = params_from_spec spec;
    page = page;
  }

  -- Has the loop loaded as many messages as it wants?
  unfoldable pub enough : Response → List MailSummary → Bool
  enough r all = no_mails r.mails || leb cfg.max_list (length all) || elim r.total [
    | none ↦ false
    | some (pos n) ↦ ltb 0 n && leb n (length all)
    | some (negsuc n) ↦ false
  ]

  -- What is done behind an answer that is not a success.
  unfoldable pub give_up : ℕ → List MailSummary → Response → Bytes ⊎ List MailSummary
  give_up page all r =
      if ltb 1 page && not (no_mails all)
      then inr all
      else inl (codes "list mail: " ++ response_err_msg api.json r)

  -- The loop of `loadSummaries`; the first argument counts the pages left, 500 at first.
  unfoldable pub pages :
      ℕ → MailboxSpec → ℕ → List MailSummary → User W → (Bytes ⊎ List MailSummary) × User W
  unfolding list_request enough give_up
  pages zero spec page all u = (inr all, u)
  pages (suc left) spec page all u =
      let (a, u') = call api cfg (list_request spec page) u in
      elim a [
        | unreachable e ↦ (inl e, u')
        | answered raw ↦
            let r = merge_mail_list_fields api.json raw in
            let all' = all ++ r.mails in
            let rest = pages left spec (suc page) all' u' in
            if mail_list_response_ok r
            then if enough r all' then (inr all', u') else rest
            else (give_up page all r, u')
      ]

  -- What is cached and not too old.
  unfoldable pub cached : MailboxSpec → User W → Option (List MailSummary)
  cached spec u = elim (lookup (spec_cache_key spec) u.list_cache) [
    | none ↦ none
    | some c ↦ if ltb (api.now u.world - c.at) summary_cache_ttl then some c.summaries else none
  ]

  -- Keeps a list that was loaded.
  unfoldable pub store :
      MailboxSpec → (Bytes ⊎ List MailSummary) × User W → (Bytes ⊎ List MailSummary) × User W
  store spec (inl e, u) = (inl e, u)
  store spec (inr all, u) = (
    inr all,
    record u {
      list_cache =
          put (spec_cache_key spec) (record { at = api.now u.world; summaries = all }) u.list_cache;
    },
  )

  -- `loadSummaries`; the left is an error.
  unfoldable pub load_summaries : MailboxSpec → User W → (Bytes ⊎ List MailSummary) × User W
  unfolding cached pages store
  load_summaries spec u = elim (cached spec u) [
    | some sums ↦ (inr sums, u)
    | none ↦ store spec (pages 500 spec 1 [] u)
  ]
