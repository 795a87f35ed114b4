-- ===== src/Imap/Mailbox/Actions/Requests.antt =====
-- The requests that STORE, COPY and MOVE of internal/imapbackend/mailbox.go are to make, stated
-- without their code.
use xyecoc_mailbridge.Base.{
  Bool, Option, none, some, List, [], ◌∷◌, ◌++◌, ℕ, Bytes, codes, ◌≡◌, inr, if◌then◌else◌, true,
}
use xyecoc_mailbridge.Text.{ℤ}
use xyecoc_mailbridge.Remote.{MailSummary, Request, Response, answered, mail_mutation_ok, Api}
use xyecoc_mailbridge.Imap.Names.{MailboxSpec}
use xyecoc_mailbridge.Imap.User.{Settings}
use xyecoc_mailbridge.Imap.Mailbox.{
  SeqSet, Flag, seen, deleted, flagged, draft, answered_flag, other, remove_id, uint32,
  load_summaries,
}
use xyecoc_mailbridge.Imap.Mailbox.Actions.{
  FlagsOp, Mailbox, action_request, is_remove, add_id, selected,
}

-- The API carried out the requests: it was called with them one after the other, and with nothing
-- else, between the two worlds, and answered each one with a success.
pub data Performed {W : Type 0} (api : Api W) : List Request → W → W → Type 0 where
  nothing : {w : W} → Performed api [] w w
  then_one :
      {req : Request} {reqs : List Request} {r : Response} {w w' : W}
      → (api.perform req w).0 ≡ answered r
      → mail_mutation_ok api.json api.unicode r ≡ true
      → Performed api reqs (api.perform req w).1 w'
      → Performed api (req ∷ reqs) w w'

-- The requests for a list of messages, one message after the other.
unfoldable pub each_requests : (ℤ → List Request) → List ℤ → List Request
each_requests reqs [] = []
each_requests reqs (id ∷ ids) = reqs id ++ each_requests reqs ids

-- The IDs that are pending behind a list of messages.
unfoldable pub each_pending : (ℤ → List ℕ → List ℕ) → List ℤ → List ℕ → List ℕ
each_pending pend [] p = p
each_pending pend (id ∷ ids) p = each_pending pend ids (pend id p)

-- The IDs that are pending behind one flag of a message, and behind all of them.
unfoldable pub flag_pending : FlagsOp → Flag → ℤ → List ℕ → List ℕ
flag_pending op seen id p = p
flag_pending op deleted id p =
    if is_remove op then remove_id (uint32 id) p else add_id (uint32 id) p
flag_pending op flagged id p = p
flag_pending op draft id p = p
flag_pending op answered_flag id p = p
flag_pending op (other f) id p = p

unfoldable pub flags_pending : FlagsOp → List Flag → ℤ → List ℕ → List ℕ
unfolding flag_pending
flags_pending op [] id p = p
flags_pending op (f ∷ fs) id p = flags_pending op fs id (flag_pending op f id p)

module _ {W : Type 0} (api : Api W) (cfg : Settings) (spec : MailboxSpec) where
  -- The requests of one message in COPY and MOVE.
  unfoldable pub act_requests : Option (Bytes × Option Bytes) → ℤ → List Request
  act_requests none id = []
  act_requests (some (action, value)) id = action_request api cfg spec id action value ∷ []

  -- The requests of one message in STORE; a flag that is removed needs none.
  unfoldable pub flag_requests : FlagsOp → Flag → ℤ → List Request
  flag_requests op seen id =
      if is_remove op then [] else action_request api cfg spec id (codes "read") none ∷ []
  flag_requests op deleted id =
      if is_remove op then [] else action_request api cfg spec id (codes "delete") none ∷ []
  flag_requests op flagged id =
      if is_remove op then [] else action_request api cfg spec id (codes "important") none ∷ []
  flag_requests op draft id = []
  flag_requests op answered_flag id = []
  flag_requests op (other f) id = []

  unfoldable pub flags_requests : FlagsOp → List Flag → ℤ → List Request
  unfolding flag_requests
  flags_requests op [] id = []
  flags_requests op (f ∷ fs) id = flag_requests op f id ++ flags_requests op fs id

  -- The messages were loaded. From then on the API carried out the requests for each message that
  -- the set addresses, in the order of the IDs, and was asked for nothing else; the IDs that were
  -- pending changed as told.
  pub record Carried (uid : Bool) (set : Option SeqSet) (reqs : ℤ → List Request)
      (pend : ℤ → List ℕ → List ℕ) (m n : Mailbox W) : Type 0 where
    pub sums : List MailSummary
    pub loaded : (load_summaries api cfg spec m.user).0 ≡ inr sums
    pub performed :
        Performed api
          (each_requests reqs (selected api cfg spec uid set sums))
          (load_summaries api cfg spec m.user).1.world
          n.user.world
    pub pending :
        n.pending_deleted ≡ each_pending pend (selected api cfg spec uid set sums) m.pending_deleted
