-- ===== src/Imap/Mailbox/Reads/Listed.antt =====
-- Which messages FETCH of internal/imapbackend/mailbox.go answers.
use xyecoc_mailbridge.Base.{
  ℕ, suc, ◌%◌, ◌^◌, Bool, Option, none, some, List, [], ◌∷◌, Bytes, map, ◌≡◌, if◌then◌else◌, false,
  ◌⊎◌,
}
use xyecoc_mailbridge.Remote.{MailSummary, Api}
use xyecoc_mailbridge.Remote.Client.{Client}
use xyecoc_mailbridge.Imap.Names.{MailboxSpec}
use xyecoc_mailbridge.Imap.User.{Settings, User}
use xyecoc_mailbridge.Imap.Mailbox.{SeqSet}
use xyecoc_mailbridge.Imap.Mailbox.Fetch.{FetchItem, Backendutil, Message}
use xyecoc_mailbridge.Imap.Mailbox.Literals.{Reader}
use xyecoc_mailbridge.Imap.Mailbox.Reads.{is_addressed, literal_for}

-- The numbers of the addressed messages, from number `seq` on.
unfoldable pub numbers : Bool → Option SeqSet → ℕ × ℕ → ℕ → List MailSummary → List ℕ
numbers uid set max seq [] = []
numbers uid set max seq (s ∷ ss) =
    let rest = numbers uid set max (suc seq) ss in
    let n = seq % 2 ^ 32 in if is_addressed uid set max n s then n ∷ rest else rest

-- The first list is the second one with numbers left out.
pub data Sublist : List ℕ → List ℕ → Type 0 where
  finished : Sublist [] []
  keep : {n : ℕ} {ks bs : List ℕ} → Sublist ks bs → Sublist (n ∷ ks) (n ∷ bs)
  leave : {n : ℕ} {ks bs : List ℕ} → Sublist ks bs → Sublist ks (n ∷ bs)

-- One of the items asks for a section of the letter, in which the library finds no header.
pub data NoHeader (util : Backendutil) (t : Bytes) : List FetchItem → Type 0 where
  here :
      {i : FetchItem} {is : List FetchItem} {name : Bytes}
      → util.section_name i ≡ some name
      → util.has_header t ≡ false
      → NoHeader util t (i ∷ is)
  there : {i : FetchItem} {is : List FetchItem} → NoHeader util t is → NoHeader util t (i ∷ is)

module _ (util : Backendutil) where
  Made : {A : Type 0} → Option A → Bytes → List FetchItem → Type 0
  Made {A} o t is = ((a : A) × (o ≡ some a)) ⊎ ((o ≡ none) × NoHeader util t is)

  module _ {W : Type 0} (api : Api W) (cfg : Settings) (spec : MailboxSpec) (lib : Reader W)
      (pending : List ℕ) (c : Client) where
    -- In the letter that was made for a message of the mailbox the library finds no header, while
    -- an item asks for a section of it.
    pub record Unreadable (items : List FetchItem) : Type 0 where
      pub summary : MailSummary
      pub world : W
      pub no_header :
          NoHeader util
            (literal_for api cfg spec lib util pending c items summary world).0.text
            items

    seq_nums : List Message → List ℕ
    seq_nums ms = map (λ (m : Message). m.seq_num) ms

    -- The numbers sent are among the addressed ones, and all of them, or a letter is unreadable.
    Answers : List FetchItem → List ℕ → List ℕ → Type 0
    Answers items ks bs = Sublist ks bs × ((ks ≡ bs) ⊎ Unreadable items)
