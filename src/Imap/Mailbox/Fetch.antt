-- ===== src/Imap/Mailbox/Fetch.antt =====
-- internal/imapbackend/msg.go, and `needsFullRFC822` of mailbox.go. go-imap's backendutil, which
-- makes the bodies of answers, is a parameter.
use xyecoc_mailbridge.Base.{
  ℕ, Bool, true, false, ◌||◌, Option, none, some, List, [], ◌∷◌, ◌++◌, Bytes, if◌then◌else◌,
}
use xyecoc_mailbridge.Imap.Mailbox.{Flag}

-- The items of FETCH that the code names; `other` is any further one.
pub data FetchItem : Type 0 where
  envelope body body_structure fetch_flags internal_date rfc822 rfc822_header rfc822_text
        rfc822_size fetch_uid :
      FetchItem
  other : Bytes → FetchItem

-- `msgLiteral`.
pub record Literal : Type 0 where
  pub uid : ℕ
  pub flags : List Flag
  pub date : ℕ
  pub size : ℕ
  pub text : Bytes

-- What `Fetch` sets for an item.
pub data Fetched : Type 0 where
  envelope_is body_structure_is : Bytes → Fetched
  flags_are : List Flag → Fetched
  date_is size_is uid_is : ℕ → Fetched
  section_is : Bytes → Bytes → Fetched

-- `imap.Message`: the sequence number with what was set, in order.
pub record Message : Type 0 where
  pub seq_num : ℕ
  pub fetched : List Fetched

-- The library on texts of letters: `FetchEnvelope`, `FetchBodyStructure`, `ParseBodySectionName`,
-- whether `ReadHeader` succeeds, and `FetchBodySection`.
pub record Backendutil : Type 0 where
  pub envelope_of : Bytes → Bytes
  pub structure_of : Bool → Bytes → Bytes
  pub section_name : FetchItem → Option Bytes
  pub has_header : Bytes → Bool
  pub section_of : Bytes → Bytes → Bytes

-- `Fetch` for one item; `none` for an error.
unfoldable pub fetch_section : Backendutil → Bytes → Option Bytes → Option (List Fetched)
fetch_section lib text none = some []
fetch_section lib text (some name) =
    if lib.has_header text then some (section_is name (lib.section_of text name) ∷ []) else none

unfoldable pub fetch_item : Backendutil → Literal → FetchItem → Option (List Fetched)
unfolding fetch_section
fetch_item lib m envelope = some (envelope_is (lib.envelope_of m.text) ∷ [])
fetch_item lib m body = some (body_structure_is (lib.structure_of false m.text) ∷ [])
fetch_item lib m body_structure = some (body_structure_is (lib.structure_of true m.text) ∷ [])
fetch_item lib m fetch_flags = some (flags_are m.flags ∷ [])
fetch_item lib m internal_date = some (date_is m.date ∷ [])
fetch_item lib m rfc822_size = some (size_is m.size ∷ [])
fetch_item lib m fetch_uid = some (uid_is m.uid ∷ [])
fetch_item lib m rfc822 = fetch_section lib m.text (lib.section_name rfc822)
fetch_item lib m rfc822_header = fetch_section lib m.text (lib.section_name rfc822_header)
fetch_item lib m rfc822_text = fetch_section lib m.text (lib.section_name rfc822_text)
fetch_item lib m (other s) = fetch_section lib m.text (lib.section_name (other s))

unfoldable pub fetch_items : Backendutil → Literal → List FetchItem → Option (List Fetched)
unfolding fetch_item
fetch_items lib m [] = some []
fetch_items lib m (i ∷ is) =
    let rest = fetch_items lib m is in
    elim (fetch_item lib m i) [
      | none ↦ none
      | some f ↦ elim rest [ none ↦ none | some g ↦ some (f ++ g) ]
    ]

-- `msgLiteral.Fetch`.
unfoldable pub fetch : Backendutil → Literal → ℕ → List FetchItem → Option Message
unfolding fetch_items
fetch lib m seq_num items = elim (fetch_items lib m items) [
  | none ↦ none
  | some f ↦ some (record { seq_num = seq_num; fetched = f })
]

-- `needsFullRFC822`.
unfoldable pub needs_full_item : Backendutil → FetchItem → Bool
needs_full_item lib i =
    let section : Bool = elim (lib.section_name i) [ none ↦ false | some name ↦ true ] in
    elim i [
      | rfc822 ↦ true
      | rfc822_header ↦ true
      | rfc822_text ↦ true
      | body ↦ true
      | body_structure ↦ true
      | envelope ↦ section
      | fetch_flags ↦ section
      | internal_date ↦ section
      | rfc822_size ↦ section
      | fetch_uid ↦ section
      | other s ↦ section
    ]

unfoldable pub needs_full_rfc822 : Backendutil → List FetchItem → Bool
unfolding needs_full_item
needs_full_rfc822 lib [] = false
needs_full_rfc822 lib (i ∷ is) = needs_full_item lib i || needs_full_rfc822 lib is
