-- ===== src/Remote.antt =====
-- internal/remote/types.go and the list fields of internal/remote/parse.go: the answers of the
-- API, and what counts as a success. The JSON decoder is a parameter: `Json` is what the code reads
-- out of the raw `data` of an answer.
pub mod Client
pub mod Urls
pub mod Attached
pub mod View
pub mod Redact
use xyecoc_mailbridge.Base.{
  ℕ, Bool, true, false, ◌||◌, Option, none, some, List, [], ◌∷◌, Bytes, codes, eqb, is_empty,
  if◌then◌else◌, ◌==◌,
}
use xyecoc_mailbridge.Text.{ℤ, pos, negsuc, Unicode, to_lower, trim_space}

-- The fields of `MailSummary` that the IMAP backend computes with.
pub record MailSummary : Type 0 where
  pub id : ℤ
  pub from_name : Bytes
  pub sender : Bytes
  pub snippet : Bytes
  pub subject : Bytes
  pub read : Bool
  pub important : Bool
  pub from_email : Bytes
  pub created_at : Bytes

-- The fields of `Attachment` that are read.
pub record Attachment : Type 0 where
  pub id : ℤ
  pub file_name : Bytes
  pub extension : Bytes
  pub created_at : Bytes
  pub content : Bytes
  pub url : Bytes

pub record MailDetail : Type 0 where
  pub id : ℤ
  pub subject : Bytes
  pub from_name : Bytes
  pub from_email : Bytes
  pub to : Bytes
  pub created_at : Bytes
  pub message : Bytes
  pub attachments : List Attachment
  pub attaches : List Attachment

pub record Folder : Type 0 where
  pub id : ℤ
  pub name : Bytes
  pub from : Bytes
  pub contains : Bytes

pub record Tag : Type 0 where
  pub id : ℤ
  pub name : Bytes

pub record Response : Type 0 where
  pub status : ℤ
  pub message : Bytes
  pub mails : List MailSummary
  pub total : Option ℤ
  pub folders : List Folder
  pub tags : List Tag
  pub raw_data : Bytes

-- What `json.Unmarshal` reads from the field `data`: `none` for an error.
pub record Json : Type 0 where
  pub nested_status : Bytes → Option ℤ
  pub nested_message : Bytes → Option Bytes
  pub nested_token : Bytes → Option Bytes
  pub text_token : Bytes → Option Bytes
  pub nested_mails : Bytes → Option (List MailSummary × Option ℤ)

unfoldable pub is_one : ℤ → Bool
is_one (pos n) = n == 1
is_one (negsuc n) = false

unfoldable pub is_zero : ℤ → Bool
is_zero (pos n) = n == 0
is_zero (negsuc n) = false

-- `EffectiveFrom` and `EffectiveSubject`: the first text that is not blank.
unfoldable pub first_text : Bytes → Bytes → Bytes
first_text a b = let t = trim_space a in if is_empty t then trim_space b else t

unfoldable pub effective_from : MailSummary → Bytes
unfolding first_text
effective_from m = first_text m.from_name m.sender

unfoldable pub effective_subject : MailSummary → Bytes
unfolding first_text
effective_subject m = first_text m.subject m.snippet

unfoldable pub no_mails : List MailSummary → Bool
no_mails [] = true
no_mails (m ∷ ms) = false

-- `MailListResponseOK`.
unfoldable pub mail_list_response_ok : Response → Bool
unfolding is_one is_zero no_mails
mail_list_response_ok r =
    is_one r.status
    || (if no_mails r.mails then elim r.total [ none ↦ false | some n ↦ is_zero n ] else true)

module _ (json : Json) where
  -- `ResponseErrMsg`.
  unfoldable pub response_err_msg : Response → Bytes
  response_err_msg r =
      let s = trim_space r.message in
      if is_empty s
      then if is_empty r.raw_data
        then []
        else elim (json.nested_message r.raw_data) [ none ↦ [] | some m ↦ trim_space m ]
      else s

  unfoldable pub not_empty : Option Bytes → Option Bytes
  not_empty none = none
  not_empty (some t) = if is_empty t then none else some t

  -- `ExtractToken`; `none` is any of its errors.
  unfoldable pub extract_token : Response → Option Bytes
  unfolding not_empty
  extract_token r =
      if is_empty r.raw_data then none else elim (not_empty (json.nested_token r.raw_data)) [
        | some t ↦ some t
        | none ↦ not_empty (json.text_token r.raw_data)
      ]

  -- `MailMutationOK`, for an answer that is there.
  unfoldable pub mail_mutation_ok : Unicode → Response → Bool
  unfolding is_one eqb
  mail_mutation_ok u r =
      let m = to_lower u (trim_space r.message) in
      is_one r.status
      || (eqb m (codes "success") || eqb m (codes "ok"))
      || (if is_empty r.raw_data
          then false
          else elim (json.nested_status r.raw_data) [ none ↦ false | some n ↦ is_one n ])

  unfoldable pub merged : Option (List MailSummary × Option ℤ) → Response → Response
  unfolding no_mails
  merged none r = r
  merged (some (ms, none)) r = if no_mails ms then r else record r { mails = ms }
  merged (some (ms, some n)) r =
      if no_mails ms then record r { total = some n } else record r { mails = ms; total = some n }

  -- `MergeMailListFields`.
  unfoldable pub merge_mail_list_fields : Response → Response
  unfolding merged no_mails
  merge_mail_list_fields r =
      if no_mails r.mails
      then if is_empty r.raw_data then r else merged (json.nested_mails r.raw_data) r
      else r

-- The values in the field `data` of a request.
pub data Value : Type 0 where
  text : Bytes → Value
  number : ℤ → Value
  -- File names with contents in base64.
  files : List (Bytes × Bytes) → Value

-- `Request`, without the token, which every call takes from the client. `draft` is set for a draft.
pub record Request : Type 0 where
  pub service : Bytes
  pub action : Bytes
  pub current_lang : Bytes
  pub params : List (Bytes × Bytes)
  pub page : ℕ
  pub page_id : Bytes
  pub draft : Bool
  pub fields : List (Bytes × Value)

-- A request with the fields that every call sets.
abbrev pub request : Bytes → Bytes → Bytes → Request
request service action lang = record {
  service = service;
  action = action;
  current_lang = lang;
  params = [];
  page = 0;
  page_id = [];
  draft = false;
  fields = [];
}

-- What a call of `Client.Do` gives: the answer, or the text of the error.
pub data Answer : Type 0 where
  answered : Response → Answer
  unreachable : Bytes → Answer

-- The client, on a state `W` of the world: `Do`, and the clock in nanoseconds. `range_order` is
-- the order in which a `range` over a map takes its entries.
pub record Api (W : Type 0) : Type 1 where
  pub perform : Request → W → Answer × W
  pub now : W → ℕ
  pub range_order : W → (A : Type 0) → List A → List A
  pub json : Json
  pub unicode : Unicode
