-- ===== src/Remote/View.antt =====
-- The decoders of internal/remote/types.go and the letters of internal/remote/parse.go.
-- `json.Unmarshal` into each of the types is a parameter, `none` for an error.
use xyecoc_mailbridge.Base.{
  Bool, true, false, not, ◌||◌, Option, none, some, List, [], ◌∷◌, ◌++◌, Bytes, codes, eqb,
  is_empty, if◌then◌else◌, ◌⊎◌, inl, inr,
}
use xyecoc_mailbridge.Text.{ℤ, pos, atoi, trim_space}
use xyecoc_mailbridge.Remote.{Attachment, MailDetail, Response, is_one, is_zero}

-- The numbers are those of `int` and, cut off, of `float64`; `field` is a raw member of an object,
-- empty where it is missing; `wrapped` has `mail`, `attachments` and `attaches`.
pub record Decoder : Type 0 where
  pub int : Bytes → Option ℤ
  pub float : Bytes → Option ℤ
  pub string : Bytes → Option Bytes
  pub bool : Bytes → Option Bool
  pub field : Bytes → Bytes → Option Bytes
  pub status : Bytes → Option ℤ
  pub message : Bytes → Bytes
  pub detail : Bytes → Option MailDetail
  pub wrapped : Bytes → Option (MailDetail × (List Attachment × List Attachment))

-- `v, _ := strconv.Atoi(s)` for a number that fits.
unfoldable pub or_zero : Option ℤ → ℤ
or_zero none = pos 0
or_zero (some n) = n

abbrev null : Bytes
null = codes "null"

unfoldable pub no_attachments : List Attachment → Bool
no_attachments [] = true
no_attachments (a ∷ more) = false

module _ (j : Decoder) where
  -- `APIStatus.UnmarshalJSON`, which reports no error.
  unfoldable pub api_status : Bytes → ℤ
  unfolding or_zero eqb atoi trim_space
  api_status raw =
      let b = trim_space raw in
      if is_empty b || eqb b null then pos 0 else elim (j.int b) [
        | some n ↦ n
        | none ↦ elim (j.float b) [
          | some n ↦ n
          | none ↦ elim (j.string b) [
            | some s ↦ or_zero (atoi (trim_space s))
            | none ↦ elim (j.bool b) [ some true ↦ pos 1 | some false ↦ pos 0 | none ↦ pos 0 ]
          ]
        ]
      ]

  unfoldable pub count_of : ℤ → Bytes → ℤ
  unfolding or_zero atoi trim_space
  count_of old raw = if is_empty raw then old else elim (j.float raw) [
    | some n ↦ n
    | none ↦ elim (j.string raw) [ some s ↦ or_zero (atoi (trim_space s)) | none ↦ old ]
  ]

  -- `TotalCount.UnmarshalJSON` of a count that was `old`; `none` for an error.
  unfoldable pub total_count : ℤ → Bytes → Option ℤ
  unfolding count_of eqb
  total_count old b =
      if is_empty b || eqb b null
      then some old
      else elim (j.field (codes "count") b) [ none ↦ none | some raw ↦ some (count_of old raw) ]

  -- `ParseMailDetail`; the left is an error.
  unfoldable pub parse_mail_detail : Response → Bytes ⊎ MailDetail
  unfolding is_one
  parse_mail_detail r =
      let detail =
        if is_empty r.raw_data
        then inl (codes "empty view data")
        else elim (j.detail r.raw_data) [ none ↦ inl (codes "decode") | some d ↦ inr d ] in
      if is_one r.status then detail else inl (codes "view failed: " ++ r.message)

  -- The letter in `data.mail`, with the attachments beside it where it has none.
  unfoldable pub mail_in :
      Option (MailDetail × (List Attachment × List Attachment)) → Option MailDetail
  unfolding is_zero no_attachments
  mail_in none = none
  mail_in (some (m, (attachments, attaches))) =
      if is_zero m.id
      then none
      else if no_attachments m.attachments
      then some (record m { attachments = attachments ++ attaches })
      else some m

  -- The letter in `data`, where something in it is set.
  unfoldable pub detail_in : Option MailDetail → Option MailDetail
  unfolding is_zero
  detail_in none = none
  detail_in (some d) =
      if not (is_zero d.id)
        || (not (is_empty d.message) || (not (is_empty d.subject) || not (is_empty d.from_email)))
      then some d
      else none

  unfoldable pub in_data : Bytes → Option MailDetail
  unfolding mail_in detail_in eqb
  in_data raw =
      if is_empty raw || eqb raw null
      then none
      else elim (mail_in (j.wrapped raw)) [ some m ↦ some m | none ↦ detail_in (j.detail raw) ]

  -- The letter at the root.
  unfoldable pub at_root : Option MailDetail → Bytes ⊎ MailDetail
  unfolding is_zero
  at_root none = inl (codes "decode")
  at_root (some d) = if is_zero d.id then inl (codes "could not parse mail/view payload") else inr d

  unfoldable pub letter_in : Bytes → Option Bytes → Bytes ⊎ MailDetail
  unfolding in_data at_root
  letter_in b none = inl (codes "decode")
  letter_in b (some raw) = elim (in_data raw) [ some d ↦ inr d | none ↦ at_root (j.detail b) ]

  -- `ParseMailDetailFromViewBody`.
  unfoldable pub parse_mail_detail_from_view_body : Bytes → Bytes ⊎ MailDetail
  unfolding letter_in is_one trim_space
  parse_mail_detail_from_view_body raw =
      let b = trim_space raw in
      let letter = letter_in b (j.field (codes "data") b) in
      if is_empty b then inl (codes "empty view body") else elim (j.status b) [
        | none ↦ inl (codes "decode")
        | some n ↦ if is_one n then letter else inl (codes "view failed: " ++ j.message b)
      ]
