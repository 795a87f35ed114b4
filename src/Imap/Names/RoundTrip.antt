-- ===== src/Imap/Names/RoundTrip.antt =====
-- `CanonicalName` and `ParseMailboxName` undo one another on the mailboxes that the bridge serves.
use mathlib.Core.List.{reverse, reverse-append, reverse-reverse, map-append}
use xyecoc_mailbridge.Base.{
  ℕ, ◌<◌, ◌^◌, ◌≡◌, ◌≢◌, refl, true, some, [], ◌∷◌, ◌++◌, map, Bytes, codes, arith, ap, ap₂, sym,
  ◌∙◌,
}
use xyecoc_mailbridge.Text.{
  Unicode, to_lower, lower_byte, is_ascii, trim_space, IsTrimmed, trim_space-fixed, space_len,
  space_len_back, decimal, is_digit, AllDigits, decimal-AllDigits, decimal-ne-nil, atoi,
  atoi-decimal, cut_prefix, All-reverse,
}
use xyecoc_mailbridge.Imap.Names.{
  MailboxSpec, spec_of, canonical_name, numbered, parse_lower, parse_numbered, parse_mailbox_name,
}

-- The mailboxes: the six standard ones, and the folders and tags of the API by their numbers.
pub data IsMailbox : MailboxSpec → Type 0 where
  inbox : IsMailbox (spec_of (codes "inbox"))
  sent : IsMailbox (spec_of (codes "sent"))
  draft : IsMailbox (spec_of (codes "draft"))
  trash : IsMailbox (spec_of (codes "trash"))
  spam : IsMailbox (spec_of (codes "spam"))
  important : IsMailbox (spec_of (codes "important"))
  folder :
      (n : ℕ) → n < 2 ^ 63 → IsMailbox (record { param1 = codes "folders"; param2 = decimal n })
  tag : (n : ℕ) → n < 2 ^ 63 → IsMailbox (record { param1 = codes "tags"; param2 = decimal n })

digits-lower : (ds : Bytes) → AllDigits ds → map lower_byte ds ≡ ds
unfolding AllDigits lower_byte is_digit
digits-lower [] h = refl
digits-lower (d ∷ ds) h = ground (arith, digits-lower ds h.1)

digits-ascii : (ds : Bytes) → AllDigits ds → is_ascii ds ≡ true
unfolding AllDigits is_ascii is_digit
digits-ascii [] h = refl
digits-ascii (d ∷ ds) h = ground (arith, digits-ascii ds h.1)

digit-back : (d : ℕ) (rest : Bytes) → is_digit d ≡ true → space_len_back (d ∷ rest) ≡ 0
unfolding is_digit space_len_back
digit-back d [] h = ground arith
digit-back d (b ∷ []) h = ground arith
digit-back d (b ∷ c ∷ rest) h = ground arith

digits-back : (ds rest : Bytes) → ds ≢ [] → AllDigits ds → space_len_back (ds ++ rest) ≡ 0
unfolding AllDigits
digits-back [] rest h d = absurd (h refl)
digits-back (d ∷ ds) rest h a = digit-back d (ds ++ rest) a.0

reverse-ne-nil : (ds : Bytes) → ds ≢ [] → reverse ds ≢ []
reverse-ne-nil ds h = λ e. h (sym (reverse-reverse ds) ∙ ap reverse e)

numbered-IsTrimmed :
    (p ds : Bytes) → space_len (p ++ ds) ≡ 0 → ds ≢ [] → AllDigits ds → IsTrimmed (p ++ ds)
unfolding AllDigits
numbered-IsTrimmed p ds f h a = record {
  front = f;
  back =
      rw (reverse-append p ds)
        (digits-back (reverse ds) (reverse p) (reverse-ne-nil ds h) (All-reverse _ ds a));
}

-- A name that is a prefix and a number, trimmed and in lower case.
numbered-lower :
    (u : Unicode) (p q : Bytes) (n : ℕ)
    → space_len (p ++ decimal n) ≡ 0
    → is_ascii (p ++ decimal n) ≡ true
    → map lower_byte p ≡ q
    → to_lower u (trim_space (p ++ decimal n)) ≡ q ++ decimal n
unfolding to_lower
numbered-lower u p q n f a l =
    rw
      (
        trim_space-fixed (p ++ decimal n)
            (numbered-IsTrimmed p (decimal n) f (decimal-ne-nil n) (decimal-AllDigits n)),
        a,
      )
      (map-append lower_byte p (decimal n)
        ∙ ap₂ ◌++◌ l (digits-lower (decimal n) (decimal-AllDigits n)))

numbered-decimal :
    (param : Bytes) (n : ℕ)
    → n < 2 ^ 63
    → numbered param (decimal n) ≡ some (record { param1 = param; param2 = decimal n })
unfolding numbered
numbered-decimal param n h = rw (atoi-decimal n h) refl

folder-lower :
    (u : Unicode) (n : ℕ)
    → to_lower u (trim_space (codes "Folder-" ++ decimal n)) ≡ codes "folder-" ++ decimal n
unfolding space_len is_ascii lower_byte
folder-lower u n =
    numbered-lower u (codes "Folder-") (codes "folder-") n refl
      (digits-ascii (decimal n) (decimal-AllDigits n)) refl

tag-lower :
    (u : Unicode) (n : ℕ)
    → to_lower u (trim_space (codes "Tag-" ++ decimal n)) ≡ codes "tag-" ++ decimal n
unfolding space_len is_ascii lower_byte
tag-lower u n =
    numbered-lower u (codes "Tag-") (codes "tag-") n refl
      (digits-ascii (decimal n) (decimal-AllDigits n)) refl

-- The canonical name of every mailbox is read back as that mailbox.
pub parse_mailbox_name-canonical_name :
    (u : Unicode) {s : MailboxSpec} → IsMailbox s → parse_mailbox_name u (canonical_name s) ≡ some s
unfolding parse_mailbox_name canonical_name to_lower trim_space parse_lower parse_numbered
    cut_prefix atoi
parse_mailbox_name-canonical_name u inbox = refl
parse_mailbox_name-canonical_name u sent = refl
parse_mailbox_name-canonical_name u draft = refl
parse_mailbox_name-canonical_name u trash = refl
parse_mailbox_name-canonical_name u spam = refl
parse_mailbox_name-canonical_name u important = refl
parse_mailbox_name-canonical_name u (folder n h) =
    rw (folder-lower u n) (numbered-decimal (codes "folders") n h)
parse_mailbox_name-canonical_name u (tag n h) =
    rw (tag-lower u n) (numbered-decimal (codes "tags") n h)
