-- ===== src/Smtpd/Syntax.antt =====
-- The command lines of internal/mhalesmtpd/smtpd.go: `parseLine`, and the matches of `rcptToRE`,
-- `mailFromRE`, `mailSizeRE` and `checkErrFormat`. A match is the leftmost one, its repetitions
-- greedy, as Go's `regexp` finds it; `.` takes no line feed.
pub mod Paths
use xyecoc_mailbridge.Base.{
  ℕ, Bool, false, not, ◌&&◌, ◌||◌, Option, none, some, [], ◌∷◌, Bytes, codes, eqb, is_empty, ◌==◌,
  leb, if◌then◌else◌,
}
use xyecoc_mailbridge.Text.{Unicode, to_upper, lower_byte, trim_space, cut_byte, is_digit, has_byte}

-- `parseLine`.
unfoldable pub parse_line : Unicode → Bytes → Bytes × Bytes
parse_line u line = elim (cut_byte b' ' line) [
  | none ↦ (to_upper u line, [])
  | some (verb, args) ↦ (to_upper u verb, trim_space args)
]

-- `\s`.
unfoldable pub is_re_space : ℕ → Bool
is_re_space c = c == 9 || c == 10 || c == 12 || c == 13 || c == 32

-- The text behind a keyword such as `[Tt][Oo]:`, which is given in lower case.
unfoldable pub cut_keyword : Bytes → Bytes → Option Bytes
unfolding lower_byte
cut_keyword s [] = some s
cut_keyword [] (p ∷ ps) = none
cut_keyword (x ∷ xs) (p ∷ ps) =
    let rest = cut_keyword xs ps in if lower_byte x == p then rest else none

-- `<`.
unfoldable pub open_angle : Bytes → Option Bytes
open_angle [] = none
open_angle (c ∷ cs) = if c == b'<' then some cs else none

-- `\s?<`.
unfoldable pub open_path : Bytes → Option Bytes
unfolding open_angle is_re_space
open_path [] = none
open_path (c ∷ cs) = if is_re_space c then open_angle cs else open_angle (c ∷ cs)

-- `(.*)>`: what stands before and behind the last `>` of the line.
unfoldable pub close_path : Bytes → Option (Bytes × Bytes)
close_path [] = none
close_path (x ∷ xs) =
    let rest = close_path xs in
    let here : Option (Bytes × Bytes) = if x == b'>' then some ([], xs) else none in
    if x == 10 then none else elim rest [ none ↦ here | some (a, b) ↦ some (x ∷ a, b) ]

-- The leftmost match of a pattern that `here` matches at the front of a text.
unfoldable pub leftmost {ℓ} : {A : Type ℓ} → (Bytes → Option A) → Bytes → Option A
leftmost here [] = here []
leftmost here (x ∷ xs) =
    let later = leftmost here xs in elim (here (x ∷ xs)) [ none ↦ later | some a ↦ some a ]

abbrev or_else {ℓ κ} : {A : Type ℓ} {B : Type κ} → Option A → (A → Option B) → Option B
or_else none f = none
or_else (some a) f = f a

unfoldable pub non_empty : Bytes → Option Bytes
non_empty [] = none
non_empty (c ∷ cs) = some (c ∷ cs)

unfoldable pub rcpt_here : Bytes → Option Bytes
unfolding cut_keyword open_path close_path non_empty
rcpt_here s =
    or_else (cut_keyword s (codes "to:"))
      λ r. or_else (open_path r) λ p. or_else (close_path p) λ m. non_empty m.0

-- `rcptToRE.FindStringSubmatch(args)`: the first group.
unfoldable pub rcpt_to : Bytes → Option Bytes
unfolding leftmost rcpt_here
rcpt_to = leftmost rcpt_here

unfoldable pub before_newline : Bytes → Bytes
before_newline [] = []
before_newline (c ∷ cs) = let rest = before_newline cs in if c == 10 then [] else c ∷ rest

-- `(\s(.*))?`: the inner group, where there is a match.
unfoldable pub parameters : Bytes → Option Bytes
unfolding is_re_space before_newline
parameters [] = none
parameters (c ∷ cs) = if is_re_space c then some (before_newline cs) else none

unfoldable pub mail_here : Bytes → Option (Bytes × Option Bytes)
unfolding cut_keyword open_path close_path parameters
mail_here s =
    or_else (cut_keyword s (codes "from:"))
      λ r. or_else (open_path r) λ p. or_else (close_path p) λ m. some (m.0, parameters m.1)

-- `mailFromRE.FindStringSubmatch(args)`: the first and the third group.
unfoldable pub mail_from : Bytes → Option (Bytes × Option Bytes)
unfolding leftmost mail_here
mail_from = leftmost mail_here

unfoldable pub digits_of : Bytes → Bytes
unfolding is_digit
digits_of [] = []
digits_of (c ∷ cs) = let rest = digits_of cs in if is_digit c then c ∷ rest else []

unfoldable pub size_here : Bytes → Option Bytes
unfolding cut_keyword digits_of non_empty
size_here s = or_else (cut_keyword s (codes "size=")) λ r. non_empty (digits_of r)

-- `mailSizeRE.FindStringSubmatch`: the digits.
unfoldable pub mail_size : Bytes → Option Bytes
unfolding leftmost size_here
mail_size = leftmost size_here

-- `^([2-5][0-9]{2})[\s\-](.+)$`, the form of a reply that a handler's error may take.
unfoldable pub is_reply : Bytes → Bool
unfolding is_digit is_re_space has_byte
is_reply (a ∷ b ∷ c ∷ d ∷ rest) =
    (leb b'2' a && leb a b'5')
    && is_digit b
    && is_digit c
    && (is_re_space d || d == b'-')
    && not (is_empty rest)
    && not (has_byte 10 rest)
is_reply _ = false

pub data Verb : Type 0 where
  helo ehlo mail rcpt data_verb quit rset noop xclient help_vrfy_expn starttls auth unknown : Verb

-- The cases of `serve`'s switch.
unfoldable pub verb_of : Bytes → Verb
unfolding eqb
verb_of v =
    if eqb v (codes "HELO")
    then helo
    else if eqb v (codes "EHLO")
    then ehlo
    else if eqb v (codes "MAIL")
    then mail
    else if eqb v (codes "RCPT")
    then rcpt
    else if eqb v (codes "DATA")
    then data_verb
    else if eqb v (codes "QUIT")
    then quit
    else if eqb v (codes "RSET")
    then rset
    else if eqb v (codes "NOOP")
    then noop
    else if eqb v (codes "XCLIENT")
    then xclient
    else if eqb v (codes "HELP")
    then help_vrfy_expn
    else if eqb v (codes "VRFY")
    then help_vrfy_expn
    else if eqb v (codes "EXPN")
    then help_vrfy_expn
    else if eqb v (codes "STARTTLS")
    then starttls
    else if eqb v (codes "AUTH")
    then auth
    else unknown

pub data Mech : Type 0 where
  plain login cram_md5 : Mech

-- The keys of the map in `authMechs`.
unfoldable pub mech_of : Bytes → Option Mech
unfolding eqb
mech_of m =
    if eqb m (codes "PLAIN")
    then some plain
    else if eqb m (codes "LOGIN")
    then some login
    else if eqb m (codes "CRAM-MD5")
    then some cram_md5
    else none
