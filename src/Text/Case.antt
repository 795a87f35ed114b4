-- ===== src/Text/Case.antt =====
-- strings.ToLower, ToUpper and EqualFold. On ASCII strings they are written out; on others they
-- map by Unicode's tables, which are a parameter.
use xyecoc_mailbridge.Base.{
  ℕ, ◌+◌, ◌-◌, Bool, true, ◌&&◌, [], ◌∷◌, map, Bytes, eqb, ltb, leb, if◌then◌else◌,
}

pub record Unicode : Type 0 where
  pub lower : Bytes → Bytes
  pub upper : Bytes → Bytes
  pub equal_fold : Bytes → Bytes → Bool

unfoldable pub lower_byte : ℕ → ℕ
lower_byte c = if leb b'A' c && leb c b'Z' then c + 32 else c

unfoldable pub upper_byte : ℕ → ℕ
upper_byte c = if leb b'a' c && leb c b'z' then c - 32 else c

unfoldable pub is_ascii : Bytes → Bool
is_ascii [] = true
is_ascii (x ∷ xs) = ltb x 0x80 && is_ascii xs

unfoldable pub to_lower : Unicode → Bytes → Bytes
unfolding lower_byte is_ascii
to_lower u s = if is_ascii s then map lower_byte s else u.lower s

unfoldable pub to_upper : Unicode → Bytes → Bytes
unfolding upper_byte is_ascii
to_upper u s = if is_ascii s then map upper_byte s else u.upper s

unfoldable pub equal_fold : Unicode → Bytes → Bytes → Bool
unfolding lower_byte is_ascii eqb
equal_fold u s t =
    if is_ascii s && is_ascii t then eqb (map lower_byte s) (map lower_byte t) else u.equal_fold s t

-- Tables that change nothing, for tests on ASCII text.
abbrev pub no_tables : Unicode
no_tables = record { lower = λ s. s; upper = λ s. s; equal_fold = eqb }
