-- ===== src/Text/Decimal.antt =====
-- Signed integers, strconv.Itoa and Atoi.
use xyecoc_mailbridge.Base.{
  ℕ, zero, suc, ◌+◌, ◌-◌, ◌*◌, ◌/◌, ◌%◌, ◌^◌, ◌<◌, Bool, true, ◌&&◌, Option, none, some, [], ◌∷◌,
  Bytes, ◌==◌, ltb, leb, ◌≡◌, refl, if◌then◌else◌, arith, ◌∙◌, Bool-cases, inl, inr, ap, ltb→lt,
  lt→ltb, All, ◌≢◌,
}

-- A Go `int`: `negsuc n` is -(n + 1).
pub data ℤ : Type 0 where
  pos : ℕ → ℤ
  negsuc : ℕ → ℤ

-- The decimal digits of `n`; the fuel is never used up, as each round divides by ten.
unfoldable pub digits_onto : ℕ → ℕ → Bytes → Bytes
digits_onto zero n out = out
digits_onto (suc f) n out =
    let rest = digits_onto f (n / 10) ((b'0' + n % 10) ∷ out) in
    if ltb n 10 then (b'0' + n) ∷ out else rest

unfoldable pub decimal : ℕ → Bytes
unfolding digits_onto
decimal n = digits_onto (suc n) n []

-- `strconv.Itoa`.
unfoldable pub itoa : ℤ → Bytes
unfolding decimal
itoa (pos n) = decimal n
itoa (negsuc n) = b'-' ∷ decimal (n + 1)

unfoldable pub is_digit : ℕ → Bool
is_digit c = leb b'0' c && leb c b'9'

-- The value of a run of digits behind a value already read.
unfoldable pub value_onto : ℕ → Bytes → Option ℕ
unfolding is_digit
value_onto acc [] = some acc
value_onto acc (c ∷ cs) =
    let rest = value_onto (acc * 10 + (c - b'0')) cs in if is_digit c then rest else none

unfoldable pub value : Bytes → Option ℕ
unfolding value_onto
value [] = none
value (c ∷ cs) = value_onto 0 (c ∷ cs)

-- The range of a 64-bit `int`.
unfoldable pub positive : Option ℕ → Option ℤ
positive none = none
positive (some n) = if ltb n (2 ^ 63) then some (pos n) else none

unfoldable pub negative : Option ℕ → Option ℤ
negative none = none
negative (some n) =
    if n == 0 then some (pos 0) else if leb n (2 ^ 63) then some (negsuc (n - 1)) else none

-- `strconv.Atoi`: `none` for an error.
unfoldable pub atoi : Bytes → Option ℤ
unfolding value positive negative
atoi [] = none
atoi (c ∷ cs) =
    if c == b'+'
    then positive (value cs)
    else if c == b'-'
    then negative (value cs)
    else positive (value (c ∷ cs))

value_onto-digit :
    (c acc : ℕ) (cs : Bytes)
    → c < 10
    → value_onto acc ((b'0' + c) ∷ cs) ≡ value_onto (acc * 10 + c) cs
unfolding value_onto is_digit
value_onto-digit c acc cs h =
    ground (arith, ap (λ (k : ℕ). value_onto k cs) (same_sum (b'0' + c) c acc (omega arith)))
  where
    same_sum : (d c acc : ℕ) → d ≡ b'0' + c → acc * 10 + (d - b'0') ≡ acc * 10 + c
    same_sum d c acc h = omega arith

value_onto-digits_onto :
    (f n : ℕ) (out : Bytes) → n < f → value_onto 0 (digits_onto f n out) ≡ value_onto n out
unfolding digits_onto
value_onto-digits_onto zero n out h = absurd (omega arith)
value_onto-digits_onto (suc f) n out h = elim (Bool-cases (ltb n 10)) [
  | inl small ↦ rw small (
      value_onto-digit n 0 out (ltb→lt n 10 small) ∙ ap (λ (k : ℕ). value_onto k out) (omega arith))
  | inr big ↦ rw big (
      value_onto-digits_onto f (n / 10) ((b'0' + n % 10) ∷ out) (ground arith)
      ∙ value_onto-digit (n % 10) (n / 10) out (omega arith)
      ∙ ap (λ (k : ℕ). value_onto k out) (omega arith))
]

-- The digits of a number, and the first of them.
unfoldable pub AllDigits : Bytes → Type 0
AllDigits = All λ c. is_digit c ≡ true

digits_onto-AllDigits :
    (f n : ℕ) (out : Bytes) → n < f → AllDigits out → AllDigits (digits_onto f n out)
unfolding digits_onto AllDigits is_digit
digits_onto-AllDigits zero n out h d = absurd (omega arith)
digits_onto-AllDigits (suc f) n out h d = elim (Bool-cases (ltb n 10)) [
  | inl small ↦ rw small (ground arith, d)
  | inr big ↦
      rw big
        (digits_onto-AllDigits f (n / 10) ((b'0' + n % 10) ∷ out) (ground arith) (ground arith, d))
]

pub decimal-AllDigits : (n : ℕ) → AllDigits (decimal n)
unfolding decimal AllDigits
decimal-AllDigits n = digits_onto-AllDigits (suc n) n [] (omega arith) tt

digits_onto-ne-nil : (f n : ℕ) (out : Bytes) → n < f → digits_onto f n out ≢ []
unfolding digits_onto
digits_onto-ne-nil zero n out h = absurd (omega arith)
digits_onto-ne-nil (suc f) n out h = elim (Bool-cases (ltb n 10)) [
  | inl small ↦ rw small (λ e. cc)
  | inr big ↦ rw big (digits_onto-ne-nil f (n / 10) ((b'0' + n % 10) ∷ out) (ground arith))
]

pub decimal-ne-nil : (n : ℕ) → decimal n ≢ []
unfolding decimal
decimal-ne-nil n = digits_onto-ne-nil (suc n) n [] (omega arith)

value-cons : (s : Bytes) → s ≢ [] → value s ≡ value_onto 0 s
unfolding value
value-cons [] h = absurd (h refl)
value-cons (c ∷ cs) h = refl

pub value-decimal : (n : ℕ) → value (decimal n) ≡ some n
unfolding value_onto decimal
value-decimal n =
    value-cons (decimal n) (decimal-ne-nil n) ∙ value_onto-digits_onto (suc n) n [] (omega arith)

pub decimal_injective : (m n : ℕ) → decimal m ≡ decimal n → m ≡ n
decimal_injective m n e = cc (value-decimal m, value-decimal n, ap value e)

atoi_unsigned : (s : Bytes) → AllDigits s → s ≢ [] → atoi s ≡ positive (value s)
unfolding atoi AllDigits is_digit
atoi_unsigned [] d h = absurd (h refl)
atoi_unsigned (c ∷ cs) d h = ground arith

-- `Atoi` reads back what `Itoa` wrote of a number that is not negative and fits an `int`.
pub atoi-decimal : (n : ℕ) → n < 2 ^ 63 → atoi (decimal n) ≡ some (pos n)
unfolding positive
atoi-decimal n h =
    atoi_unsigned (decimal n) (decimal-AllDigits n) (decimal-ne-nil n)
    ∙ rw (value-decimal n, lt→ltb n (2 ^ 63) h)
