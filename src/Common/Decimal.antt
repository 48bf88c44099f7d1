-- ===== src/Common/Decimal.antt =====
-- std::stoll and std::stoi, and how printf shows a signed number. A signed number of w bits is its bit
-- pattern, a number below 2^w; `half` is 2^(w - 1).
use Prim.Native.Nat.{ℕ, zero, suc, ◌+◌, ◌-◌, ◌*◌, ◌/◌, ◌%◌, ◌<◌, ◌≤◌}
use mathlib.Core.Path.{◌≡◌, refl, ◌∙◌}
use mathlib.Core.Logic.{inl, inr}
use mathlib.Core.Bool.{Bool, true, false, ◌&&◌, ◌||◌}
use mathlib.Core.Option.{Option, none, some}
use mathlib.Core.List.{[], ◌∷◌}
use native.Mathlib.Omega.{arith}
use iot_distributed_gateway.Common.Tests.{if◌then◌else◌, ltb, leb, ◌==◌, Bool-cases}
use iot_distributed_gateway.Common.Equality.{Bytes}
use iot_distributed_gateway.Common.Lists.{All}
use Prim.{tt}
use iot_distributed_gateway.Common.Text.{decimal_loop, to_string}

abbrev pub int32_half : ℕ
int32_half = 2147483648

abbrev pub int64_half : ℕ
int64_half = 9223372036854775808

-- The conversion %d or %lld.
unfoldable pub signed_string : ℕ → ℕ → Bytes
signed_string half n = if ltb n half then to_string n else 45 ∷ to_string (half + half - n)

abbrev pub is_digit : ℕ → Bool
is_digit c = leb 48 c && leb c 57

abbrev is_space : ℕ → Bool
is_space c = c == 32 || (leb 9 c && leb c 13)

-- The digits at the front; what stands behind them is not read.
unfoldable pub digits : ℕ → Bytes → ℕ
digits acc [] = acc
digits acc (c ∷ rest) = if is_digit c then digits (acc * 10 + (c - 48)) rest else acc

abbrev starts_digit : Bytes → Bool
starts_digit [] = false
starts_digit (c ∷ rest) = is_digit c

abbrev positive : ℕ → Bytes → Option ℕ
positive half text =
    let n = digits 0 text in if starts_digit text && ltb n half then some n else none

-- -0 is 0, and -half is the least number.
abbrev negative : ℕ → Bytes → Option ℕ
negative half text =
    let n = digits 0 text in
    if starts_digit text && leb n half then some (if n == 0 then 0 else half + half - n) else none

-- `none` is an exception, std::invalid_argument or std::out_of_range.
unfoldable pub parse_signed : ℕ → Bytes → Option ℕ
parse_signed half [] = none
parse_signed half (c ∷ rest) =
    if is_space c
    then parse_signed half rest
    else if c == 45
    then negative half rest
    else if c == 43
    then positive half rest
    else positive half (c ∷ rest)

abbrev negative_or_zero : ℕ → ℕ → Option ℕ
negative_or_zero half n = if leb n half then some (if n == 0 then 0 else half + half - n) else none

abbrev below : ℕ → ℕ → Option ℕ
below half n = if ltb n half then some n else none

-- std::atoi: 0 where there are no digits; `none` is a number that does not fit, which the language leaves
-- open.
unfoldable pub atoi : Bytes → Option ℕ
unfolding digits
atoi [] = some 0
atoi (c ∷ rest) =
    if is_space c
    then atoi rest
    else if c == 45
    then negative_or_zero int32_half (digits 0 rest)
    else if c == 43
    then below int32_half (digits 0 rest)
    else below int32_half (digits 0 (c ∷ rest))

digits-decimal_loop :
    (f n : ℕ) (acc : Bytes) → n < f → digits 0 (decimal_loop f n acc) ≡ digits n acc
unfolding digits decimal_loop
digits-decimal_loop zero n acc h = absurd (omega arith)
digits-decimal_loop (suc f) n acc h = elim (Bool-cases (ltb n 10)) [
  | inl small ↦ ground arith
  | inr large ↦
      rw large (digits-decimal_loop f (n / 10) ((n % 10 + 48) ∷ acc) (ground arith) ∙ ground arith)
]

decimal_loop_digit :
    (f n : ℕ) (acc : Bytes)
    → n < f
    → (c : ℕ) × (rest : Bytes) × (decimal_loop f n acc ≡ c ∷ rest) × (is_digit c ≡ true)
unfolding decimal_loop
decimal_loop_digit zero n acc h = absurd (omega arith)
decimal_loop_digit (suc f) n acc h = elim (Bool-cases (ltb n 10)) [
  | inl small ↦ (n + 48, acc, rw small refl, ground arith)
  | inr large ↦ rw large (decimal_loop_digit f (n / 10) ((n % 10 + 48) ∷ acc) (ground arith))
]

pub digits-to_string : (n : ℕ) → digits 0 (to_string n) ≡ n
unfolding to_string digits
digits-to_string n = digits-decimal_loop (suc n) n [] (omega arith)

to_string_digit :
    (n : ℕ) → (c : ℕ) × (rest : Bytes) × (to_string n ≡ c ∷ rest) × (is_digit c ≡ true)
unfolding to_string
to_string_digit n = decimal_loop_digit (suc n) n [] (omega arith)

positive-to_string : (half n : ℕ) → n < half → positive half (to_string n) ≡ some n
positive-to_string half n h =
    let (c, rest, e, d) = to_string_digit n in
    let value : digits 0 (c ∷ rest) ≡ n = rw e at (digits-to_string n) in
    rw e (rw (value, d) (ground arith))

negative-to_string :
    (half n : ℕ) → 0 < n → n ≤ half → negative half (to_string n) ≡ some (half + half - n)
negative-to_string half n p h =
    let (c, rest, e, d) = to_string_digit n in
    let value : digits 0 (c ∷ rest) ≡ n = rw e at (digits-to_string n) in
    rw e (rw (value, d) (ground arith))

parse_signed-to_string : (half n : ℕ) → n < half → parse_signed half (to_string n) ≡ some n
unfolding parse_signed
parse_signed-to_string half n h =
    let (c, rest, e, d) = to_string_digit n in
    let whole : positive half (c ∷ rest) ≡ some n = rw e at (positive-to_string half n h) in
    let space : is_space c ≡ false = ground arith in
    let minus : (c == 45) ≡ false = ground arith in
    let plus : (c == 43) ≡ false = ground arith in rw e (rw (space, minus, plus) whole)

-- A signed number is read back from its decimal text.
pub parse_signed-signed_string :
    (half n : ℕ) → n < half + half → parse_signed half (signed_string half n) ≡ some n
unfolding signed_string parse_signed
parse_signed-signed_string half n h = elim (Bool-cases (ltb n half)) [
  | inl small ↦ rw small (parse_signed-to_string half n (ground arith))
  | inr large ↦
      let top : half + half - (half + half - n) ≡ n = omega arith in
      rw large
        (negative-to_string half (half + half - n) (omega arith) (ground arith) ∙ rw top refl)
]

decimal_loop-digits :
    (f n : ℕ) (acc : Bytes)
    → n < f
    → All (λ c. is_digit c ≡ true) acc
    → All (λ c. is_digit c ≡ true) (decimal_loop f n acc)
unfolding decimal_loop
decimal_loop-digits zero n acc h a = absurd (omega arith)
decimal_loop-digits (suc f) n acc h a = elim (Bool-cases (ltb n 10)) [
  | inl small ↦ rw small (ground arith, a)
  | inr large ↦
      rw large
        (decimal_loop-digits f (n / 10) ((n % 10 + 48) ∷ acc) (ground arith) (ground arith, a))
]

pub to_string-digits : (n : ℕ) → All (λ c. is_digit c ≡ true) (to_string n)
unfolding to_string
to_string-digits n = decimal_loop-digits (suc n) n [] (omega arith) tt

pub signed_string_small : (half n : ℕ) → n < half → signed_string half n ≡ to_string n
unfolding signed_string
signed_string_small half n h = let small : ltb n half ≡ true = ground arith in rw small refl

-- A number that fits is read back from its decimal text.
pub atoi-to_string : (n : ℕ) → n < int32_half → atoi (to_string n) ≡ some n
unfolding atoi
atoi-to_string n h =
    let (c, rest, e, d) = to_string_digit n in
    let value : digits 0 (c ∷ rest) ≡ n = rw e at (digits-to_string n) in
    let space : is_space c ≡ false = ground arith in
    let minus : (c == 45) ≡ false = ground arith in
    let plus : (c == 43) ≡ false = ground arith in
    let fits : ltb n int32_half ≡ true = ground arith in
    rw e (rw (space, minus, plus) (rw value (rw fits refl)))
