-- ===== src/Decimal.antt =====
-- std::to_string of an int64_t and std::stoll, which the trip controller uses to keep lane ids as
-- text in TripStatus and to read them back (src/gateway_bridge/src/TripController.cc).
pub mod RoundTrip
use autoware_agent.Base.{
  ℕ, zero, suc, ◌+◌, ◌-◌, ◌*◌, ◌/◌, ◌%◌, Bool, true, false, ◌&&◌, ◌||◌, List, [], ◌∷◌, Option, none,
  some, Text, leb, ◌==◌, if◌then◌else◌, ℤ, pos, negsuc, in_int64, Result, ok, err, invalid_argument,
  out_of_range,
}

abbrev pub is_digit : ℕ → Bool
is_digit c = leb b'0' c && leb c b'9'

-- The digits of `n` in front of `acc`; `n + 1` rounds are enough, since `n / 10 < n` until 0.
pub print_digits : ℕ → ℕ → Text → Text
print_digits zero n acc = acc
print_digits (suc f) n acc =
    let out = (b'0' + n % 10) ∷ acc in
    let rest = print_digits f (n / 10) out in if n / 10 == 0 then out else rest

pub print_ℕ : ℕ → Text
print_ℕ n = print_digits (suc n) n []

-- std::to_string
unfoldable pub to_string : ℤ → Text
unfolding print_ℕ print_digits
to_string (pos n) = print_ℕ n
to_string (negsuc n) = b'-' ∷ print_ℕ (suc n)

-- strtoll stops at the first character that is no digit.
pub read_digits : ℕ → Text → ℕ
read_digits n [] = n
read_digits n (c ∷ cs) =
    let rest = read_digits (n * 10 + (c - b'0')) cs in if is_digit c then rest else n

pub negate : ℕ → ℤ
negate zero = pos 0
negate (suc n) = negsuc n

in_range : ℤ → Result ℤ
in_range z = if in_int64 z then ok z else err out_of_range

-- At least one digit has to follow the sign.
read_unsigned : (ℕ → ℤ) → Text → Result ℤ
unfolding read_digits in_range
read_unsigned sign [] = err invalid_argument
read_unsigned sign (c ∷ cs) =
    if is_digit c then in_range (sign (read_digits 0 (c ∷ cs))) else err invalid_argument

read_signed : Text → Result ℤ
unfolding read_unsigned negate
read_signed [] = err invalid_argument
read_signed (c ∷ cs) =
    if c == b'-'
    then read_unsigned negate cs
    else if c == b'+'
    then read_unsigned pos cs
    else read_unsigned pos (c ∷ cs)

is_space : ℕ → Bool
is_space c = c == 32 || (leb 9 c && leb c 13)

-- std::stoll in base 10: leading white space, a sign, digits, and the rest is ignored.
unfoldable pub stoll : Text → Result ℤ
unfolding read_signed is_space
stoll [] = err invalid_argument
stoll (c ∷ cs) = let rest = stoll cs in if is_space c then rest else read_signed (c ∷ cs)
