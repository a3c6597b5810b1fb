-- ===== src/Decimal/RoundTrip.antt =====
-- A lane id that was written by std::to_string is read back by std::stoll.
use autoware_agent.Base.{
  ℕ, zero, suc, ◌+◌, ◌/◌, ◌%◌, ◌<◌, ◌≡◌, refl, Bool, true, false, [], ◌∷◌, Text, arith, ℤ, pos,
  negsuc, in_int64, ok,
}
use autoware_agent.Decimal.{
  print_digits, print_ℕ, to_string, read_digits, negate, in_range, read_unsigned, is_digit, stoll,
}

read_last : (n : ℕ) (acc : Text) → read_digits (n / 10) ((b'0' + n % 10) ∷ acc) ≡ read_digits n acc
unfolding read_digits
read_last n acc = ground arith

read-print :
    (f n : ℕ) (acc : Text) → n < f → read_digits 0 (print_digits f n acc) ≡ read_digits n acc
unfolding print_digits
read-print zero n acc h = absurd (omega arith)
read-print (suc f) n acc h =
    ground (arith, read_last n acc, read-print f (n / 10) ((b'0' + n % 10) ∷ acc))

abbrev starts_digit : Text → Bool
starts_digit [] = false
starts_digit (c ∷ cs) = is_digit c

print-starts_digit : (f n : ℕ) (acc : Text) → n < f → starts_digit (print_digits f n acc) ≡ true
unfolding print_digits
print-starts_digit zero n acc h = absurd (omega arith)
print-starts_digit (suc f) n acc h =
    ground (arith, print-starts_digit f (n / 10) ((b'0' + n % 10) ∷ acc))

read_unsigned-text :
    (sign : ℕ → ℤ) (s : Text)
    → starts_digit s ≡ true
    → read_unsigned sign s ≡ in_range (sign (read_digits 0 s))
unfolding read_unsigned
read_unsigned-text sign [] h = cc
read_unsigned-text sign (c ∷ cs) h = rw h

stoll-digits : (s : Text) → starts_digit s ≡ true → stoll s ≡ in_range (pos (read_digits 0 s))
unfolding stoll
stoll-digits [] h = cc
stoll-digits (c ∷ cs) h = ground arith

read_print_ℕ : (n : ℕ) → read_digits 0 (print_ℕ n) ≡ n
unfolding print_ℕ read_digits
read_print_ℕ n = read-print (suc n) n [] (omega arith)

print_ℕ-starts_digit : (n : ℕ) → starts_digit (print_ℕ n) ≡ true
unfolding print_ℕ
print_ℕ-starts_digit n = print-starts_digit (suc n) n [] (omega arith)

stoll-minus : (s : Text) → stoll (b'-' ∷ s) ≡ read_unsigned negate s
unfolding stoll
stoll-minus s = refl

-- std::stoll reads back every int64_t that std::to_string has printed, and raises nothing.
pub stoll-to_string : (z : ℤ) → in_int64 z ≡ true → stoll (to_string z) ≡ ok z
unfolding to_string in_range negate
stoll-to_string (pos n) h =
    rw (stoll-digits (print_ℕ n) (print_ℕ-starts_digit n), read_print_ℕ n, h)
stoll-to_string (negsuc n) h = rw (
  stoll-minus (print_ℕ (suc n)),
  read_unsigned-text negate (print_ℕ (suc n)) (print_ℕ-starts_digit (suc n)),
  read_print_ℕ (suc n),
  h,
)
