-- ===== src/Startup/Decimal.antt =====
-- Unsigned integers of 32 bits in decimal, and `atoi` of them.
use open_ocpp_simu.Common.{
  ℕ, zero, suc, ◌+◌, ◌-◌, ◌*◌, ◌/◌, ◌%◌, ◌^◌, ◌<◌, ◌≤◌, ◌≡◌, refl, ap, ◌∙◌, ltb, [], ◌∷◌, Text,
  true, arith, if◌then◌else◌, dec_lt,
}
use open_ocpp_simu.Mqtt.Topics.{atoi_u32, read_digits, positive_u32, is_digit}

-- The digits of a number before a text; each step of the fuel is one digit.
unfoldable pub digits : ℕ → ℕ → Text → Text
digits zero n after = after
digits (suc fuel) n after =
    let more = digits fuel (n / 10) ((48 + n % 10) ∷ after) in
    if ltb n 10 then (48 + n) ∷ after else more

-- `<<` and `std::to_string` of an unsigned integer, of ten digits at most.
unfoldable pub to_string : ℕ → Text
to_string n = digits 10 n []

digits-small : (fuel n : ℕ) (after : Text) → n < 10 → digits (suc fuel) n after ≡ (48 + n) ∷ after
unfolding digits
digits-small fuel n after h = ground arith

digits-large :
    (fuel n : ℕ) (after : Text)
    → 10 ≤ n
    → digits (suc fuel) n after ≡ digits fuel (n / 10) ((48 + n % 10) ∷ after)
unfolding digits
digits-large fuel n after h = ground arith

read_digits-digit :
    (k d : ℕ) (after : Text)
    → d < 10
    → read_digits k ((48 + d) ∷ after) ≡ read_digits (10 * k + d) after
unfolding read_digits
read_digits-digit k d after h =
    let same : 48 + d - 48 ≡ d = omega arith in
    let digit : is_digit (48 + d) ≡ true = ground arith in rw (digit, same) refl

read_digits-first :
    (d : ℕ) (after : Text) → d < 10 → read_digits 0 ((48 + d) ∷ after) ≡ read_digits d after
read_digits-first d after h =
    read_digits-digit 0 d after h ∙ ap (λ m. read_digits m after) (omega arith)

atoi_u32-digit :
    (d : ℕ) (after : Text)
    → d < 10
    → atoi_u32 ((48 + d) ∷ after) ≡ positive_u32 (read_digits 0 ((48 + d) ∷ after))
unfolding atoi_u32
atoi_u32-digit d after h = ground arith

positive_u32-small : (n : ℕ) → n < 2 ^ 32 → positive_u32 (read_digits n []) ≡ n
unfolding positive_u32 read_digits
positive_u32-small n h = ground arith

read_digits-digits :
    (fuel n : ℕ) (after : Text)
    → n < 10 ^ suc fuel
    → read_digits 0 (digits (suc fuel) n after) ≡ read_digits n after
read_digits-digits zero n after h =
    rw (digits-small zero n after (omega (arith, h))) (read_digits-first n after (omega (arith, h)))
read_digits-digits (suc fuel) n after h = elim (dec_lt n 10) [
  | yes l ↦ rw (digits-small (suc fuel) n after l) (read_digits-first n after l)
  | no l ↦ rw (digits-large (suc fuel) n after (omega arith)) (
      read_digits-digits fuel (n / 10) ((48 + n % 10) ∷ after) (omega (arith, h))
      ∙ (read_digits-digit (n / 10) (n % 10) after (omega arith)
          ∙ ap (λ m. read_digits m after) (omega arith)))
]

atoi_u32-digits :
    (fuel n : ℕ) (after : Text)
    → n < 10 ^ suc fuel
    → atoi_u32 (digits (suc fuel) n after)
      ≡ positive_u32 (read_digits 0 (digits (suc fuel) n after))
atoi_u32-digits zero n after h =
    rw (digits-small zero n after (omega (arith, h))) (atoi_u32-digit n after (omega (arith, h)))
atoi_u32-digits (suc fuel) n after h = elim (dec_lt n 10) [
  | yes l ↦ rw (digits-small (suc fuel) n after l) (atoi_u32-digit n after l)
  | no l ↦
      rw (digits-large (suc fuel) n after (omega arith))
        (atoi_u32-digits fuel (n / 10) ((48 + n % 10) ∷ after) (omega (arith, h)))
]

-- What is printed is read back.
pub atoi_u32-to_string : (n : ℕ) → n < 2 ^ 32 → atoi_u32 (to_string n) ≡ n
unfolding to_string
atoi_u32-to_string n h =
    atoi_u32-digits 9 n [] (omega (arith, h))
    ∙ (ap positive_u32 (read_digits-digits 9 n [] (omega (arith, h))) ∙ positive_u32-small n h)
