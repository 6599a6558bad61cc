-- ===== src/Tests/Signed.antt =====
-- Whole numbers with a sign as the floats of an example with a negative power.
use open_ocpp_simu.Common.{
  ℕ, zero, suc, ◌+◌, ◌-◌, ◌*◌, ◌/◌, Bool, true, false, not, leb, ◌&&◌, ℤ, pos, negsuc,
  if◌then◌else◌,
}
use open_ocpp_simu.Float.{FloatOps}

abbrev negated : ℕ → ℤ
negated zero = pos 0
negated (suc n) = negsuc n

abbrev minus : ℕ → ℕ → ℤ
minus a b = if leb b a then pos (a - b) else negated (b - a)

abbrev signed_le : ℤ → ℤ → Bool
signed_le (pos a) (pos b) = leb a b
signed_le (negsuc a) (pos b) = true
signed_le (pos a) (negsuc b) = false
signed_le (negsuc a) (negsuc b) = leb b a

abbrev signed_add : ℤ → ℤ → ℤ
signed_add (pos a) (pos b) = pos (a + b)
signed_add (pos a) (negsuc b) = minus a (suc b)
signed_add (negsuc a) (pos b) = minus b (suc a)
signed_add (negsuc a) (negsuc b) = negsuc (suc (a + b))

-- A product or a quotient, by what it is of the absolute values.
abbrev by_sign : (ℕ → ℕ → ℕ) → ℤ → ℤ → ℤ
by_sign op (pos a) (pos b) = pos (op a b)
by_sign op (pos a) (negsuc b) = negated (op a (suc b))
by_sign op (negsuc a) (pos b) = negated (op (suc a) b)
by_sign op (negsuc a) (negsuc b) = pos (op (suc a) (suc b))

abbrev pub signed : FloatOps ℤ
signed = record {
  nought = pos 0;
  one = pos 1;
  of_uint = pos;
  le = signed_le;
  lt = λ a b. not (signed_le b a);
  eq = λ a b. signed_le a b && signed_le b a;
  add = signed_add;
  mul = by_sign ◌*◌;
  div = by_sign ◌/◌;
  floor = λ a. a;
  to_int64 = λ a. a;
}
