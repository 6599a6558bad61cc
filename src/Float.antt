-- ===== src/Float.antt =====
-- `float`, which the language implements and antt does not: any type with the operations that the
-- code uses. The laws are those of IEEE 754 in any rounding mode, NaN and infinities included.
use open_ocpp_simu.Common.{ℕ, ◌*◌, ◌/◌, ◌≤◌, ◌<◌, ◌+◌, ◌≡◌, Bool, true, false, not}
use open_ocpp_simu.Common.{Option, none, some, arith, leb, ltb, ◌==◌, if◌then◌else◌}
use native.Mathlib.Nat.{mul-le-mul, le_refl}
use open_ocpp_simu.Common.{ℤ, pos}

pub record FloatOps (F : Type 0) : Type 0 where
  pub nought : F
  pub one : F
  -- `static_cast<float>` of an unsigned int
  pub of_uint : ℕ → F
  pub le : F → F → Bool
  pub lt : F → F → Bool
  pub eq : F → F → Bool
  pub add : F → F → F
  pub mul : F → F → F
  pub div : F → F → F
  pub floor : F → F
  -- `static_cast<int64_t>`
  pub to_int64 : F → ℤ

infix 4 ◌≼◌
abbrev pub ◌≼◌ : {F : Type 0} ⦃f : FloatOps F⦄ → F → F → Type 0
◌≼◌ ⦃f⦄ x y = f.le x y ≡ true

-- NaN is the value that is not `<=` itself.
abbrev pub IsNumber : {F : Type 0} ⦃f : FloatOps F⦄ → F → Type 0
IsNumber ⦃f⦄ x = f.le x x ≡ true

-- `std::min`
unfoldable pub min_float : {F : Type 0} ⦃f : FloatOps F⦄ → F → F → F
min_float ⦃f⦄ a b = if f.lt b a then b else a

pub record IsIeee (F : Type 0) ⦃f : FloatOps F⦄ : Type 0 where
  pub number_of_le : (x y : F) → x ≼ y → IsNumber x × IsNumber y
  pub le_trans : (x y z : F) → x ≼ y → y ≼ z → x ≼ z
  pub lt-eq-not-le : (x y : F) → IsNumber x → IsNumber y → f.lt x y ≡ not (f.le y x)
  pub number_of_lt : (x y : F) → f.lt x y ≡ true → IsNumber x × IsNumber y
  pub le_of_lt : (x y : F) → f.lt x y ≡ true → x ≼ y
  pub eq_number : (x : F) → IsNumber x → f.eq x x ≡ true
  pub of_uint-ge : (n : ℕ) → f.nought ≼ f.of_uint n
  pub floor-le : (x : F) → IsNumber x → f.floor x ≼ x
  -- rounding keeps the order, so a quotient of a smaller by a larger number is at most 1, and
  -- scaling a finite number by such a factor does not increase it
  pub div-bounds :
      (w t : F) → f.nought ≼ w → f.lt w t ≡ true → (f.nought ≼ f.div w t) × (f.div w t ≼ f.one)
  pub mul-bounds :
      (s r : F) (n : ℕ)
      → f.nought ≼ s
      → s ≼ f.of_uint n
      → f.nought ≼ r
      → r ≼ f.one
      → (f.nought ≼ f.mul s r) × (f.mul s r ≼ s)

-- The laws can be met: hundredths, rounded down, with `none` for NaN.
abbrev pub Hundredths : Type 0
Hundredths = Option ℕ

abbrev on_numbers : (ℕ → ℕ → Bool) → Hundredths → Hundredths → Bool
on_numbers t (some a) (some b) = t a b
on_numbers t _ _ = false

abbrev on_values : (ℕ → ℕ → ℕ) → Hundredths → Hundredths → Hundredths
on_values g (some a) (some b) = some (g a b)
on_values g _ _ = none

abbrev floor_hundredths : Hundredths → Hundredths
floor_hundredths (some a) = some (a / 100 * 100)
floor_hundredths none = none

abbrev truncate : Hundredths → ℤ
truncate (some a) = pos (a / 100)
truncate none = pos 0

instance abbrev pub hundredths : FloatOps Hundredths
hundredths = record {
  nought = some 0;
  one = some 100;
  of_uint = λ n. some (n * 100);
  le = on_numbers leb;
  lt = on_numbers ltb;
  eq = on_numbers ◌==◌;
  add = on_values ◌+◌;
  mul = on_values (λ a b. a * b / 100);
  div = on_values (λ a b. a * 100 / b);
  floor = floor_hundredths;
  to_int64 = truncate;
}

scale_down : (s r : ℕ) → r ≤ 100 → s * r / 100 ≤ s
scale_down s r h = omega (arith, mul-le-mul (le_refl s) h)

div_small : (w t : ℕ) → w < t → w * 100 / t ≤ 100
div_small w t h = grind arith

Hundredths-mul :
    (s r : Hundredths) (n : ℕ)
    → some 0 ≼ s
    → s ≼ hundredths.of_uint n
    → some 0 ≼ r
    → r ≼ some 100
    → (some 0 ≼ hundredths.mul s r) × (hundredths.mul s r ≼ s)
Hundredths-mul (some s) (some r) n hs hn hr h = (ground arith, ground (arith, scale_down s r))
Hundredths-mul (some s) none n hs hn hr h = ground arith
Hundredths-mul none r n hs hn hr h = ground arith

Hundredths-div :
    (w t : Hundredths)
    → some 0 ≼ w
    → hundredths.lt w t ≡ true
    → (some 0 ≼ hundredths.div w t) × (hundredths.div w t ≼ some 100)
Hundredths-div (some w) (some t) hw h = (ground arith, grind (arith, div_small w t))
Hundredths-div (some w) none hw h = ground arith
Hundredths-div none t hw h = ground arith

pub Hundredths-IsIeee : IsIeee Hundredths
Hundredths-IsIeee = record {
  number_of_le = ground arith;
  le_trans = ground arith;
  lt-eq-not-le = ground arith;
  number_of_lt = ground arith;
  le_of_lt = ground arith;
  eq_number = ground arith;
  of_uint-ge = ground arith;
  floor-le = ground arith;
  div-bounds = Hundredths-div;
  mul-bounds = Hundredths-mul;
}
