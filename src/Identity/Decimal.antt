-- ===== src/Identity/Decimal.antt =====
-- Printing a number and reading it back.
use Prim.Native.Nat.{suc}
use voxbento.Prelude.{
  ℕ, zero, ◌+◌, ◌-◌, ◌*◌, ◌/◌, ◌%◌, ◌<◌, ◌≡◌, refl, true, false, [], ◌∷◌, ◌++◌, Text, Bool-cases,
  inl, inr, ltb, all, is_empty, arith,
}
use voxbento.Identity.Pattern.{is_digit, matches_digits, decimal, digits, value_of}
use voxbento.Identity.Plain.{all-append}

value_of-append :
    (acc : ℕ) (s : Text) (c : ℕ) → value_of acc (s ++ c ∷ []) ≡ value_of acc s * 10 + (c - 48)
unfolding value_of
value_of-append acc [] c = refl
value_of-append acc (d ∷ s) c = value_of-append (acc * 10 + (d - 48)) s c

value_of-decimal : (fuel n : ℕ) → n < fuel → value_of 0 (decimal fuel n) ≡ n
unfolding decimal
value_of-decimal zero n h = absurd (omega arith)
value_of-decimal (suc fuel) n h = elim (Bool-cases (ltb n 10)) [
  | inl small ↦ rw small (unfold value_of in omega arith)
  | inr big ↦ rw big (
      rw (value_of-append 0 (decimal fuel (n / 10)) (48 + n % 10))
        (rw (value_of-decimal fuel (n / 10) (ground arith)) (omega arith)))
]

-- A printed number reads back.
pub value_of-digits : (n : ℕ) → value_of 0 (digits n) ≡ n
unfolding digits
value_of-digits n = value_of-decimal (suc n) n (omega arith)

decimal_digits : (fuel n : ℕ) → all is_digit (decimal fuel n) ≡ true
unfolding decimal
decimal_digits zero n = refl
decimal_digits (suc fuel) n = elim (Bool-cases (ltb n 10)) [
  | inl small ↦ rw small (ground arith)
  | inr big ↦ rw big (
      rw (all-append is_digit (decimal fuel (n / 10)) ((48 + n % 10) ∷ []))
        (ground (arith, decimal_digits fuel (n / 10))))
]

pub all-digits : (n : ℕ) → all is_digit (digits n) ≡ true
unfolding digits
all-digits n = decimal_digits (suc n) n

is_empty-append : (s : Text) (c : ℕ) → is_empty (s ++ c ∷ []) ≡ false
is_empty-append [] c = refl
is_empty-append (d ∷ s) c = refl

digits_nonempty : (n : ℕ) → is_empty (digits n) ≡ false
unfolding digits decimal
digits_nonempty n = ground (arith, is_empty-append (decimal n (n / 10)) (48 + n % 10))

-- What is printed of a number is digits only, and at least one.
pub matches_digits-digits : (n : ℕ) → matches_digits (digits n) ≡ true
unfolding matches_digits
matches_digits-digits n = rw (digits_nonempty n, all-digits n)
