-- ===== src/Base/Decimal.antt =====
-- Unsigned numbers in decimal, as operator<< of std::ostream and std::to_string write them, and
-- padding, as std::setw asks for it.
use epics_logfile.Base.{
  ℕ, zero, suc, ◌+◌, ◌-◌, ◌*◌, ◌/◌, ◌%◌, ◌≤◌, ◌<◌, ◌≡◌, refl, ◌++◌, [], ◌∷◌, Bool, true, false,
  is_empty, inl, inr, ◌&&◌, ◌||◌, ◌==◌, arith, ltb, leb, if◌then◌else◌, Bytes, length, replicate,
  All, All-append, length-append, Bool-cases,
}

-- The quotient by ten is written first; `none` of the digits is left out while fuel remains, and
-- a number has no more digits than its successor.
decimal_from : ℕ → ℕ → Bytes
decimal_from zero n = []
decimal_from (suc fuel) n =
    let rest = decimal_from fuel (n / 10) ++ (48 + n % 10) ∷ [] in
    if ltb n 10 then (48 + n) ∷ [] else rest

unfoldable pub decimal : ℕ → Bytes
unfolding decimal_from
decimal n = decimal_from (suc n) n

abbrev pub is_digit : ℕ → Bool
is_digit c = leb b'0' c && leb c b'9'

-- std::isspace in the "C" locale.
unfoldable pub is_space : ℕ → Bool
is_space c = c == b' ' || (leb 9 c && leb c 13)

-- A digit is no blank and no sign.
pub digit_shape :
    (c : ℕ)
    → is_digit c ≡ true
    → (is_space c ≡ false) × ((c == b'-') ≡ false) × ((c == b'+') ≡ false)
unfolding is_space
digit_shape c h = ground arith

-- The number that a row of digits stands for, after the digits that gave `acc`.
unfoldable pub digits_value : ℕ → Bytes → ℕ
digits_value acc [] = acc
digits_value acc (c ∷ cs) = digits_value (acc * 10 + (c - 48)) cs

digits_value-append :
    (acc : ℕ) (s t : Bytes) → digits_value acc (s ++ t) ≡ digits_value (digits_value acc s) t
unfolding digits_value
digits_value-append acc [] t = refl
digits_value-append acc (c ∷ s) t = digits_value-append (acc * 10 + (c - 48)) s t

decimal_from_value : (fuel n : ℕ) → n < fuel → digits_value 0 (decimal_from fuel n) ≡ n
unfolding decimal_from digits_value
decimal_from_value zero n h = elim h [ ]
decimal_from_value (suc fuel) n h = elim (Bool-cases (ltb n 10)) [
  | inl small ↦ rw small (omega arith)
  | inr large ↦
      rw (large, digits_value-append, decimal_from_value fuel (n / 10) (ground arith)) (omega arith)
]

pub digits_value-decimal : (n : ℕ) → digits_value 0 (decimal n) ≡ n
unfolding decimal
digits_value-decimal n = decimal_from_value (suc n) n (omega arith)

decimal_from_digits : (fuel n : ℕ) → All (λ c. is_digit c ≡ true) (decimal_from fuel n)
unfolding decimal_from
decimal_from_digits zero n = tt
decimal_from_digits (suc fuel) n = elim (Bool-cases (ltb n 10)) [
  | inl small ↦ rw small (ground arith)
  | inr large ↦ rw large (
      All-append (λ c. is_digit c ≡ true) (decimal_from fuel (n / 10)) _
        (decimal_from_digits fuel (n / 10)) (ground arith))
]

pub decimal_digits : (n : ℕ) → All (λ c. is_digit c ≡ true) (decimal n)
unfolding decimal
decimal_digits n = decimal_from_digits (suc n) n

is_empty-append : (s : Bytes) (c : ℕ) → is_empty (s ++ c ∷ []) ≡ false
is_empty-append [] c = refl
is_empty-append (x ∷ s) c = refl

pub decimal_not_empty : (n : ℕ) → is_empty (decimal n) ≡ false
unfolding decimal decimal_from
decimal_not_empty n = elim (Bool-cases (ltb n 10)) [
  | inl small ↦ rw small refl
  | inr large ↦ rw large (is_empty-append (decimal_from n (n / 10)) (48 + n % 10))
]

-- A number below 10 has one digit at most, and a tenfold bound costs one digit more.
length-decimal_from_base : (fuel n : ℕ) → n < 10 → length (decimal_from fuel n) ≤ 1
unfolding decimal_from
length-decimal_from_base zero n h = omega arith
length-decimal_from_base (suc fuel) n h = ground arith

length-decimal_from_step :
    (bound k : ℕ)
    → ((fuel n : ℕ) → n < bound → length (decimal_from fuel n) ≤ k)
    → (fuel n : ℕ) → n < bound * 10
    → length (decimal_from fuel n) ≤ k + 1
unfolding decimal_from
length-decimal_from_step bound k ih zero n h = omega arith
length-decimal_from_step bound k ih (suc fuel) n h = elim (Bool-cases (ltb n 10)) [
  | inl small ↦ rw small (omega arith)
  | inr large ↦ rw (large, length-append) (omega (arith, ih fuel (n / 10) (omega arith)))
]

pub length-decimal_le_five : (n : ℕ) → n < 100000 → length (decimal n) ≤ 5
unfolding decimal
length-decimal_le_five n h =
    length-decimal_from_step 10000 4
      (length-decimal_from_step 1000 3
        (length-decimal_from_step 100 2 (length-decimal_from_step 10 1 length-decimal_from_base)))
      (suc n) n h

-- std::setw with std::setfill, and with std::left.
abbrev pub pad_left : ℕ → ℕ → Bytes → Bytes
pad_left fill width s = replicate (width - length s) fill ++ s

abbrev pub pad_right : ℕ → ℕ → Bytes → Bytes
pad_right fill width s = s ++ replicate (width - length s) fill
