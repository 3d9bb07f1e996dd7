-- ===== src/Stdout/Stoi.antt =====
-- std::stoi of the standard library, as output_stream_stdout.cpp calls it: blanks, a sign, then as
-- many digits as there are.
use epics_logfile.Base.{
  ℕ, ◌+◌, ◌-◌, ◌^◌, Bool, true, false, ◌&&◌, not, [], ◌∷◌, Bytes, codes, length, drop, ltb, ◌==◌,
  if◌then◌else◌, Result, ok, throw, invalid_argument, out_of_range, is_empty,
}
use epics_logfile.Base.Decimal.{is_digit, is_space, digits_value}

-- An int.
pub record Parsed : Type 0 where
  pub negative : Bool
  pub magnitude : ℕ

unfoldable pub is_negative : Parsed → Bool
is_negative n = n.negative && not (n.magnitude == 0)

-- s[i], for i < s.size().
abbrev pub byte_at : ℕ → Bytes → ℕ
byte_at i s = elim (drop i s) [ [] ↦ 0 | c ∷ cs ↦ c ]

unfoldable pub blanks : Bytes → ℕ
unfolding is_space
blanks [] = 0
blanks (c ∷ cs) = let rest = blanks cs in if is_space c then 1 + rest else 0

unfoldable pub digits : Bytes → Bytes
digits [] = []
digits (c ∷ cs) = let rest = digits cs in if is_digit c then c ∷ rest else []

-- The digits after `before` bytes, the sign among them.
unfoldable pub stoi_digits : Bool → ℕ → Bytes → Result (Parsed × ℕ)
unfolding digits_value
stoi_digits negative before ds =
    if is_empty ds
    then throw (invalid_argument (codes "stoi"))
    else if ltb (if negative then 2 ^ 31 else 2 ^ 31 - 1) (digits_value 0 ds)
    then throw (out_of_range (codes "stoi"))
    else ok (record { negative = negative; magnitude = digits_value 0 ds }, before + length ds)

unfoldable pub stoi_signed : ℕ → Bytes → Result (Parsed × ℕ)
unfolding digits stoi_digits
stoi_signed before [] = throw (invalid_argument (codes "stoi"))
stoi_signed before (c ∷ cs) =
    if c == b'-'
    then stoi_digits true (before + 1) (digits cs)
    else if c == b'+'
    then stoi_digits false (before + 1) (digits cs)
    else stoi_digits false before (digits (c ∷ cs))

-- The value, and the number of bytes read.
unfoldable pub stoi : Bytes → Result (Parsed × ℕ)
unfolding blanks stoi_signed
stoi s = stoi_signed (blanks s) (drop (blanks s) s)
