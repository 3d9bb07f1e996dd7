-- ===== src/Stdout/Environment.antt =====
-- COLORFGBG as a terminal sets it: two numbers in decimal.
use native.Mathlib.Nat.{zero-add}
use epics_logfile.Base.{
  ℕ, ◌+◌, ◌-◌, ◌^◌, ◌≡◌, refl, sym, ap, ◌∙◌, true, false, ◌||◌, [], ◌∷◌, ◌++◌, some, Bytes, codes,
  length, ltb, ◌==◌, if◌then◌else◌, ok, throw, out_of_range, is_empty, All, arith, length-append,
  drop-append, append-nil, append_assoc, substr_from_at, substr_at, substr, substr_from,
  bytes_eq_refl, inl, inr, Bool-cases,
}
use epics_logfile.Base.Decimal.{
  is_digit, digit_shape, decimal, decimal_digits, decimal_not_empty, digits_value-decimal,
}
use epics_logfile.Stdout.Stoi.{stoi, stoi_signed, stoi_digits, blanks, digits, byte_at, is_negative}
use epics_logfile.Stdout.{
  Colors, s_colors256dark, s_colors256light, read_background, read_fgbg, init_colors256,
  init_colors,
}

-- The text does not begin with a digit.
abbrev Stops : Bytes → Type 0
Stops [] = Unit
Stops (c ∷ cs) = is_digit c ≡ false

digits-All :
    (ds rest : Bytes) → All (λ c. is_digit c ≡ true) ds → Stops rest → digits (ds ++ rest) ≡ ds
unfolding digits
digits-All [] [] a h = refl
digits-All [] (c ∷ rest) a h = rw h refl
digits-All (d ∷ ds) rest a h = rw a.0 (ap (◌∷◌ d) (digits-All ds rest a.1 h))

-- std::stoi on digits.
stoi_of_digits :
    (ds rest : Bytes)
    → is_empty ds ≡ false
    → All (λ c. is_digit c ≡ true) ds
    → Stops rest
    → stoi (ds ++ rest) ≡ stoi_digits false 0 ds
unfolding stoi stoi_signed blanks
stoi_of_digits [] rest e a h = ground arith
stoi_of_digits (d ∷ ds) rest e a h =
    let shape = digit_shape d a.0 in
    let whole = digits-All (d ∷ ds) rest a h in rw (shape.0, shape.1, shape.2, whole) refl

stoi-decimal :
    (n : ℕ) (rest : Bytes)
    → Stops rest
    → stoi (decimal n ++ rest) ≡ (
        if ltb (2 ^ 31 - 1) n
        then throw (out_of_range (codes "stoi"))
        else ok (record { negative = false; magnitude = n }, length (decimal n)))
unfolding stoi_digits
stoi-decimal n rest h =
    stoi_of_digits (decimal n) rest (decimal_not_empty n) (decimal_digits n) h
    ∙ rw (decimal_not_empty n, digits_value-decimal n, zero-add) refl

length_ne :
    (n : ℕ) (c : ℕ) (s : Bytes) → (length (decimal n) == length (decimal n ++ c ∷ s)) ≡ false
length_ne n c s = ground (arith, length-append (decimal n) (c ∷ s))

byte_at-append : (s : Bytes) (c : ℕ) (rest : Bytes) → byte_at (length s) (s ++ c ∷ rest) ≡ c
byte_at-append s c rest = rw (byte_at, drop-append s (c ∷ rest)) refl

-- What the numbers mean: 7, and 10 and above, are light.
abbrev pub colors_for : ℕ → Colors
colors_for b = if b == 7 || ltb 9 b then s_colors256light else s_colors256dark

read_background-decimal :
    (b : ℕ)
    → read_background (decimal b)
      ≡ (if ltb (2 ^ 31 - 1) b then throw (out_of_range (codes "stoi")) else ok (colors_for b))
unfolding read_background is_negative
read_background-decimal b =
    let read = ap stoi (sym (append-nil (decimal b))) ∙ stoi-decimal b [] tt in
    elim (Bool-cases (ltb (2 ^ 31 - 1) b)) [
      | inl large ↦ rw (read, large) refl
      | inr small ↦ rw (read, small) (ground arith)
    ]

substr_from-append :
    (s : Bytes) (c : ℕ) (rest : Bytes) → substr_from (s ++ c ∷ rest) (length s + 1) ≡ rest
substr_from-append s c rest =
    substr_from_at (s ++ c ∷ rest) (s ++ c ∷ []) rest (length s + 1)
      (sym (append_assoc s (c ∷ []) rest)) (sym (length-append s (c ∷ [])))

read_fgbg-decimal :
    (f b : ℕ)
    → read_fgbg (decimal f ++ b';' ∷ decimal b) ≡ (
        if ltb (2 ^ 31 - 1) f || ltb (2 ^ 31 - 1) b
        then throw (out_of_range (codes "stoi"))
        else ok (colors_for b))
unfolding read_fgbg is_negative
read_fgbg-decimal f b =
    let read = stoi-decimal f (b';' ∷ decimal b) refl in
    elim (Bool-cases (ltb (2 ^ 31 - 1) f)) [
      | inl large ↦ rw (read, large) refl
      | inr small ↦
          rw
            (
              read,
              small,
              length_ne f b';' (decimal b),
              byte_at-append (decimal f) b';' (decimal b),
              substr_from-append (decimal f) b';' (decimal b),
            )
            (read_background-decimal b)
    ]

is_256color :
    (pre : Bytes)
    → substr (pre ++ codes "-256color") (length (pre ++ codes "-256color") - 9) 9
      ≡ codes "-256color"
is_256color pre =
    substr_at (pre ++ codes "-256color") pre (codes "-256color") [] _ 9 refl
      (rw (length-append pre (codes "-256color")) (omega arith)) refl

-- With a TERM that ends in "-256color" and a COLORFGBG of two numbers in decimal, the colours are
-- the light ones exactly when the second is 7 or above 9, whatever the first, as long as both fit
-- an int. Otherwise init_colors throws out_of_range.
pub init_colors-decimal :
    (pre : Bytes) (f b : ℕ)
    → init_colors (some (pre ++ codes "-256color")) (some (decimal f ++ b';' ∷ decimal b)) ≡ (
        if ltb (2 ^ 31 - 1) f || ltb (2 ^ 31 - 1) b
        then throw (out_of_range (codes "stoi"))
        else ok (colors_for b))
unfolding init_colors init_colors256
init_colors-decimal pre f b =
    let long = length-append pre (codes "-256color") in
    let is_long : ltb (length (pre ++ codes "-256color")) 9 ≡ false = ground (arith, long) in
    rw (is_long, is_256color pre, bytes_eq_refl (codes "-256color"), read_fgbg-decimal f b)
      (ground arith)
