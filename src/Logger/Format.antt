-- ===== src/Logger/Format.antt =====
-- logger::string_format (logger.cpp). What ::vsnprintf would write without a bound is a parameter:
-- `none` if it reports an error.
use epics_logfile.Base.{
  ℕ, zero, suc, ◌+◌, ◌-◌, ◌*◌, ◌^◌, ◌<◌, ◌≤◌, ◌≡◌, refl, ◌∙◌, Bool, true, false, [], ◌∷◌, ◌++◌,
  Option, none, some, Bytes, length, take, drop, replicate, ltb, if◌then◌else◌, arith, inl, inr,
  Bool-cases, length-append, take-append, append_assoc, append-nil,
}

-- str.resize(n): new bytes are NUL.
unfoldable pub resize : ℕ → Bytes → Bytes
resize n s = take n s ++ replicate (n - length s) 0

-- ::vsnprintf(str, size, ...), for size > 0: at most size - 1 bytes and a NUL are written over the
-- front of str; the length of the whole text is returned.
vsnprintf : Option Bytes → ℕ → Bytes → Option ℕ × Bytes
vsnprintf none size str = (none, str)
vsnprintf (some text) size str =
    let written = take (size - 1) text ++ 0 ∷ [] in
    (some (length text), written ++ drop (length written) str)

-- How the loop ends: with a text, with a size that does not fit an int, or not within the fuel.
pub data Formatted : Type 0 where
  formatted : Bytes → Formatted
  overflow out_of_fuel : Formatted

-- `size` behind the tests of a round that did not return.
next_size : Option ℕ → ℕ → ℕ
next_size none size = size * 2
next_size (some n) size = n + 1

unfoldable pub fits : Option ℕ → ℕ → Bool
fits none size = false
fits (some n) size = ltb n size

unfoldable pub returned : Option ℕ → Bytes → Bytes
unfolding resize
returned none str = str
returned (some n) str = resize n str

-- The loop, with at most `fuel` rounds.
format_rounds : ℕ → Option Bytes → ℕ → Bytes → Formatted
unfolding resize vsnprintf next_size fits returned
format_rounds zero text size str = Formatted.out_of_fuel
format_rounds (suc fuel) text size str =
    let (n, written) = vsnprintf text size (resize size str) in
    let rest = format_rounds fuel text (next_size n size) written in
    if fits n size
    then Formatted.formatted (returned n written)
    else if ltb (2 ^ 31 - 1) (next_size n size)
    then Formatted.overflow
    else rest

unfoldable pub string_format : ℕ → Option Bytes → Formatted
unfolding format_rounds
string_format fuel text = format_rounds fuel text 100 []

take_enough : (n : ℕ) (s : Bytes) → length s ≤ n → take n s ≡ s
take_enough zero [] h = refl
take_enough zero (c ∷ s) h = ground arith
take_enough (suc n) [] h = refl
take_enough (suc n) (c ∷ s) h = ground (arith, take_enough n s)

-- What was written is cut to the text.
cut_text : (text rest : Bytes) → resize (length text) (text ++ rest) ≡ text
unfolding resize
cut_text text rest =
    let none_left : length text - length (text ++ rest) ≡ 0 =
      omega (arith, length-append text rest) in
    rw (none_left, take-append text rest) (append-nil text)

last_round :
    (fuel : ℕ) (text : Bytes) (size : ℕ) (str : Bytes)
    → length text < size
    → format_rounds (suc fuel) (some text) size str ≡ Formatted.formatted text
unfolding format_rounds vsnprintf next_size fits returned
last_round fuel text size str h =
    let fit : ltb (length text) size ≡ true = ground arith in
    rw
      (
        fit,
        take_enough (size - 1) text (omega (arith, h)),
        append_assoc text (0 ∷ []) (drop (length (text ++ 0 ∷ [])) (resize size str)),
        cut_text text (0 ∷ drop (length (text ++ 0 ∷ [])) (resize size str)),
      )
      refl

first_round :
    (fuel : ℕ) (text : Bytes) (size : ℕ) (str : Bytes)
    → size ≤ length text
    → length text < 2 ^ 31 - 1
    → format_rounds (suc fuel) (some text) size str
      ≡ format_rounds fuel
          (some text)
          (length text + 1)
          (vsnprintf (some text) size (resize size str)).1
unfolding format_rounds next_size fits
first_round fuel text size str h k =
    let no_fit : ltb (length text) size ≡ false = ground arith in
    let small : ltb (2 ^ 31 - 1) (length text + 1) ≡ false = ground arith in rw (no_fit, small) refl

-- string_format returns the whole text, in two rounds at most, if its length and one more fits an
-- int.
string_format_lem :
    (fuel : ℕ) (text : Bytes)
    → length text < 2 ^ 31 - 1
    → string_format (suc (suc fuel)) (some text) ≡ Formatted.formatted text
unfolding string_format format_rounds vsnprintf next_size fits returned
string_format_lem fuel text h = elim (Bool-cases (ltb (length text) 100)) [
  | inl short ↦ last_round (suc fuel) text 100 [] (ground arith)
  | inr long ↦
      first_round (suc fuel) text 100 [] (ground arith) h
      ∙ last_round fuel text (length text + 1) _ (omega arith)
]

abbrev doubled : ℕ → ℕ → ℕ
doubled zero size = size
doubled (suc k) size = doubled k (size * 2)

no_return :
    (k fuel size : ℕ) (str : Bytes)
    → k < fuel
    → size < 2 ^ 31
    → 2 ^ 31 ≤ doubled k size
    → format_rounds fuel none size str ≡ Formatted.overflow
unfolding format_rounds next_size fits vsnprintf
no_return zero fuel size str h b k = ground arith
no_return (suc n) zero size str h b k = ground arith
no_return (suc n) (suc fuel) size str h b k = elim (Bool-cases (ltb (2 ^ 31 - 1) (size * 2))) [
  | inl large ↦ rw large refl
  | inr small ↦
      rw small (no_return n fuel (size * 2) (resize size str) (omega (arith, h)) (ground arith) k)
]

-- If ::vsnprintf reports an error, no round returns: the size is doubled until it no longer fits
-- an int, which happens within 26 rounds.
string_format_overflows : (fuel : ℕ) → 25 < fuel → string_format fuel none ≡ Formatted.overflow
unfolding string_format
string_format_overflows fuel h = no_return 25 fuel 100 [] h (omega arith) (omega arith)
