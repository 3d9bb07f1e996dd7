-- ===== src/FileStream/CData.antt =====
-- formatCData against a reader of CDATA sections.
use epics_logfile.Base.{
  ℕ, zero, suc, ◌+◌, ◌-◌, ◌≤◌, ◌<◌, ◌≡◌, refl, sym, ◌∙◌, ap, inl, inr, Bool, true, false, ◌++◌, ◌∷◌,
  [], Option, none, some, Bytes, codes, length, take, drop, if◌then◌else◌, arith, Bool-cases,
  Option-cases, begins_with, find_text, find_text_from, substr, substr_from, drop-drop,
  take-append-drop, append_assoc, append-nil,
}
use epics_logfile.FileStream.{format_from, format_c_data}

prefix : ℕ → Option Bytes → Option Bytes
prefix x none = none
prefix x (some s) = some (x ∷ s)

-- The text of a sequence of CDATA sections, as a reader of XML has it. The arguments are: inside a
-- section or between two, the bytes of a delimiter that are still to be skipped, what is to be read.
unfoldable pub read_sections : Bool → ℕ → Bytes → Option Bytes
unfolding prefix begins_with
read_sections true skip [] = none
read_sections false zero [] = some []
read_sections false (suc skip) [] = none
read_sections inside (suc skip) (x ∷ xs) = read_sections inside skip xs
read_sections true zero (x ∷ xs) =
    let ended = read_sections false 2 xs in
    let on = prefix x (read_sections true 0 xs) in
    if begins_with (codes "]]>") (x ∷ xs) then ended else on
read_sections false zero (x ∷ xs) =
    let begun = read_sections true 8 xs in
    if begins_with (codes "<![CDATA[") (x ∷ xs) then begun else none

prepend : Bytes → Option Bytes → Option Bytes
prepend s none = none
prepend s (some t) = some (s ++ t)

not_begun :
    (x : ℕ) (xs tail : Bytes)
    → begins_with (codes "]]>") (x ∷ xs) ≡ false
    → begins_with (codes "]]>") (x ∷ (xs ++ (codes "]]>" ++ tail))) ≡ false
unfolding begins_with
not_begun x [] tail h = ground arith
not_begun x (y ∷ []) tail h = ground arith
not_begun x (y ∷ z ∷ xs) tail h = ground arith

find_text-none :
    (x : ℕ) (xs : Bytes)
    → find_text (codes "]]>") (x ∷ xs) ≡ none
    → (begins_with (codes "]]>") (x ∷ xs) ≡ false) × (find_text (codes "]]>") xs ≡ none)
unfolding find_text
find_text-none x xs h = elim (Bool-cases (begins_with (codes "]]>") (x ∷ xs))) [
  | inl b ↦ ground (arith, b)
  | inr b ↦ ground (arith, b)
]

read_on :
    (x : ℕ) (xs : Bytes)
    → begins_with (codes "]]>") (x ∷ xs) ≡ false
    → read_sections true 0 (x ∷ xs) ≡ prefix x (read_sections true 0 xs)
unfolding read_sections
read_on x xs h =
    ap (λ b. if b then read_sections false 2 xs else prefix x (read_sections true 0 xs)) h

prefix-prepend : (x : ℕ) (s : Bytes) (t : Option Bytes) → prefix x (prepend s t) ≡ prepend (x ∷ s) t
unfolding prefix prepend
prefix-prepend x s none = refl
prefix-prepend x s (some t) = refl

prepend-prepend : (s t : Bytes) (o : Option Bytes) → prepend s (prepend t o) ≡ prepend (s ++ t) o
unfolding prepend
prepend-prepend s t none = refl
prepend-prepend s t (some u) = ap some (sym (append_assoc s t u))

prepend_nil : (o : Option Bytes) → prepend [] o ≡ o
unfolding prepend
prepend_nil none = refl
prepend_nil (some t) = refl

-- A text without the end of a section is read as it is.
read_segment :
    (s tail : Bytes)
    → find_text (codes "]]>") s ≡ none
    → read_sections true 0 (s ++ (codes "]]>" ++ tail)) ≡ prepend s (read_sections false 0 tail)
unfolding read_sections
read_segment [] tail h = sym (prepend_nil (read_sections false 0 tail))
read_segment (x ∷ xs) tail h =
    let (now, later) = find_text-none x xs h in
    read_on x (xs ++ (codes "]]>" ++ tail)) (not_begun x xs tail now)
    ∙ ap (prefix x) (read_segment xs tail later)
    ∙ prefix-prepend x xs (read_sections false 0 tail)

find_text_later :
    (x : ℕ) (xs : Bytes) (i : ℕ)
    → find_text (codes "]]>") (x ∷ xs) ≡ some (suc i)
    → (begins_with (codes "]]>") (x ∷ xs) ≡ false) × (find_text (codes "]]>") xs ≡ some i)
unfolding find_text
find_text_later x xs i h = elim (Bool-cases (begins_with (codes "]]>") (x ∷ xs))) [
  | inl b ↦ ground (arith, b)
  | inr b ↦ ground (arith, b)
]

find_text_skip :
    (x : ℕ) (ys : Bytes)
    → begins_with (codes "]]>") (x ∷ ys) ≡ false
    → find_text (codes "]]>") ys ≡ none
    → find_text (codes "]]>") (x ∷ ys) ≡ none
unfolding find_text
find_text_skip x ys b h = ground (arith, b)

not_begun-take :
    (x : ℕ) (xs : Bytes) (n : ℕ)
    → begins_with (codes "]]>") (x ∷ xs) ≡ false
    → begins_with (codes "]]>") (x ∷ take n xs) ≡ false
unfolding begins_with
not_begun-take x xs zero h = ground arith
not_begun-take x [] (suc n) h = ground arith
not_begun-take x (y ∷ xs) (suc zero) h = ground arith
not_begun-take x (y ∷ []) (suc (suc n)) h = h
not_begun-take x (y ∷ z ∷ xs) (suc (suc n)) h = ground arith

-- Up to the second byte of the first end of a section, a text has none.
find_text-take :
    (s : Bytes) (i : ℕ)
    → find_text (codes "]]>") s ≡ some i
    → find_text (codes "]]>") (take (suc (suc i)) s) ≡ none
unfolding find_text begins_with
find_text-take [] i h = refl
find_text-take (x ∷ []) zero h = ground arith
find_text-take (x ∷ y ∷ xs) zero h = ground arith
find_text-take (x ∷ xs) (suc i) h =
    let (now, later) = find_text_later x xs i h in
    find_text_skip x (take (suc (suc i)) xs) (not_begun-take x xs (suc (suc i)) now)
      (find_text-take xs i later)

length-drop_le : (n : ℕ) (s : Bytes) → length (drop n s) ≤ length s
length-drop_le zero s = omega arith
length-drop_le (suc n) [] = omega arith
length-drop_le (suc n) (x ∷ xs) = omega (arith, length-drop_le n xs)

format_from_last :
    (fuel : ℕ) (data_ : Bytes) (pos : ℕ)
    → find_text (codes "]]>") (drop pos data_) ≡ none
    → format_from (suc fuel) data_ pos ≡ some (drop pos data_ ++ codes "]]>")
unfolding format_from find_text_from substr_from
format_from_last fuel data_ pos h = rw (h, format_from)

format_from_more :
    (fuel : ℕ) (data_ : Bytes) (pos i : ℕ) (rest : Bytes)
    → find_text (codes "]]>") (drop pos data_) ≡ some i
    → format_from fuel data_ (pos + i + 2) ≡ some rest
    → format_from (suc fuel) data_ pos
      ≡ some (take (suc (suc i)) (drop pos data_) ++ (codes "]]><![CDATA[" ++ rest))
unfolding format_from find_text_from substr
format_from_more fuel data_ pos i rest h later =
    let n : pos + i - pos + 2 ≡ suc (suc i) = omega arith in
    rw (h, format_from) (rw (later, n) refl)

drop_shorter :
    (s : Bytes) (i : ℕ)
    → find_text (codes "]]>") s ≡ some i
    → length (drop (suc (suc i)) s) < length s
unfolding find_text begins_with
drop_shorter [] i h = ground arith
drop_shorter (x ∷ xs) i h = omega (arith, length-drop_le (suc i) xs)

-- Between two sections.
read_next :
    (rest : Bytes) → read_sections false 0 (codes "<![CDATA[" ++ rest) ≡ read_sections true 0 rest
unfolding read_sections begins_with
read_next rest = refl

read_end : (s : Bytes) → prepend s (read_sections false 0 []) ≡ some s
unfolding prepend read_sections
read_end s = ap some (append-nil s)

-- The rest of the loop.
format_from_lem :
    (fuel : ℕ) (data_ : Bytes) (pos : ℕ)
    → length (drop pos data_) < fuel
    → (text : Bytes) × (format_from fuel data_ pos ≡ some text)
      × (read_sections true 0 text ≡ some (drop pos data_))
unfolding prepend
format_from_lem zero data_ pos h = ground arith
format_from_lem (suc fuel) data_ pos h =
    elim (Option-cases (find_text (codes "]]>") (drop pos data_))) [
      | inl free ↦ (
        drop pos data_ ++ codes "]]>",
        format_from_last fuel data_ pos free,
        read_segment (drop pos data_) [] free ∙ read_end (drop pos data_),
      )
      | inr (i, hit) ↦
          let s = drop pos data_ in
          let two_on : drop (pos + i + 2) data_ ≡ drop (suc (suc i)) s =
            ap (λ n. drop n data_) (omega arith) ∙ sym (drop-drop (suc (suc i)) pos data_) in
          let (rest, formatted, back) =
            format_from_lem fuel data_ (pos + i + 2)
              (omega (arith, drop_shorter s i hit, ap length two_on)) in
          (
            take (suc (suc i)) s ++ (codes "]]><![CDATA[" ++ rest),
            format_from_more fuel data_ pos i rest hit formatted,
            read_segment (take (suc (suc i)) s) (codes "<![CDATA[" ++ rest) (find_text-take s i hit)
                ∙ ap (prepend (take (suc (suc i)) s)) (read_next rest ∙ back ∙ ap some two_on)
                ∙ ap some (take-append-drop (suc (suc i)) s),
          )
    ]

-- formatCData ends, and a reader of the CDATA sections that it writes has the data back.
pub format_c_data_lem :
    (data_ : Bytes)
    → (text : Bytes) × (format_c_data data_ ≡ some text) × (read_sections false 0 text ≡ some data_)
unfolding format_c_data
format_c_data_lem data_ =
    let (text, formatted, back) = format_from_lem (suc (length data_)) data_ 0 (omega arith) in
    (codes "<![CDATA[" ++ text, rw (formatted, format_c_data), read_next text ∙ back)
