-- ===== src/Base/Text.antt =====
-- std::string as a list of bytes: comparison, find, substr. A position that does not exist, npos,
-- is `none`; `substr` past the end gives the empty text (the source never asks for that).
use Prim.Native.Char.{code}
use Prim.Native.Nat.{ℕ, zero, suc, ◌+◌}
use Prim.Native.String.{String}
use mathlib.Core.Path.{◌≡◌, refl}
use mathlib.Core.Bool.{Bool, true, false, ◌&&◌, ◌||◌}
use mathlib.Core.List.{List, [], ◌∷◌, ◌++◌}
use mathlib.Core.Logic.{◌↔◌}
use mathlib.Core.Option.{Option, none, some}
use native.Mathlib.Omega.{arith}
use epics_logfile.Base.Tests.{◌==◌, if◌then◌else◌}
use epics_logfile.Base.Lists.{length, take, drop, take-append, drop-append}

abbrev pub Bytes : Type 0
Bytes = List ℕ

-- The code points of a text: its bytes, as every literal below is ASCII.
abbrev pub codes : String → Bytes
codes String.[] = []
codes (String.◌∷◌ c s) = code c ∷ codes s

-- std::string's operator==.
unfoldable pub bytes_eq : Bytes → Bytes → Bool
bytes_eq [] [] = true
bytes_eq (x ∷ xs) (y ∷ ys) = x == y && bytes_eq xs ys
bytes_eq _ _ = false

pub bytes_eq_iff : (a b : Bytes) → (bytes_eq a b ≡ true) ↔ (a ≡ b)
unfolding bytes_eq
bytes_eq_iff (x ∷ a) (y ∷ b) = ground (arith, bytes_eq_iff a b)
bytes_eq_iff _ _ = ground arith

pub bytes_eq_refl : (a : Bytes) → bytes_eq a a ≡ true
bytes_eq_refl a = (bytes_eq_iff a a).1 refl

-- std::string::empty.
abbrev pub is_empty : Bytes → Bool
is_empty [] = true
is_empty (x ∷ xs) = false

abbrev has_byte : ℕ → Bytes → Bool
has_byte c [] = false
has_byte c (x ∷ xs) = x == c || has_byte c xs

abbrev bump : Option ℕ → Option ℕ
bump none = none
bump (some i) = some (suc i)

-- The first position of a byte.
unfoldable pub find_byte : ℕ → Bytes → Option ℕ
find_byte c [] = none
find_byte c (x ∷ xs) = let rest = bump (find_byte c xs) in if x == c then some 0 else rest

-- Does the text begin with the pattern?
unfoldable pub begins_with : Bytes → Bytes → Bool
begins_with [] s = true
begins_with (p ∷ ps) [] = false
begins_with (p ∷ ps) (x ∷ xs) = x == p && begins_with ps xs

-- The first position of a pattern.
unfoldable pub find_text : Bytes → Bytes → Option ℕ
unfolding begins_with
find_text pat [] = if begins_with pat [] then some 0 else none
find_text pat (x ∷ xs) =
    let rest = bump (find_text pat xs) in if begins_with pat (x ∷ xs) then some 0 else rest

abbrev offset : ℕ → Option ℕ → Option ℕ
offset n none = none
offset n (some i) = some (n + i)

-- s.find(c, pos) and s.find(pat, pos).
unfoldable pub find_byte_from : ℕ → Bytes → ℕ → Option ℕ
find_byte_from c s pos = offset pos (find_byte c (drop pos s))

unfoldable pub find_text_from : Bytes → Bytes → ℕ → Option ℕ
find_text_from pat s pos = offset pos (find_text pat (drop pos s))

-- s.substr(pos, n) and s.substr(pos).
unfoldable pub substr : Bytes → ℕ → ℕ → Bytes
substr s pos n = take n (drop pos s)

unfoldable pub substr_from : Bytes → ℕ → Bytes
substr_from s pos = drop pos s

-- The text has no byte `c`.
abbrev pub Lacks : ℕ → Bytes → Type 0
Lacks c s = has_byte c s ≡ false

find_byte-Lacks : (c : ℕ) (s : Bytes) → Lacks c s → find_byte c s ≡ none
unfolding find_byte
find_byte-Lacks c [] h = refl
find_byte-Lacks c (x ∷ xs) h = ground (arith, find_byte-Lacks c xs)

pub find_byte_hit :
    (c : ℕ) (s rest : Bytes) → Lacks c s → find_byte c (s ++ c ∷ rest) ≡ some (length s)
unfolding find_byte
find_byte_hit c [] rest h = ground arith
find_byte_hit c (x ∷ xs) rest h = ground (arith, find_byte_hit c xs rest)

pub Lacks-append : (c : ℕ) (s t : Bytes) → Lacks c s → Lacks c t → Lacks c (s ++ t)
Lacks-append c [] t h k = k
Lacks-append c (x ∷ xs) t h k = ground (arith, Lacks-append c xs t)

-- Searches and cuts at a position that is known as the length of what stands before it.
pub find_byte_at :
    (c : ℕ) (url pre s rest : Bytes) (pos : ℕ)
    → url ≡ pre ++ (s ++ c ∷ rest)
    → pos ≡ length pre
    → Lacks c s
    → find_byte_from c url pos ≡ some (pos + length s)
unfolding find_byte_from
find_byte_at c url pre s rest pos eu ep h =
    rw (eu, ep, drop-append pre (s ++ c ∷ rest), find_byte_hit c s rest h)

find_byte_nowhere :
    (c : ℕ) (url pre s : Bytes) (pos : ℕ)
    → url ≡ pre ++ s
    → pos ≡ length pre
    → Lacks c s
    → find_byte_from c url pos ≡ none
unfolding find_byte_from
find_byte_nowhere c url pre s pos eu ep h = rw (eu, ep, drop-append pre s, find_byte-Lacks c s h)

pub substr_at :
    (url pre s rest : Bytes) (pos n : ℕ)
    → url ≡ pre ++ (s ++ rest)
    → pos ≡ length pre
    → n ≡ length s
    → substr url pos n ≡ s
unfolding substr
substr_at url pre s rest pos n eu ep en =
    rw (eu, ep, en, drop-append pre (s ++ rest)) (take-append s rest)

pub substr_from_at :
    (url pre s : Bytes) (pos : ℕ) → url ≡ pre ++ s → pos ≡ length pre → substr_from url pos ≡ s
unfolding substr_from
substr_from_at url pre s pos eu ep = rw (eu, ep) (drop-append pre s)

-- The text splits at the first occurrence of a byte.
pub find_byte-some :
    (c : ℕ) (s : Bytes) (i : ℕ)
    → find_byte c s ≡ some i
    → (s ≡ take i s ++ (c ∷ drop (suc i) s)) × Lacks c (take i s)
unfolding find_byte
find_byte-some c [] i h = cc
find_byte-some c (x ∷ xs) zero h = ground arith
find_byte-some c (x ∷ xs) (suc j) h = ground (arith, find_byte-some c xs j)

pub find_byte-none : (c : ℕ) (s : Bytes) → find_byte c s ≡ none → Lacks c s
unfolding find_byte
find_byte-none c [] h = refl
find_byte-none c (x ∷ xs) h = ground (arith, find_byte-none c xs)

pub find_byte-length : (c : ℕ) (s : Bytes) (i : ℕ) → find_byte c s ≡ some i → length (take i s) ≡ i
unfolding find_byte
find_byte-length c [] i h = cc
find_byte-length c (x ∷ xs) zero h = refl
find_byte-length c (x ∷ xs) (suc j) h = ground (arith, find_byte-length c xs j)

-- A search for a text of one byte is the search for that byte.
find_text-byte : (c : ℕ) (s : Bytes) → find_text (c ∷ []) s ≡ find_byte c s
unfolding find_text find_byte
find_text-byte c [] = refl
find_text-byte c (x ∷ xs) = ground (arith, find_text-byte c xs)

pub find_text_from-none :
    (c : ℕ) (done rest : Bytes) (pos : ℕ)
    → pos ≡ length done
    → find_byte c rest ≡ none
    → find_text_from (c ∷ []) (done ++ rest) pos ≡ none
unfolding find_text_from
find_text_from-none c done rest pos e h = rw (e, drop-append done rest, find_text-byte c rest, h)

pub find_text_from-some :
    (c : ℕ) (done rest : Bytes) (pos i : ℕ)
    → pos ≡ length done
    → find_byte c rest ≡ some i
    → find_text_from (c ∷ []) (done ++ rest) pos ≡ some (pos + i)
unfolding find_text_from
find_text_from-some c done rest pos i e h = rw (e, drop-append done rest, find_text-byte c rest, h)
