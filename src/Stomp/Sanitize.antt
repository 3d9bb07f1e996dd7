-- ===== src/Stomp/Sanitize.antt =====
-- replace_all and sanitize_string.
use epics_logfile.Base.{
  ℕ, zero, suc, ◌+◌, List, [], ◌∷◌, ◌++◌, Option, none, some, Bytes, codes, length, take, drop,
  find_text_from,
}

-- The loop of replace_all. `none` means that the fuel ran out.
unfoldable pub replace_from : ℕ → Bytes → Bytes → Bytes → ℕ → Option Bytes
replace_from zero pattern new str pos = none
replace_from (suc fuel) pattern new str pos = elim (find_text_from pattern str pos) [
  | none ↦ some str
  | some found ↦
      replace_from fuel pattern new (take found str ++ (new ++ drop (found + length pattern) str))
        (found + length new)
]

-- replace_all: a round takes at least one byte of `str`, if the pattern is not empty.
unfoldable pub replace_all : Bytes → Bytes → Bytes → Option Bytes
unfolding replace_from
replace_all str pattern new = replace_from (suc (length str)) pattern new str 0

-- The entries of the map `replacements`. Its keys are pointers, so that their order is open: it is
-- an argument below.
pub data Entity : Type 0 where
  quot apos lt gt : Entity

abbrev pub replacements : List Entity
replacements = quot ∷ apos ∷ lt ∷ gt ∷ []

unfoldable pub pattern_byte : Entity → ℕ
pattern_byte quot = b'"'
pattern_byte apos = b'\''
pattern_byte lt = b'<'
pattern_byte gt = b'>'

unfoldable pub entity_text : Entity → Bytes
entity_text quot = codes "&quot;"
entity_text apos = codes "&apos;"
entity_text lt = codes "&lt;"
entity_text gt = codes "&gt;"

-- The loop over the map.
unfoldable pub replace_each : List Entity → Bytes → Option Bytes
unfolding pattern_byte entity_text
replace_each [] cur = some cur
replace_each (e ∷ order) cur = elim (replace_all cur (pattern_byte e ∷ []) (entity_text e)) [
  | none ↦ none
  | some next ↦ replace_each order next
]

unfoldable pub sanitize_string : List Entity → Bytes → Option Bytes
unfolding replace_each
sanitize_string order s = elim (replace_all s (codes "&") (codes "&amp;")) [
  | none ↦ none
  | some cur ↦ elim (replace_each order cur) [
    | none ↦ none
    | some cur' ↦ replace_all cur' (0 ∷ []) (codes "\\0")
  ]
]
