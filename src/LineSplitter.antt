-- ===== src/LineSplitter.antt =====
-- line_splitter.h, line_splitter.cpp: text that comes in blocks, handed on line by line. The
-- object is its unfinished line; what m_sink is called with is the list of lines.
pub mod Lines
use epics_logfile.Base.{
  ℕ, zero, suc, List, [], ◌∷◌, ◌++◌, Option, none, some, Bytes, is_empty, length, take, drop,
  find_byte, if◌then◌else◌,
}

-- The loop of read_and_forward, from `sol`: the lines handed on, and the new m_active_line.
-- `none` means that the fuel ran out.
forward : ℕ → Bytes → List Bytes → Bytes → Option (List Bytes × Bytes)
forward zero active out buf = none
forward (suc fuel) active out buf = elim (find_byte b'\n' buf) [
  | none ↦ some (out, active ++ buf)
  | some lf ↦
      let out' = out ++ (active ++ take lf buf) ∷ [] in
      let sol = drop (suc lf) buf in
      let rest = forward fuel [] out' sol in if is_empty sol then some (out', []) else rest
]

-- read_and_forward: each round takes at least one byte.
unfoldable pub read_and_forward : Bytes → Bytes → Option (List Bytes × Bytes)
unfolding forward
read_and_forward active buf = forward (suc (length buf)) active [] buf

-- The destructor: what is left is a line.
unfoldable pub flush : Bytes → List Bytes
flush active = if is_empty active then [] else active ∷ []

-- A splitter's whole life: blocks, and then its end.
unfoldable pub feed : Bytes → List Bytes → Option (List Bytes)
unfolding read_and_forward flush
feed active [] = some (flush active)
feed active (buf ∷ bufs) = elim (read_and_forward active buf) [
  | none ↦ none
  | some (out, active') ↦ elim (feed active' bufs) [ none ↦ none | some more ↦ some (out ++ more) ]
]
