-- ===== src/Level.antt =====
-- logger.h, logger.cpp, logger_private.cpp: the log levels and their names.
pub mod Laws
use epics_logfile.Base.{
  ℕ, Bool, not, ◌&&◌, List, [], ◌∷◌, map, codes, Bytes, bytes_eq, ltb, if◌then◌else◌, Result, ok,
  throw, invalid_argument, out_of_range,
}

-- enum class log_level.
pub data Level : Type 0 where
  finest finer fine config info warning severe : Level

-- The enumerators' values, by which `<` compares.
unfoldable pub severity : Level → ℕ
severity finest = 0
severity finer = 1
severity fine = 2
severity config = 3
severity info = 4
severity warning = 5
severity severe = 6

unfoldable pub level_lt : Level → Level → Bool
unfolding severity
level_lt a b = ltb (severity a) (severity b)

-- logger_private::s_level_names, in the order of its keys.
unfoldable pub level_names : List (Level × Bytes)
level_names =
    (finest, codes "finest")
    ∷ (finer, codes "finer")
    ∷ (fine, codes "fine")
    ∷ (config, codes "config")
    ∷ (info, codes "info")
    ∷ (warning, codes "warning")
    ∷ (severe, codes "severe")
    ∷ []

-- Neither is less: what std::map takes for the same key.
unfoldable pub level_eq : Level → Level → Bool
unfolding level_lt
level_eq a b = not (level_lt a b) && not (level_lt b a)

-- s_level_names.at(_l).
unfoldable pub name_at : Level → List (Level × Bytes) → Result Bytes
unfolding level_eq
name_at l [] = throw (out_of_range (codes "map::at"))
name_at l ((k, name) ∷ rest) = if level_eq k l then ok name else name_at l rest

unfoldable pub level_name : Level → Result Bytes
unfolding name_at level_names
level_name l = name_at l level_names

-- The loop of level_by_name.
level_named : Bytes → List (Level × Bytes) → Result Level
level_named name [] = throw (invalid_argument (codes "Unknown level name."))
level_named name ((l, n) ∷ rest) = if bytes_eq n name then ok l else level_named name rest

unfoldable pub level_by_name : Bytes → Result Level
unfolding level_named level_names
level_by_name name = level_named name level_names

unfoldable pub all_levels : List Level
unfolding level_names
all_levels = map (λ i. i.0) level_names
