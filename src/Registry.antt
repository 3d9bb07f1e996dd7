-- ===== src/Registry.antt =====
-- logger.h, logger.cpp, logger_private.h: the registered subsystems. Ids are unsigned ints of 32
-- bits. A failed assert is `none`.
pub mod Added
pub mod Laws
pub mod Registrator
use epics_logfile.Base.{
  ℕ, ◌+◌, ◌%◌, ◌^◌, Bool, List, [], ◌∷◌, Option, none, some, Bytes, codes, bytes_eq, if◌then◌else◌,
  Result, ok, throw, Exception, invalid_argument,
}
use epics_logfile.Base.Map.{nat_key, find, emplace, assign}
use epics_logfile.Level.{Level}

pub record SubsystemInfo : Type 0 where
  pub name : Bytes
  pub min_level : Level

-- logger_private, but for the log thread.
pub record Registry : Type 0 where
  pub subsystems : List (ℕ × SubsystemInfo)
  pub next_free_subsystem_id : ℕ

abbrev pub no_subsystems : Registry
no_subsystems = record { subsystems = []; next_free_subsystem_id = 0 }

-- std::find_if over the map.
unfoldable pub find_name : Bytes → List (ℕ × SubsystemInfo) → Option ℕ
find_name name [] = none
find_name name ((id, info) ∷ rest) =
    let later = find_name name rest in if bytes_eq info.name name then some id else later

unfoldable pub id_or_throw : Option ℕ → Result ℕ
id_or_throw (some id) = ok id
id_or_throw none = throw (invalid_argument (codes "Unknown subsystem name."))

-- logger::find_subsystem.
unfoldable pub find_subsystem : Bytes → Registry → Result ℕ
unfolding find_name id_or_throw
find_subsystem name r = id_or_throw (find_name name r.subsystems)

-- The part of register_subsystem behind the `try`; `minimum` is SuS_LOG_MINLEVEL.
unfoldable pub add_subsystem : Level → Bytes → Registry → Registry × ℕ
add_subsystem minimum name r =
    let new_id = r.next_free_subsystem_id in
    (
      record {
        subsystems = emplace new_id (record { name = name; min_level = minimum }) r.subsystems;
        next_free_subsystem_id = (new_id + 1) % 2 ^ 32;
      },
      new_id,
    )

-- logger::register_subsystem. The handler takes std::invalid_argument, all that find_subsystem
-- throws.
unfoldable pub register_subsystem : Level → Bytes → Registry → Registry × ℕ
unfolding find_subsystem add_subsystem
register_subsystem minimum name r = elim (find_subsystem name r) [
  | ok id ↦ (r, id)
  | throw e ↦ add_subsystem minimum name r
]

-- logger::set_subsystem_min_log_level.
unfoldable pub set_subsystem_min_log_level : ℕ → Level → Registry → Option Registry
set_subsystem_min_log_level id level r = elim (find id r.subsystems) [
  | none ↦ none
  | some info ↦
      some (record r { subsystems = assign id (record info { min_level = level }) r.subsystems })
]
