-- ===== src/Registry/Registrator.antt =====
-- subsystem_registrator.h, subsystem_registrator.cpp: an object that registers a subsystem, as a
-- rule before main. It calls the logger that logger::instance gives, which is an argument here.
use epics_logfile.Base.{ℕ, List, [], ◌∷◌, Bytes, Option}
use epics_logfile.Base.Map.{nat_key}
use epics_logfile.Level.{Level}
use epics_logfile.Registry.{Registry, register_subsystem, set_subsystem_min_log_level}

pub record Registrator : Type 0 where
  pub m_subsystem : ℕ

-- The constructor.
unfoldable pub new_registrator : Level → Bytes → Registry → Registry × Registrator
unfolding register_subsystem
new_registrator minimum name r =
    let (r', id) = register_subsystem minimum name r in (r', record { m_subsystem = id })

-- operator().
unfoldable pub subsystem : Registrator → ℕ
subsystem g = g.m_subsystem

-- subsystem_registrator::set_min_log_level.
unfoldable pub set_min_log_level : Level → Registrator → Registry → Option Registry
unfolding set_subsystem_min_log_level
set_min_log_level level g r = set_subsystem_min_log_level g.m_subsystem level r

-- The registrators of a program, one after the other.
unfoldable pub register_all : Level → List Bytes → Registry → Registry × List Registrator
unfolding new_registrator
register_all minimum [] r = (r, [])
register_all minimum (name ∷ names) r =
    let (r', g) = new_registrator minimum name r in
    let (r'', gs) = register_all minimum names r' in (r'', g ∷ gs)
