-- ===== src/Epics/Commands.antt =====
-- What the two commands that set a minimum level do to the logger.
use epics_logfile.Base.{
  ℕ, ◌≡◌, ◌≢◌, ◌⊎◌, refl, inl, inr, false, List, [], ◌∷◌, ◌++◌, none, some, Bytes, codes, ok, throw,
  ◌==◌, invalid_argument, arith, Option-cases, Bool-cases,
}
use epics_logfile.Base.Map.{nat_key, bytes_key, find}
use epics_logfile.Level.{
  Level, level_name, level_by_name, all_levels, level_names, name_at, level_eq, level_lt, severity,
}
use epics_logfile.Level.Laws.{level_by_name_exact}
use epics_logfile.OutputStream.{OutputStream}
use epics_logfile.LogThread.{LogThread, store}
use epics_logfile.Registry.{SubsystemInfo, Registry, find_name, find_subsystem}
use epics_logfile.Registry.Laws.{set_subsystem_min_log_level_lem}
use epics_logfile.Logger.{Logger, set_stream_min_log_level, set_level_at}
use epics_logfile.Epics.{
  level_lines, set_stream_level, unknown_level, set_level_or_complain, logfile_set_min_level,
  set_subsystem_level, set_named_subsystem, logfile_set_subsystem_min_level,
}

abbrev no_stream_text : Bytes → Bytes
no_stream_text stream = codes "Unknown output stream '" ++ (stream ++ codes "'\n")

abbrev no_level_text : Bytes → Bytes → Bytes
no_level_text level lines =
    codes "Unknown log level '" ++ (level ++ (codes "'\nKnown levels are:" ++ lines))

level_lines-ok : (lines : Bytes) × (level_lines all_levels ≡ ok lines)
unfolding level_lines all_levels level_names level_name name_at level_eq level_lt severity
level_lines-ok = (_, refl)

module _ {S : Type 0} (stream level : Bytes) (l : Logger S) (t : LogThread S) where
  -- The command sets the level of just this stream, writes nothing, ...
  abbrev pub Sets : Type 0
  Sets =
      (m : Level) × (a : ℕ) × (o : OutputStream S) × (level_by_name level ≡ ok m)
      × (find stream t.streams ≡ some a)
      × (t.heap a ≡ some o)
      × (logfile_set_min_level (some stream) (some level) l
          ≡ some (
            record l {
              thread =
                  some (record t { heap = store t.heap a (some (record o { min_log_level = m })) });
            },
            [],
          ))

  -- ... or it changes nothing and writes that there is no such stream, ...
  abbrev pub NoStream : Type 0
  NoStream =
      (m : Level) × (level_by_name level ≡ ok m)
      × (find stream t.streams ≡ none)
      × (logfile_set_min_level (some stream) (some level) l ≡ some (l, no_stream_text stream))

  -- ... or no such level, with the names of all levels.
  abbrev pub NoLevel : Type 0
  NoLevel =
      (lines : Bytes) × ((m : Level) → level_name m ≢ ok level)
      × (level_lines all_levels ≡ ok lines)
      × (logfile_set_min_level (some stream) (some level) l ≡ some (l, no_level_text level lines))

  -- On a running logger in which no stream of this name is deleted, logSetMinLevel with both
  -- arguments sets the level of just that stream and writes nothing, or it changes nothing: then it
  -- writes that there is no such stream, or that there is no such level, and all the levels' names.
  pub logfile_set_min_level_lem :
      l.thread ≡ some t
      → ((a : ℕ) → find stream t.streams ≡ some a → (o : OutputStream S) × (t.heap a ≡ some o))
      → Sets ⊎ (NoStream ⊎ NoLevel)
  unfolding logfile_set_min_level
  logfile_set_min_level_lem run live = elim (level_by_name_exact level) [
    | inl (m, known, name) ↦ elim (Option-cases (find stream t.streams)) [
      | inl free ↦ inr (
          inl (
            m,
            known,
            free,
            rw (known, set_level_or_complain)
                (rw (run, set_stream_level) (rw (free, set_stream_min_log_level) refl)),
          ))
      | inr (a, hit) ↦
          let (o, there) = live a hit in
          inl (
            m,
            a,
            o,
            known,
            hit,
            there,
            rw (known, set_level_or_complain)
                (rw (run, set_stream_level)
                  (rw (hit, set_stream_min_log_level) (rw (there, set_level_at) refl))),
          )
    ]
    | inr (unknown, none_named) ↦
        let (lines, el) = level_lines-ok in
        inr (
          inr (
            lines,
            none_named,
            el,
            rw (unknown, set_level_or_complain) (rw (el, unknown_level) refl),
          ))
  ]

-- The first id of a name is the key of an entry.
find_name-find :
    (name : Bytes) (m : List (ℕ × SubsystemInfo)) (id : ℕ)
    → find_name name m ≡ some id
    → (info : SubsystemInfo) × (find id m ≡ some info)
unfolding find_name find
find_name-find name [] id h = ground arith
find_name-find name ((j, info) ∷ m) id h = elim (Bool-cases (j == id)) [
  | inl same ↦ (info, rw same refl)
  | inr other ↦
      let later : find_name name m ≡ some id = ground arith in
      let (found, there) = find_name-find name m id later in (found, rw other there)
]

not_found :
    (name : Bytes) (r : Registry)
    → find_name name r.subsystems ≡ none
    → find_subsystem name r ≡ throw (invalid_argument (codes "Unknown subsystem name."))
unfolding find_subsystem
not_found name r h = rw h refl

found_id :
    (name : Bytes) (r : Registry) (id : ℕ)
    → find_name name r.subsystems ≡ some id
    → find_subsystem name r ≡ ok id
unfolding find_subsystem
found_id name r id h = rw h refl

both :
    (id : ℕ) (m : List (ℕ × SubsystemInfo)) {info : SubsystemInfo}
    → find id m ≡ none
    → find id m ≡ some info
    → ⊥
both id m a b = ground arith

module _ {S : Type 0} (subsystem level : Bytes) (l : Logger S) where
  -- On a logger with this level and subsystem, the command sets the subsystem's level.
  abbrev SetsSubsystem : Type 0
  SetsSubsystem =
      (m : Level) × (id : ℕ) × (info : SubsystemInfo) × (r : Registry) × (level_by_name level
        ≡ ok m)
      × (find_subsystem subsystem l.registry ≡ ok id)
      × (find id l.registry.subsystems ≡ some info)
      × (logfile_set_subsystem_min_level (some subsystem) (some level) l
          ≡ some (record l { registry = r }, []))
      × (find id r.subsystems ≡ some (record { name = info.name; min_level = m }))
      × ((j : ℕ) → (id == j) ≡ false → find j r.subsystems ≡ find j l.registry.subsystems)

  -- logSetSubsystemMinLevel with both arguments never fails and never writes a message. If there is
  -- such a level and such a subsystem, that subsystem has the level and its old name, and all
  -- others are as before. Otherwise nothing is changed.
  logfile_set_subsystem_min_level_lem :
      SetsSubsystem
      ⊎ ((((m : Level) → level_name m ≢ ok level)
            ⊎ (find_name subsystem l.registry.subsystems ≡ none))
          × (logfile_set_subsystem_min_level (some subsystem) (some level) l ≡ some (l, [])))
  unfolding logfile_set_subsystem_min_level
  logfile_set_subsystem_min_level_lem = elim (level_by_name_exact level) [
    | inr (unknown, none_named) ↦ inr (inl none_named, rw (unknown, set_named_subsystem) refl)
    | inl (m, known, name) ↦ elim (Option-cases (find_name subsystem l.registry.subsystems)) [
      | inl missing ↦ inr (
        inr missing,
        rw (known, set_named_subsystem)
            (rw (not_found subsystem l.registry missing, set_subsystem_level) refl),
      )
      | inr (id, hit) ↦
          let (info, there) = find_name-find subsystem l.registry.subsystems id hit in
          let found = found_id subsystem l.registry id hit in
          elim (set_subsystem_min_log_level_lem id m l.registry) [
            | inl (gone, fault) ↦ absurd (both id l.registry.subsystems gone there)
            | inr (old, r, at, done, new, others, free) ↦ inl (
              m,
              id,
              old,
              r,
              known,
              found,
              at,
              rw (known, set_named_subsystem) (rw (found, set_subsystem_level) (rw done refl)),
              new,
              others,
            )
          ]
    ]
  ]
