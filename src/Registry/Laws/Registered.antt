-- ===== src/Registry/Laws/Registered.antt =====
-- What becomes of a registered subsystem.
use epics_logfile.Base.{
  ℕ, ◌+◌, ◌^◌, ◌<◌, ◌≤◌, ◌≡◌, sym, ap, ◌∙◌, false, List, [], ◌∷◌, some, inl, inr, Bytes, length,
  ◌==◌, arith, Option-cases, ok,
}
use epics_logfile.Base.Map.{nat_key, find}
use epics_logfile.Level.{Level}
use epics_logfile.Registry.{
  SubsystemInfo, Registry, find_name, id_or_throw, find_subsystem, register_subsystem,
  set_subsystem_min_log_level,
}
use epics_logfile.Registry.Added.{IsValid, some_inj, add_subsystem-Added}
use epics_logfile.Registry.Laws.{
  register_new, register_old, register_subsystem-IsValid, register_subsystem_merges,
  set_subsystem_min_log_level_lem,
}
use epics_logfile.Registry.Registrator.{new_registrator, subsystem, set_min_log_level, register_all}

-- The name has the id, and the id has an entry of that name.
pub record Registered (name : Bytes) (id : ℕ) (r : Registry) : Type 0 where
  pub found : find_subsystem name r ≡ ok id
  pub info : SubsystemInfo
  pub entry : find id r.subsystems ≡ some info
  pub named : info.name ≡ name

-- A registration, for the registry, keeps what was registered before.
record Extends (r r' : Registry) : Type 0 where
  still : (name : Bytes) (id : ℕ) → Registered name id r → Registered name id r'
  room : r'.next_free_subsystem_id ≤ r.next_free_subsystem_id + 1
  valid : IsValid r'

found_name :
    (name : Bytes) (id : ℕ) (r : Registry)
    → find_subsystem name r ≡ ok id
    → find_name name r.subsystems ≡ some id
unfolding find_subsystem id_or_throw
found_name name id r h = elim (Option-cases (find_name name r.subsystems)) [
  | inl missing ↦ ground (arith, rw (missing, find_subsystem) at h)
  | inr (i, hit) ↦ let same : i ≡ id = cc (rw (hit, find_subsystem) at h) in hit ∙ ap some same
]

register_subsystem-Extends :
    (minimum : Level) (name : Bytes) (r : Registry)
    → IsValid r
    → r.next_free_subsystem_id + 1 < 2 ^ 32
    → Extends r (register_subsystem minimum name r).0
unfolding find_subsystem
register_subsystem-Extends minimum name r v room =
    elim (Option-cases (find_name name r.subsystems)) [
      | inl missing ↦
          let a = add_subsystem-Added minimum name r v room missing in
          rw (register_new minimum name r missing) (record {
            still = λ other id g. record {
              found =
                  a.others other (λ e. cc (missing, e, found_name other id r g.found)) ∙ g.found;
              info = g.info;
              entry = a.kept id g.info g.entry;
              named = g.named;
            };
            room = rw a.next (omega arith);
            valid = a.valid;
          })
      | inr (id, hit) ↦
          rw (register_old minimum name r id (ap id_or_throw hit))
            (record { still = λ other i g. g; room = omega arith; valid = v })
    ]

register_all-keeps :
    (minimum : Level) (names : List Bytes) (r : Registry)
    → IsValid r
    → r.next_free_subsystem_id + length names < 2 ^ 32
    → let r' = (register_all minimum names r).0 in
      ((name : Bytes) (id : ℕ) → Registered name id r → Registered name id r') × IsValid r'
unfolding register_all new_registrator
register_all-keeps minimum [] r v room = (λ name id g. g, v)
register_all-keeps minimum (n ∷ names) r v room =
    let first = register_subsystem-Extends minimum n r v (omega arith) in
    let (still, valid) =
      register_all-keeps minimum names (register_subsystem minimum n r).0 first.valid
        (omega (arith, first.room)) in
    (λ name id g. still name id (first.still name id g), valid)

register_subsystem-Registered :
    (minimum : Level) (name : Bytes) (r : Registry)
    → IsValid r
    → r.next_free_subsystem_id + 1 < 2 ^ 32
    → let (r', id) = register_subsystem minimum name r in Registered name id r'
register_subsystem-Registered minimum name r v room =
    let (r', id) = register_subsystem minimum name r in
    let found = (register_subsystem_merges minimum minimum name r v room).0 in
    let (info, entry, named) =
      (register_subsystem-IsValid minimum name r v room).ids_named name id
        (found_name name id r' found) in
    record { found = found; info = info; entry = entry; named = named }

Registered-only :
    (name other : Bytes) (id : ℕ) (r : Registry)
    → IsValid r
    → Registered name id r
    → find_subsystem other r ≡ ok id
    → other ≡ name
Registered-only name other id r v g h =
    let (info, entry, named) = v.ids_named other id (found_name other id r h) in
    let same : info ≡ g.info = some_inj info g.info (sym entry ∙ g.entry) in
    sym named ∙ ap (λ (x : SubsystemInfo). x.name) same ∙ g.named

Registered-set_min_log_level :
    (level : Level) (name : Bytes) (id : ℕ) (r : Registry)
    → Registered name id r
    → (r' : Registry) × (set_subsystem_min_log_level id level r ≡ some r')
      × (find id r'.subsystems ≡ some (record { name = name; min_level = level }))
      × ((j : ℕ) → (id == j) ≡ false → find j r'.subsystems ≡ find j r.subsystems)
Registered-set_min_log_level level name id r g = elim (set_subsystem_min_log_level_lem id level r) [
  | inl (missing, fails) ↦ cc (g.entry, missing)
  | inr (info, r', hit, step, at_id, others, next) ↦
      let same : info ≡ g.info = some_inj info g.info (sym hit ∙ g.entry) in
      let named : info.name ≡ name = ap (λ (x : SubsystemInfo). x.name) same ∙ g.named in
      (r', step, at_id ∙ rw named, others)
]

-- After a registrator was made, and others after it, its operator() gives an id under which the
-- registry has its name, and no other name has that id. A second registrator of the name gives the
-- same id and changes nothing. set_min_log_level finds the entry, gives it the new level, and
-- leaves all other entries. There must be room for the ids.
pub registrator_lem :
    (minimum level : Level) (name : Bytes) (later : List Bytes) (r : Registry)
    → IsValid r
    → r.next_free_subsystem_id + length (name ∷ later) < 2 ^ 32
    → let (r1, g) = new_registrator minimum name r in
      let r2 = (register_all minimum later r1).0 in
      (new_registrator minimum name r2 ≡ (r2, g))
      × ((other : Bytes) → find_subsystem other r2 ≡ ok (subsystem g) → other ≡ name)
      × (r3 : Registry) × (set_min_log_level level g r2 ≡ some r3)
      × (find (subsystem g) r3.subsystems ≡ some (record { name = name; min_level = level }))
      × ((j : ℕ) → (subsystem g == j) ≡ false → find j r3.subsystems ≡ find j r2.subsystems)
unfolding new_registrator subsystem set_min_log_level
registrator_lem minimum level name later r v room =
    let (r1, id) = register_subsystem minimum name r in
    let r2 = (register_all minimum later r1).0 in
    let first = register_subsystem-Extends minimum name r v (omega arith) in
    let (still, valid) =
      register_all-keeps minimum later r1 first.valid (omega (arith, first.room)) in
    let g = still name id (register_subsystem-Registered minimum name r v (omega arith)) in
    let (r3, step, at_id, others) = Registered-set_min_log_level level name id r2 g in
    (
      rw (register_old minimum name r2 id g.found),
      λ other h. Registered-only name other id r2 valid g h,
      r3,
      step,
      at_id,
      others,
    )
