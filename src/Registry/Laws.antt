-- ===== src/Registry/Laws.antt =====
-- Registration: one id for each name, and one name for each id.
pub mod Registered
use native.Mathlib.Nat.{mod-eq_of_lt}
use epics_logfile.Base.{
  ℕ, ◌+◌, ◌%◌, ◌^◌, ◌<◌, ◌≡◌, ◌≢◌, ◌⊎◌, refl, sym, ap, ◌∙◌, subst, inl, inr, true, false, List, [],
  ◌∷◌, none, some, Bytes, bytes_eq, bytes_eq_iff, bytes_eq_refl, ◌==◌, ==_iff, arith, All,
  Bool-cases, Option-cases, ok,
}
use epics_logfile.Base.Map.{
  nat_key, find, place, emplace, emplace_old, assign, find-emplace_new, find-assign_self,
  find-assign_other,
}
use epics_logfile.Level.{Level}
use epics_logfile.Registry.{
  SubsystemInfo, Registry, find_name, id_or_throw, find_subsystem, add_subsystem,
  register_subsystem, set_subsystem_min_log_level,
}
use epics_logfile.Registry.Added.{IsValid, Added, some_inj, add_subsystem-Added}

register_new :
    (minimum : Level) (name : Bytes) (r : Registry)
    → find_name name r.subsystems ≡ none
    → register_subsystem minimum name r ≡ add_subsystem minimum name r
unfolding register_subsystem find_subsystem
register_new minimum name r h = rw (h, register_subsystem)

register_old :
    (minimum : Level) (name : Bytes) (r : Registry) (id : ℕ)
    → find_subsystem name r ≡ ok id
    → register_subsystem minimum name r ≡ (r, id)
unfolding register_subsystem
register_old minimum name r id h = rw (h, register_subsystem)

-- Registering a name, with room for one more id, keeps the ids and names apart.
pub register_subsystem-IsValid :
    (minimum : Level) (name : Bytes) (r : Registry)
    → IsValid r
    → r.next_free_subsystem_id + 1 < 2 ^ 32
    → IsValid (register_subsystem minimum name r).0
register_subsystem-IsValid minimum name r v room =
    elim (Option-cases (find_name name r.subsystems)) [
      | inl missing ↦
          rw (register_new minimum name r missing)
            (add_subsystem-Added minimum name r v room missing).valid
      | inr (id, hit) ↦
          rw (register_old minimum name r id (unfold find_subsystem in ap id_or_throw hit)) v
    ]

-- After a registration the name is found under the id that was returned, a second registration
-- returns the same id and changes nothing, and every other name is found as before.
pub register_subsystem_merges :
    (minimum minimum' : Level) (name : Bytes) (r : Registry)
    → IsValid r
    → r.next_free_subsystem_id + 1 < 2 ^ 32
    → let (r', id) = register_subsystem minimum name r in
      (find_subsystem name r' ≡ ok id)
      × (register_subsystem minimum' name r' ≡ (r', id))
      × ((other : Bytes) → other ≢ name → find_subsystem other r' ≡ find_subsystem other r)
unfolding add_subsystem
register_subsystem_merges minimum minimum' name r v room =
    elim (Option-cases (find_name name r.subsystems)) [
      | inl missing ↦
          let a = add_subsystem-Added minimum name r v room missing in
          rw (register_new minimum name r missing)
            (a.found, register_old minimum' name _ _ a.found, a.others)
      | inr (id, hit) ↦
          let h : find_subsystem name r ≡ ok id = unfold find_subsystem in ap id_or_throw hit in
          rw (register_old minimum name r id h)
            (h, register_old minimum' name r id h, λ other ne. refl)
    ]

-- With no id left to give out, a new name is given an id that belongs to another subsystem: the
-- counter has wrapped around to an id in use, and emplace keeps the old entry.
register_wrapped :
    (minimum : Level) (name : Bytes) (r : Registry) (old : SubsystemInfo)
    → find r.next_free_subsystem_id r.subsystems ≡ some old
    → find_name name r.subsystems ≡ none
    → let (r', id) = register_subsystem minimum name r in
      (id ≡ r.next_free_subsystem_id) × (r'.subsystems ≡ r.subsystems)
unfolding add_subsystem
register_wrapped minimum name r old used missing =
    rw (register_new minimum name r missing)
      (refl, emplace_old r.next_free_subsystem_id _ r.subsystems used)

-- Setting a minimum level asserts that the id is registered. Then that subsystem has the new level
-- and its old name, and the entries of all other ids and the next free id are as before.
pub set_subsystem_min_log_level_lem :
    (id : ℕ) (level : Level) (r : Registry)
    → ((find id r.subsystems ≡ none) × (set_subsystem_min_log_level id level r ≡ none))
      ⊎ ((info : SubsystemInfo) × (r' : Registry) × (find id r.subsystems ≡ some info)
          × (set_subsystem_min_log_level id level r ≡ some r')
          × (find id r'.subsystems ≡ some (record { name = info.name; min_level = level }))
          × ((j : ℕ) → (id == j) ≡ false → find j r'.subsystems ≡ find j r.subsystems)
          × (r'.next_free_subsystem_id ≡ r.next_free_subsystem_id))
unfolding set_subsystem_min_log_level
set_subsystem_min_log_level_lem id level r = elim (Option-cases (find id r.subsystems)) [
  | inl missing ↦ inl (missing, rw (missing, set_subsystem_min_log_level))
  | inr (info, hit) ↦
      let new : SubsystemInfo = record info { min_level = level } in
      inr (
        info,
        record r { subsystems = assign id new r.subsystems },
        hit,
        rw (hit, set_subsystem_min_log_level),
        find-assign_self id new info r.subsystems hit,
        λ j ne. find-assign_other id j new r.subsystems ne,
        refl,
      )
]
