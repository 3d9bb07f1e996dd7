-- ===== src/Registry/Added.antt =====
-- The registry after a new name was given an id.
use native.Mathlib.Nat.{mod-eq_of_lt}
use epics_logfile.Base.{
  ℕ, ◌+◌, ◌%◌, ◌^◌, ◌<◌, ◌≡◌, ◌≢◌, refl, sym, ap, ◌∙◌, subst, inl, inr, true, false, List, [], ◌∷◌,
  none, some, Bytes, bytes_eq, bytes_eq_iff, bytes_eq_refl, ◌==◌, ==_iff, arith, All, Bool-cases,
  ok,
}
use epics_logfile.Base.Map.{nat_key, find, place, emplace, find-emplace_new}
use epics_logfile.Level.{Level}
use epics_logfile.Registry.{
  SubsystemInfo, Registry, find_name, id_or_throw, find_subsystem, add_subsystem,
}

abbrev Table : Type 0
Table = List (ℕ × SubsystemInfo)

-- The ids in use lie below the next free one, and each name belongs to one id.
pub record IsValid (r : Registry) : Type 0 where
  pub ids_below : All (λ p. p.0 < r.next_free_subsystem_id) r.subsystems
  pub names_apart :
      (id : ℕ) (info : SubsystemInfo)
      → find id r.subsystems ≡ some info
      → find_name info.name r.subsystems ≡ some id
  pub ids_named :
      (name : Bytes) (id : ℕ)
      → find_name name r.subsystems ≡ some id
      → (info : SubsystemInfo) × (find id r.subsystems ≡ some info) × (info.name ≡ name)

find_above : (n : ℕ) (m : Table) → All (λ p. p.0 < n) m → find n m ≡ none
unfolding find
find_above n [] h = refl
find_above n (p ∷ m) h = ground (arith, find_above n m h.1)

find_name-place_self :
    (k : ℕ) (info : SubsystemInfo) (m : Table)
    → find_name info.name m ≡ none
    → find_name info.name (place k info m) ≡ some k
unfolding find_name place
find_name-place_self k info [] h = rw bytes_eq_refl
find_name-place_self k info ((j, w) ∷ m) h =
    ground (arith, bytes_eq_refl info.name, find_name-place_self k info m)

find_name-place_other :
    (k : ℕ) (info : SubsystemInfo) (name : Bytes) (m : Table)
    → bytes_eq info.name name ≡ false
    → find_name name (place k info m) ≡ find_name name m
unfolding find_name place
find_name-place_other k info name [] h = rw h
find_name-place_other k info name ((j, w) ∷ m) h =
    ground (arith, h, find_name-place_other k info name m)

All-place :
    (n k : ℕ) (info : SubsystemInfo) (m : Table)
    → All (λ p. p.0 < n) m
    → k < n
    → All (λ p. p.0 < n) (place k info m)
unfolding place
All-place n k info [] h lt = (lt, tt)
All-place n k info ((j, w) ∷ m) h lt = ground (arith, All-place n k info m h.1)

All-raise : (n n' : ℕ) (m : Table) → n < n' → All (λ p. p.0 < n) m → All (λ p. p.0 < n') m
All-raise n n' [] lt h = tt
All-raise n n' (p ∷ m) lt h = (omega arith, All-raise n n' m lt h.1)

pub some_inj : {A : Type 0} (a b : A) → some a ≡ some b → a ≡ b
some_inj a b h = cc

eq_self : (n : ℕ) → (n == n) ≡ true
eq_self n = ground arith

bytes_ne : (a b : Bytes) → a ≢ b → bytes_eq a b ≡ false
bytes_ne a b ne = ground (arith, bytes_eq_iff a b)

-- A name that has no id yet is given the next free one, and nothing else changes.
pub record Added (minimum : Level) (name : Bytes) (r r' : Registry) : Type 0 where
  pub found : find_subsystem name r' ≡ ok r.next_free_subsystem_id
  pub named :
      find r.next_free_subsystem_id r'.subsystems
      ≡ some (record { name = name; min_level = minimum })
  pub others : (other : Bytes) → other ≢ name → find_subsystem other r' ≡ find_subsystem other r
  pub kept :
      (id : ℕ) (info : SubsystemInfo)
      → find id r.subsystems ≡ some info
      → find id r'.subsystems ≡ some info
  pub next : r'.next_free_subsystem_id ≡ r.next_free_subsystem_id + 1
  pub valid : IsValid r'

-- A new entry leaves the old ones.
emplace_kept :
    (n id : ℕ) (new info : SubsystemInfo) (m : Table)
    → find n m ≡ none
    → find id m ≡ some info
    → find id (emplace n new m) ≡ some info
emplace_kept n id new info m free h = elim (Bool-cases (n == id)) [
  | inl same ↦ cc (ap (λ x. find x m) ((==_iff n id).0 same))
  | inr other ↦ find-emplace_new n id new m free ∙ rw other h
]

module _ (minimum : Level) (name : Bytes) (r : Registry) (v : IsValid r)
    (room : r.next_free_subsystem_id + 1 < 2 ^ 32)
    (missing : find_name name r.subsystems ≡ none) where
  abbrev n : ℕ
  n = r.next_free_subsystem_id

  abbrev new : SubsystemInfo
  new = record { name = name; min_level = minimum }

  abbrev m' : Table
  m' = emplace n new r.subsystems

  free : find n r.subsystems ≡ none
  free = find_above n r.subsystems v.ids_below

  placed : m' ≡ place n new r.subsystems
  placed = unfold emplace in rw (free, emplace)

  at_self : find_name name m' ≡ some n
  at_self = ap (find_name name) placed ∙ find_name-place_self n new r.subsystems missing

  at_other :
      (other : Bytes)
      → bytes_eq name other ≡ false
      → find_name other m' ≡ find_name other r.subsystems
  at_other other ne =
      ap (find_name other) placed ∙ find_name-place_other n new other r.subsystems ne

  names_apart_after :
      (id : ℕ) (info : SubsystemInfo) → find id m' ≡ some info → find_name info.name m' ≡ some id
  names_apart_after id info h = elim (Bool-cases (n == id)) [
    | inl same ↦
        let law = find-emplace_new n id new r.subsystems free ∙ rw same in
        let eq : new ≡ info = some_inj new info (sym law ∙ h) in
        ap (λ (x : SubsystemInfo). find_name x.name m') (sym eq)
        ∙ at_self
        ∙ ap some ((==_iff n id).0 same)
    | inr other ↦
        let law : find id m' ≡ find id r.subsystems =
          find-emplace_new n id new r.subsystems free ∙ rw other in
        let old : find_name info.name r.subsystems ≡ some id =
          v.names_apart id info (sym law ∙ h) in
        at_other info.name
          (bytes_ne name info.name (λ e. cc (ap (λ x. find_name x r.subsystems) e, missing, old)))
        ∙ old
  ]

  ids_named_after :
      (other : Bytes) (id : ℕ)
      → find_name other m' ≡ some id
      → (info : SubsystemInfo) × (find id m' ≡ some info) × (info.name ≡ other)
  ids_named_after other id h = elim (Bool-cases (bytes_eq name other)) [
    | inl same ↦
        let eq = (bytes_eq_iff name other).0 same in
        let its : n ≡ id = some_inj n id (sym at_self ∙ ap (λ x. find_name x m') eq ∙ h) in
        (
          new,
          subst (λ x. find x m' ≡ some new) its
              (find-emplace_new n n new r.subsystems free ∙ rw (eq_self n)),
          eq,
        )
    | inr ne ↦
        let (info, hit, its) = v.ids_named other id (sym (at_other other ne) ∙ h) in
        (info, emplace_kept n id new info r.subsystems free hit, its)
  ]

  pub add_subsystem-Added : Added minimum name r (add_subsystem minimum name r).0
  unfolding add_subsystem find_subsystem
  add_subsystem-Added =
      let next : (n + 1) % 2 ^ 32 ≡ n + 1 = mod-eq_of_lt room in
      record {
        found = ap id_or_throw at_self;
        named = find-emplace_new n n new r.subsystems free ∙ rw (eq_self n);
        others =
            λ other ne. ap id_or_throw (at_other other (bytes_ne name other (λ e. ne (sym e))));
        kept = λ id info h. emplace_kept n id new info r.subsystems free h;
        next = next;
        valid = record {
          ids_below =
              rw (placed, next)
                (All-place (n + 1) n new r.subsystems
                  (All-raise n (n + 1) r.subsystems (omega arith) v.ids_below) (omega arith));
          names_apart = names_apart_after;
          ids_named = ids_named_after;
        };
      }
