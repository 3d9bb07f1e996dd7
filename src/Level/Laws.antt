-- ===== src/Level/Laws.antt =====
-- The order of the levels, and their names as a dictionary in both directions.
use epics_logfile.Base.{
  ◌≡◌, ◌≢◌, ◌⊎◌, refl, inl, inr, false, List, [], ◌∷◌, All, ap, ◌∙◌, Bytes, bytes_eq, bytes_eq_iff,
  codes, arith, ok, throw, invalid_argument, Bool-cases,
}
use epics_logfile.Level.{
  Level, finest, finer, fine, config, info, warning, severe, level_lt, level_names, level_named,
  level_name, level_by_name,
}

level_lt_irrefl : (l : Level) → level_lt l l ≡ false
unfolding level_lt
level_lt_irrefl l = ground arith

-- Every level has a name, and level_by_name takes that name back to the level.
level_by_name-level_name :
    (l : Level) → (name : Bytes) × (level_name l ≡ ok name) × (level_by_name name ≡ ok l)
unfolding level_name level_by_name bytes_eq
level_by_name-level_name finest = (codes "finest", refl, refl)
level_by_name-level_name finer = (codes "finer", refl, refl)
level_by_name-level_name fine = (codes "fine", refl, refl)
level_by_name-level_name config = (codes "config", refl, refl)
level_by_name-level_name info = (codes "info", refl, refl)
level_by_name-level_name warning = (codes "warning", refl, refl)
level_by_name-level_name severe = (codes "severe", refl, refl)

abbrev IsNamed : Level × Bytes → Type 0
IsNamed p = level_name p.0 ≡ ok p.1

All-IsNamed : All IsNamed level_names
unfolding level_name level_names
All-IsNamed = (refl, (refl, (refl, (refl, (refl, (refl, (refl, tt)))))))

not_both : (a b : Bytes) → bytes_eq b a ≡ false → b ≡ a → ⊥
not_both a b miss e = cc ((bytes_eq_iff b a).1 e)

level_named-cases :
    (name : Bytes) (ms : List (Level × Bytes))
    → ((l : Level) × (level_named name ms ≡ ok l) × (All IsNamed ms → level_name l ≡ ok name))
      ⊎ ((level_named name ms ≡ throw (invalid_argument (codes "Unknown level name.")))
          × All (λ p. p.1 ≢ name) ms)
unfolding level_named
level_named-cases name [] = inr (refl, tt)
level_named-cases name ((l, n) ∷ ms) = elim (Bool-cases (bytes_eq n name)) [
  | inl hit ↦ inl (l, rw hit, λ a. a.0 ∙ ap ok ((bytes_eq_iff n name).0 hit))
  | inr miss ↦ elim (level_named-cases name ms) [
    | inl (k, e, look) ↦ inl (k, rw miss e, λ a. look a.1)
    | inr (e, rest) ↦ inr (rw miss e, (λ same. not_both name n miss same, rest))
  ]
]

missed : (name : Bytes) (l : Level) → All (λ p. p.1 ≢ name) level_names → level_name l ≡ ok name → ⊥
unfolding level_name level_names
missed name finest a h = a.0 cc
missed name finer a h = a.1.0 cc
missed name fine a h = a.1.1.0 cc
missed name config a h = a.1.1.1.0 cc
missed name info a h = a.1.1.1.1.0 cc
missed name warning a h = a.1.1.1.1.1.0 cc
missed name severe a h = a.1.1.1.1.1.1.0 cc

-- level_by_name accepts a text exactly when it is the name of some level, and then returns that
-- level; on any other text it throws std::invalid_argument.
pub level_by_name_exact :
    (name : Bytes)
    → ((l : Level) × (level_by_name name ≡ ok l) × (level_name l ≡ ok name))
      ⊎ ((level_by_name name ≡ throw (invalid_argument (codes "Unknown level name.")))
          × ((l : Level) → level_name l ≡ ok name → ⊥))
unfolding level_by_name level_named
level_by_name_exact name = elim (level_named-cases name level_names) [
  | inl (l, e, look) ↦ inl (l, e, look All-IsNamed)
  | inr (e, miss) ↦ inr (e, λ l h. missed name l miss h)
]
