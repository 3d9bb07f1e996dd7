-- ===== src/Base/Map.antt =====
-- std::map as an association list in the order of its keys.
use Prim.Native.Nat.{ℕ}
use mathlib.Core.Path.{◌≡◌, refl}
use mathlib.Core.Bool.{Bool, true, false}
use mathlib.Core.List.{List, [], ◌∷◌}
use mathlib.Core.Logic.{◌↔◌}
use mathlib.Core.Option.{Option, none, some}
use native.Mathlib.Omega.{arith}
use epics_logfile.Base.Tests.{◌==◌, ==_iff, ltb, if◌then◌else◌}
use epics_logfile.Base.Text.{Bytes, bytes_eq, bytes_eq_iff}

-- The order that std::map sorts by, and the equality that it comes down to.
pub record Key (K : Type 0) : Type 0 where
  pub same : K → K → Bool
  pub below : K → K → Bool
  pub same_iff : (a b : K) → (same a b ≡ true) ↔ (a ≡ b)

unfoldable pub bytes_below : Bytes → Bytes → Bool
bytes_below [] [] = false
bytes_below [] (y ∷ ys) = true
bytes_below (x ∷ xs) [] = false
bytes_below (x ∷ xs) (y ∷ ys) =
    let rest = bytes_below xs ys in if ltb x y then true else if x == y then rest else false

instance abbrev pub nat_key : Key ℕ
nat_key = record { same = ◌==◌; below = ltb; same_iff = ==_iff }

instance abbrev pub bytes_key : Key Bytes
bytes_key = record { same = bytes_eq; below = bytes_below; same_iff = bytes_eq_iff }

module _ {ℓ} {K : Type 0} {V : Type ℓ} ⦃key : Key K⦄ where
  unfoldable pub find : K → List (K × V) → Option V
  find k [] = none
  find k ((j, v) ∷ m) = if key.same j k then some v else find k m

  -- A new key goes before the first greater one.
  unfoldable pub place : K → V → List (K × V) → List (K × V)
  place k v [] = (k, v) ∷ []
  place k v ((j, w) ∷ m) = if key.below k j then (k, v) ∷ (j, w) ∷ m else (j, w) ∷ place k v m

  -- `emplace` leaves a key that is there as it is.
  unfoldable pub emplace : K → V → List (K × V) → List (K × V)
  emplace k v m = elim (find k m) [ none ↦ place k v m | some w ↦ m ]

  unfoldable pub erase : K → List (K × V) → List (K × V)
  erase k [] = []
  erase k ((j, w) ∷ m) = if key.same j k then erase k m else (j, w) ∷ erase k m

  -- it->second = v.
  unfoldable pub assign : K → V → List (K × V) → List (K × V)
  assign k v [] = []
  assign k v ((j, w) ∷ m) = if key.same j k then (j, v) ∷ assign k v m else (j, w) ∷ assign k v m

  pub find-place :
      (k j : K) (v : V) (m : List (K × V))
      → find k m ≡ none
      → find j (place k v m) ≡ (if key.same k j then some v else find j m)
  unfolding find place
  find-place k j v [] h = refl
  find-place k j v ((i, w) ∷ m) h =
      ground (arith, key.same_iff i k, key.same_iff i j, key.same_iff k j, find-place k j v m)

  pub find-emplace_new :
      (k j : K) (v : V) (m : List (K × V))
      → find k m ≡ none
      → find j (emplace k v m) ≡ (if key.same k j then some v else find j m)
  unfolding emplace
  find-emplace_new k j v m h = rw (h, emplace) (find-place k j v m h)

  pub emplace_old :
      (k : K) (v : V) (m : List (K × V)) {w : V} → find k m ≡ some w → emplace k v m ≡ m
  unfolding emplace
  emplace_old k v m h = rw (h, emplace)

  pub find-erase :
      (k j : K) (m : List (K × V)) → find j (erase k m) ≡ (if key.same k j then none else find j m)
  unfolding find erase
  find-erase k j [] = ground arith
  find-erase k j ((i, w) ∷ m) =
      ground (arith, key.same_iff i k, key.same_iff i j, key.same_iff k j, find-erase k j m)

  pub find-assign_other :
      (k j : K) (v : V) (m : List (K × V)) → key.same k j ≡ false → find j (assign k v m) ≡ find j m
  unfolding find assign
  find-assign_other k j v [] h = refl
  find-assign_other k j v ((i, w) ∷ m) h =
      ground
        (arith, key.same_iff i k, key.same_iff i j, key.same_iff k j, find-assign_other k j v m)

  pub find-assign_self :
      (k : K) (v w : V) (m : List (K × V)) → find k m ≡ some w → find k (assign k v m) ≡ some v
  unfolding find assign
  find-assign_self k v w [] h = cc
  find-assign_self k v w ((i, u) ∷ m) h = ground (arith, find-assign_self k v w m)
