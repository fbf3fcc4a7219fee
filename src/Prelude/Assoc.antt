-- ===== src/Prelude/Assoc.antt =====
-- std::map and std::unordered_map with integer keys: association lists in ascending key order.
use Prim.Native.Nat.{ℕ}
use mathlib.Core.Path.{◌≡◌, refl, subst}
use mathlib.Core.Bool.{Bool, true, false}
use mathlib.Core.List.{List, [], ◌∷◌}
use mathlib.Core.Option.{Option, none, some}
use mathlib.Core.Logic.{inl, inr}
use native.Mathlib.Omega.{arith}
use minimal_mpegts_std_impl.Prelude.Lists.{All}
use minimal_mpegts_std_impl.Prelude.Tests.{ltb, Bool-cases, ◌==◌, if◌then◌else◌}

abbrev pub Assoc {ℓ} : Type ℓ → Type ℓ
Assoc V = List (ℕ × V)

module _ {ℓ} {V : Type ℓ} where
  unfoldable pub lookup : ℕ → Assoc V → Option V
  lookup k [] = none
  lookup k ((j, v) ∷ m) = if k == j then some v else lookup k m

  unfoldable pub insert : ℕ → V → Assoc V → Assoc V
  insert k v [] = (k, v) ∷ []
  insert k v ((j, w) ∷ m) =
      let rest = insert k v m in
      if k == j then (k, v) ∷ m else if ltb k j then (k, v) ∷ (j, w) ∷ m else (j, w) ∷ rest

  unfoldable pub erase : ℕ → Assoc V → Assoc V
  erase k [] = []
  erase k ((j, w) ∷ m) = let rest = erase k m in if k == j then rest else (j, w) ∷ rest

  -- `find(k) != end()`
  unfoldable pub member : ℕ → Assoc V → Bool
  unfolding lookup
  member k m = elim (lookup k m) [ none ↦ false | some v ↦ true ]

  unfoldable pub keys : Assoc V → List ℕ
  keys [] = []
  keys ((k, v) ∷ m) = k ∷ keys m

  pub lookup-insert :
      (j k : ℕ) (v : V) (m : Assoc V)
      → lookup j (insert k v m) ≡ (if j == k then some v else lookup j m)
  unfolding lookup insert
  lookup-insert j k v [] = refl
  lookup-insert j k v ((i, w) ∷ m) = ground (arith, lookup-insert j k v m)

  pub lookup-erase :
      (j k : ℕ) (m : Assoc V) → lookup j (erase k m) ≡ (if j == k then none else lookup j m)
  unfolding lookup erase
  lookup-erase j k [] = ground arith
  lookup-erase j k ((i, w) ∷ m) = ground (arith, lookup-erase j k m)

-- `std::set::insert`, on ascending lists.
unfoldable pub insert_set : ℕ → List ℕ → List ℕ
insert_set k [] = k ∷ []
insert_set k (j ∷ s) =
    let rest = insert_set k s in if k == j then j ∷ s else if ltb k j then k ∷ j ∷ s else j ∷ rest

unfoldable pub in_set : ℕ → List ℕ → Bool
in_set k [] = false
in_set k (j ∷ s) = let rest = in_set k s in if k == j then true else rest

pub in_set-insert_set :
    (j k : ℕ) (s : List ℕ) → in_set j (insert_set k s) ≡ (if j == k then true else in_set j s)
unfolding in_set insert_set
in_set-insert_set j k [] = refl
in_set-insert_set j k (i ∷ s) = ground (arith, in_set-insert_set j k s)

-- A predicate at every value of a map.
abbrev pub AllValues {ℓ} : {V : Type ℓ} → (V → Type 0) → Assoc V → Type 0
AllValues P m = All (λ e. P e.1) m

module _ {ℓ} {V : Type ℓ} (P : V → Type 0) where
  pub AllValues-lookup : (k : ℕ) (m : Assoc V) {v : V} → AllValues P m → lookup k m ≡ some v → P v
  unfolding lookup
  AllValues-lookup k [] h e = cc
  AllValues-lookup k ((j, w) ∷ m) {v} h e = elim (Bool-cases (k == j)) [
    | inl hit ↦ let q : w ≡ v = ground arith in subst P q h.0
    | inr miss ↦ AllValues-lookup k m h.1 (rw miss at e)
  ]

  pub AllValues-insert :
      (k : ℕ) (v : V) (m : Assoc V) → P v → AllValues P m → AllValues P (insert k v m)
  unfolding insert
  AllValues-insert k v [] p h = (p, tt)
  AllValues-insert k v ((j, w) ∷ m) p h = ground (arith, AllValues-insert k v m p h.1)

  pub AllValues-erase : (k : ℕ) (m : Assoc V) → AllValues P m → AllValues P (erase k m)
  unfolding erase
  AllValues-erase k [] h = h
  AllValues-erase k ((j, w) ∷ m) h = ground (arith, AllValues-erase k m h.1)
