-- ===== src/Base/Maps.antt =====
-- Go maps with string keys, as association lists. An assignment replaces the entry where it stands.
use mathlib.Core.Path.{◌≡◌, refl, subst}
use mathlib.Core.Bool.{Bool}
use mathlib.Core.List.{List, [], ◌∷◌}
use mathlib.Core.Option.{Option, none, some}
use native.Mathlib.Omega.{arith}
use servers.Base.Tests.{if◌then◌else◌, Bool-cases}
use mathlib.Core.Logic.{inl, inr}
use servers.Base.Bytes.{Text, eqt, eqt_iff, eqt_refl}

abbrev pub Map {ℓ} : Type ℓ → Type ℓ
Map V = List (Text × V)

module _ {ℓ} {V : Type ℓ} where
  unfoldable pub lookup : Text → Map V → Option V
  lookup k [] = none
  lookup k ((j, v) ∷ m) = if eqt j k then some v else lookup k m

  unfoldable pub insert : Text → V → Map V → Map V
  insert k v [] = (k, v) ∷ []
  insert k v ((j, w) ∷ m) = if eqt j k then (j, v) ∷ m else (j, w) ∷ insert k v m

  unfoldable pub remove : Text → Map V → Map V
  remove k [] = []
  remove k ((j, w) ∷ m) = if eqt j k then remove k m else (j, w) ∷ remove k m

  -- Deletes in a loop over the map: the entries that pass the test stay.
  unfoldable pub retain : (Text → V → Bool) → Map V → Map V
  retain p [] = []
  retain p ((j, w) ∷ m) = if p j w then (j, w) ∷ retain p m else retain p m

  -- No key stands twice.
  abbrev pub Distinct : Map V → Type ℓ
  Distinct [] = Unit
  Distinct ((j, w) ∷ m) = (lookup j m ≡ none) × Distinct m

  pub lookup-insert :
      (k j : Text) (v : V) (m : Map V)
      → lookup j (insert k v m) ≡ (if eqt k j then some v else lookup j m)
  unfolding lookup insert
  lookup-insert k j v [] = refl
  lookup-insert k j v ((i, w) ∷ m) =
      ground (arith, eqt_iff k j, eqt_iff i k, eqt_iff i j, lookup-insert k j v m)

  pub lookup-remove :
      (k j : Text) (m : Map V) → lookup j (remove k m) ≡ (if eqt k j then none else lookup j m)
  unfolding lookup remove
  lookup-remove k j [] = ground arith
  lookup-remove k j ((i, w) ∷ m) =
      ground (arith, eqt_iff k j, eqt_iff i k, eqt_iff i j, lookup-remove k j m)

  pub lookup-insert_self : (k : Text) (v : V) (m : Map V) → lookup k (insert k v m) ≡ some v
  lookup-insert_self k v m = ground (arith, lookup-insert k k v m, eqt_refl k)

  pub insert-Distinct : (k : Text) (v : V) (m : Map V) → Distinct m → Distinct (insert k v m)
  unfolding lookup insert
  insert-Distinct k v [] d = (refl, tt)
  insert-Distinct k v ((j, w) ∷ m) d =
      ground (arith, eqt_iff j k, eqt_iff k j, lookup-insert k j v m, insert-Distinct k v m d.1)

  pub lookup-retain-none :
      (p : Text → V → Bool) (k : Text) (m : Map V)
      → lookup k m ≡ none
      → lookup k (retain p m) ≡ none
  unfolding lookup retain
  lookup-retain-none p k [] h = refl
  lookup-retain-none p k ((j, w) ∷ m) h = ground (arith, lookup-retain-none p k m)

  pub retain-Distinct : (p : Text → V → Bool) (m : Map V) → Distinct m → Distinct (retain p m)
  unfolding retain
  retain-Distinct p [] d = tt
  retain-Distinct p ((j, w) ∷ m) d =
      ground (arith, lookup-retain-none p j m d.0, retain-Distinct p m d.1)

  -- The entry of a key is kept or dropped by the test on it.
  pub lookup-retain :
      (p : Text → V → Bool) (k : Text) (m : Map V)
      → Distinct m
      → lookup k (retain p m)
        ≡ elim (lookup k m) [ none ↦ none | some v ↦ if p k v then some v else none ]
  unfolding lookup retain
  lookup-retain p k [] d = refl
  lookup-retain p k ((j, w) ∷ m) d =
      ground (arith, eqt_iff j k, lookup-retain p k m d.1, lookup-retain-none p j m d.0)

module _ {ℓ κ} {V : Type ℓ} (P : V → Type κ) where
  -- Every value stored satisfies the predicate.
  abbrev pub AllValues : Map V → Type κ
  AllValues [] = Unit
  AllValues ((j, w) ∷ m) = P w × AllValues m

  pub insert-AllValues :
      (k : Text) (v : V) (m : Map V) → P v → AllValues m → AllValues (insert k v m)
  unfolding insert
  insert-AllValues k v [] h a = (h, tt)
  insert-AllValues k v ((j, w) ∷ m) h a = ground (arith, insert-AllValues k v m h a.1)

  pub retain-AllValues : (p : Text → V → Bool) (m : Map V) → AllValues m → AllValues (retain p m)
  unfolding retain
  retain-AllValues p [] a = tt
  retain-AllValues p ((j, w) ∷ m) a = ground (arith, retain-AllValues p m a.1)

  pub lookup-AllValues : (k : Text) (m : Map V) {v : V} → AllValues m → lookup k m ≡ some v → P v
  unfolding lookup
  lookup-AllValues k [] a h = absurd (ground arith)
  lookup-AllValues k ((j, w) ∷ m) {v} a h = elim (Bool-cases (eqt j k)) [
    | inl e ↦ let same : w ≡ v = ground arith in subst P same a.0
    | inr e ↦ lookup-AllValues k m a.1 (ground arith)
  ]
