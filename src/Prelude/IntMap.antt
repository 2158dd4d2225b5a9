-- ===== src/Prelude/IntMap.antt =====
-- Go's `map[int]V` as an association list, each key once, like the dictionaries over texts.
use Prim.Native.Nat.{ℕ}
use mathlib.Core.Path.{◌≡◌, refl}
use mathlib.Core.Logic.{◌↔◌, inl, inr}
use mathlib.Core.Bool.{Bool, true}
use mathlib.Core.Option.{Option, none, some, map}
use mathlib.Core.List.{List, [], ◌∷◌, Memᴰ}
use mathlib.Core.List.Memᴰ
use native.Mathlib.Omega.{arith}
use cosmwasm_etl.Prelude.Tests.{if◌then◌else◌, is_some, eqb, Bool-cases}

pub record IntMap {ℓ} (V : Type ℓ) : Type ℓ where
  pub entries : List (ℕ × V)

module _ {ℓ} {V : Type ℓ} where
  find : ℕ → List (ℕ × V) → Option V
  find k [] = none
  find k ((j, v) ∷ m) = if eqb j k then some v else find k m

  put : ℕ → V → List (ℕ × V) → List (ℕ × V)
  put k v [] = (k, v) ∷ []
  put k v ((j, w) ∷ m) = if eqb j k then (k, v) ∷ m else (j, w) ∷ put k v m

  unfoldable pub empty : IntMap V
  empty = record { entries = [] }

  unfoldable pub lookup : IntMap V → ℕ → Option V
  unfolding find
  lookup d k = find k d.entries

  unfoldable pub insert : IntMap V → ℕ → V → IntMap V
  unfolding put
  insert d k v = record { entries = put k v d.entries }

  unfoldable pub contains : IntMap V → ℕ → Bool
  unfolding lookup
  contains d k = is_some (lookup d k)

  first_keys : List (ℕ × V) → List ℕ
  first_keys [] = []
  first_keys ((k, v) ∷ m) = k ∷ first_keys m

  -- The keys in the order of `range`.
  unfoldable pub keys : IntMap V → List ℕ
  unfolding first_keys
  keys d = first_keys d.entries

  pub lookup-empty : (k : ℕ) → lookup empty k ≡ none
  unfolding lookup empty
  lookup-empty k = refl

  find-put :
      (k j : ℕ) (v : V) (m : List (ℕ × V))
      → find j (put k v m) ≡ (if eqb k j then some v else find j m)
  unfolding find put
  find-put k j v [] = refl
  find-put k j v ((i, w) ∷ m) = ground (arith, find-put k j v m)

  pub lookup-insert :
      (d : IntMap V) (k : ℕ) (v : V) (j : ℕ)
      → lookup (insert d k v) j ≡ (if eqb k j then some v else lookup d j)
  unfolding lookup insert
  lookup-insert d k v j = find-put k j v d.entries

  pub contains-insert :
      (d : IntMap V) (k : ℕ) (v : V) (j : ℕ)
      → contains (insert d k v) j ≡ (if eqb k j then true else contains d j)
  unfolding contains
  contains-insert d k v j = ground (arith, lookup-insert d k v j)

  keys_of_mem : (m : List (ℕ × V)) (k : ℕ) → Memᴰ k (first_keys m) → is_some (find k m) ≡ true
  unfolding first_keys find
  keys_of_mem [] k h = absurd (Memᴰ.not-nil h)
  keys_of_mem ((j, v) ∷ m) k h = elim (Memᴰ.cases_cons h) [
    | inl e ↦ ground (arith, e)
    | inr h' ↦ ground (arith, keys_of_mem m k h')
  ]

  mem_of_keys : (m : List (ℕ × V)) (k : ℕ) → is_some (find k m) ≡ true → Memᴰ k (first_keys m)
  unfolding first_keys find
  mem_of_keys [] k h = absurd cc
  mem_of_keys ((j, v) ∷ m) k h = elim (Bool-cases (eqb j k)) [
    | inl e ↦ Memᴰ.head (ground (arith, e))
    | inr e ↦ Memᴰ.tail (mem_of_keys m k (ground (arith, e, h)))
  ]

  -- A map ranges over the keys that it has.
  pub keys_iff : (d : IntMap V) (k : ℕ) → Memᴰ k (keys d) ↔ (contains d k ≡ true)
  unfolding keys contains lookup
  keys_iff d k = (keys_of_mem d.entries k, mem_of_keys d.entries k)

module _ {ℓ κ} {V : Type ℓ} {W : Type κ} where
  map_entries : (V → W) → List (ℕ × V) → List (ℕ × W)
  map_entries f [] = []
  map_entries f ((k, v) ∷ m) = (k, f v) ∷ map_entries f m

  -- Every value replaced.
  unfoldable pub map_values : (V → W) → IntMap V → IntMap W
  unfolding map_entries
  map_values f d = record { entries = map_entries f d.entries }

  find-map : (f : V → W) (m : List (ℕ × V)) (k : ℕ) → find k (map_entries f m) ≡ map f (find k m)
  unfolding find map_entries
  find-map f [] k = refl
  find-map f ((j, v) ∷ m) k = ground (arith, find-map f m k)

  pub lookup-map_values :
      (f : V → W) (d : IntMap V) (k : ℕ) → lookup (map_values f d) k ≡ map f (lookup d k)
  unfolding lookup map_values
  lookup-map_values f d k = find-map f d.entries k
