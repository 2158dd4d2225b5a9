-- ===== src/Prelude/Dict.antt =====
-- Go's `map[string]V` as an association list, each key once. What the program reads of a map goes
-- through `lookup`, and `range` over it through `entries`, in an order that nothing may rely on.
use Prim.Native.String.{String}
use mathlib.Core.Path.{◌≡◌, refl}
use mathlib.Core.Logic.{◌↔◌, inl, inr}
use mathlib.Core.Bool.{Bool, true}
use mathlib.Core.Option.{Option, none, some}
use mathlib.Core.List.{List, [], ◌∷◌, Memᴰ}
use mathlib.Core.List.Memᴰ
use native.Mathlib.Omega.{arith}
use text.Mathlib.Text.{◌==◌}
use text.Mathlib.TextEquality.{eq_iff}
use cosmwasm_etl.Prelude.Tests.{if◌then◌else◌, is_some, Bool-cases}

pub record Dict {ℓ} (V : Type ℓ) : Type ℓ where
  pub entries : List (String × V)

module _ {ℓ} {V : Type ℓ} where
  find : String → List (String × V) → Option V
  find k [] = none
  find k ((j, v) ∷ m) = if j == k then some v else find k m

  put : String → V → List (String × V) → List (String × V)
  put k v [] = (k, v) ∷ []
  put k v ((j, w) ∷ m) = if j == k then (k, v) ∷ m else (j, w) ∷ put k v m

  without : String → List (String × V) → List (String × V)
  without k [] = []
  without k ((j, w) ∷ m) = if j == k then without k m else (j, w) ∷ without k m

  unfoldable pub empty : Dict V
  empty = record { entries = [] }

  unfoldable pub lookup : Dict V → String → Option V
  unfolding find
  lookup d k = find k d.entries

  unfoldable pub insert : Dict V → String → V → Dict V
  unfolding put
  insert d k v = record { entries = put k v d.entries }

  unfoldable pub delete : Dict V → String → Dict V
  unfolding without
  delete d k = record { entries = without k d.entries }

  -- `_, ok := d[k]`
  unfoldable pub contains : Dict V → String → Bool
  unfolding lookup
  contains d k = is_some (lookup d k)

  first_keys : List (String × V) → List String
  first_keys [] = []
  first_keys ((k, v) ∷ m) = k ∷ first_keys m

  -- The keys in the order of `range`.
  unfoldable pub keys : Dict V → List String
  unfolding first_keys
  keys d = first_keys d.entries

  pub lookup-empty : (k : String) → lookup empty k ≡ none
  unfolding lookup empty
  lookup-empty k = refl

  find-put :
      (k j : String) (v : V) (m : List (String × V))
      → find j (put k v m) ≡ (if k == j then some v else find j m)
  unfolding find put
  find-put k j v [] = refl
  find-put k j v ((i, w) ∷ m) = ground (arith, eq_iff k j, eq_iff i k, eq_iff i j, find-put k j v m)

  pub lookup-insert :
      (d : Dict V) (k : String) (v : V) (j : String)
      → lookup (insert d k v) j ≡ (if k == j then some v else lookup d j)
  unfolding lookup insert
  lookup-insert d k v j = find-put k j v d.entries

  find-without :
      (k j : String) (m : List (String × V))
      → find j (without k m) ≡ (if k == j then none else find j m)
  unfolding find without
  find-without k j [] = ground arith
  find-without k j ((i, w) ∷ m) =
      ground (arith, eq_iff k j, eq_iff i k, eq_iff i j, find-without k j m)

  pub lookup-delete :
      (d : Dict V) (k j : String) → lookup (delete d k) j ≡ (if k == j then none else lookup d j)
  unfolding lookup delete
  lookup-delete d k j = find-without k j d.entries

  pub contains-insert :
      (d : Dict V) (k : String) (v : V) (j : String)
      → contains (insert d k v) j ≡ (if k == j then true else contains d j)
  unfolding contains
  contains-insert d k v j = ground (arith, lookup-insert d k v j)

  keys_of_mem :
      (m : List (String × V)) (k : String) → Memᴰ k (first_keys m) → is_some (find k m) ≡ true
  unfolding first_keys find
  keys_of_mem [] k h = absurd (Memᴰ.not-nil h)
  keys_of_mem ((j, v) ∷ m) k h = elim (Memᴰ.cases_cons h) [
    | inl e ↦ ground (arith, e, eq_iff j k)
    | inr h' ↦ ground (arith, keys_of_mem m k h')
  ]

  mem_of_keys :
      (m : List (String × V)) (k : String) → is_some (find k m) ≡ true → Memᴰ k (first_keys m)
  unfolding first_keys find
  mem_of_keys [] k h = absurd cc
  mem_of_keys ((j, v) ∷ m) k h = elim (Bool-cases (j == k)) [
    | inl e ↦ Memᴰ.head (ground (arith, e, eq_iff j k))
    | inr e ↦ Memᴰ.tail (mem_of_keys m k (ground (arith, e, h)))
  ]

  -- A map ranges over the keys that it has.
  pub keys_iff : (d : Dict V) (k : String) → Memᴰ k (keys d) ↔ (contains d k ≡ true)
  unfolding keys contains lookup
  keys_iff d k = (keys_of_mem d.entries k, mem_of_keys d.entries k)

pub ruleset dict_laws = (lookup-empty, lookup-insert, lookup-delete)
