-- ===== src/EventLog/Finder/Segment.antt =====
-- What a loop over `attrs[start:stop]` has taken: a segment, in the order of the attributes.
use mathlib.Core.List.{append_assoc}
use cosmwasm_etl.Prelude.{
  ℕ, zero, suc, ◌+◌, ◌≤◌, ◌≡◌, some, [], ◌∷◌, ◌++◌, arith, get_elem?, drop, length, length-append,
}
use cosmwasm_etl.Prelude.Sub.{Sub, Sub-refl, Sub-trans, Sub-append_left, length-Sub}
use cosmwasm_etl.EventLog.Types.{Attribute, Attributes, MatchedResult, to_item, to_items}

pub record Segment (attrs : Attributes) (start stop : ℕ) (seg : MatchedResult) : Type 0 where
  pub forward : start ≤ stop
  pub within : stop ≤ length attrs
  pub ordered : Sub (seg ++ to_items (drop stop attrs)) (to_items (drop start attrs))

pub length-drop_items :
    (attrs : Attributes) (n : ℕ)
    → n ≤ length attrs
    → length (to_items (drop n attrs)) + n ≡ length attrs
length-drop_items [] zero h = omega arith
length-drop_items [] (suc n) h = absurd (omega arith)
length-drop_items (a ∷ attrs) zero h = omega (arith, length-drop_items attrs zero)
length-drop_items (a ∷ attrs) (suc n) h = omega (arith, length-drop_items attrs n)

drop-suc :
    (attrs : Attributes) (n : ℕ) (a : Attribute)
    → get_elem? attrs n ≡ some a
    → drop n attrs ≡ a ∷ drop (suc n) attrs
drop-suc [] n a h = cc
drop-suc (x ∷ attrs) zero a h = cc
drop-suc (x ∷ attrs) (suc n) a h = drop-suc attrs n a h

get_elem?-lt_length :
    (attrs : Attributes) (n : ℕ) (a : Attribute) → get_elem? attrs n ≡ some a → suc n ≤ length attrs
get_elem?-lt_length [] n a h = cc
get_elem?-lt_length (x ∷ attrs) zero a h = omega arith
get_elem?-lt_length (x ∷ attrs) (suc n) a h = omega (arith, get_elem?-lt_length attrs n a h)

module _ (attrs : Attributes) where
  pub Segment-refl : (n : ℕ) → n ≤ length attrs → Segment attrs n n []
  Segment-refl n h = record { forward = omega arith; within = h; ordered = Sub-refl _ }

  pub Segment-one :
      (n m : ℕ) (a : Attribute)
      → m ≡ suc n
      → get_elem? attrs n ≡ some a
      → Segment attrs n m (to_item a ∷ [])
  Segment-one n m a e h = record {
    forward = omega arith;
    within = omega (arith, get_elem?-lt_length attrs n a h);
    ordered = rw (e, drop-suc attrs n a h) (Sub-refl _);
  }

  pub Segment-skip :
      (n m : ℕ) (a : Attribute) → m ≡ suc n → get_elem? attrs n ≡ some a → Segment attrs n m []
  Segment-skip n m a e h = record {
    forward = omega arith;
    within = omega (arith, get_elem?-lt_length attrs n a h);
    ordered = rw (e, drop-suc attrs n a h) (Sub.skip (Sub-refl _));
  }

  pub Segment-trans :
      {i j k : ℕ} {s t : MatchedResult}
      → Segment attrs i j s
      → Segment attrs j k t
      → Segment attrs i k (s ++ t)
  Segment-trans {s = s} h k = record {
    forward = omega (arith, h.forward, k.forward);
    within = k.within;
    ordered = rw append_assoc (Sub-trans (Sub-append_left s k.ordered) h.ordered);
  }

  -- A segment is no longer than what it was taken from.
  pub length-Segment : {i j : ℕ} {s : MatchedResult} → Segment attrs i j s → i + length s ≤ j
  length-Segment {i} {j} {s} h = omega (
    arith,
    length-Sub h.ordered,
    length-append s (to_items (drop j attrs)),
    length-drop_items attrs i (omega (arith, h.forward, h.within)),
    length-drop_items attrs j h.within,
  )
