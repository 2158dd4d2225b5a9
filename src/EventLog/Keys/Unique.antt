-- ===== src/EventLog/Keys/Unique.antt =====
-- About `ResultToItemMapForKeys` of pkg/eventlog/util.go.
use mathlib.Core.List.{append-nil, append_assoc}
use cosmwasm_etl.Prelude.{
  ◌≤◌, ◌≡◌, refl, sym, ap, ◌∙◌, String, Bool, true, ◌||◌, List, [], ◌∷◌, ◌++◌, Option, none, some,
  ◌==◌, if◌then◌else◌, select, any, length, arith, All, eq_iff, eq_refl, Bool-cases, inl, inr,
}
use cosmwasm_etl.Prelude.Dict.{Dict, empty, lookup, insert, contains, lookup-insert, lookup-empty}
use cosmwasm_etl.EventLog.Types.{MatchedItem, MatchedResult}
use cosmwasm_etl.EventLog.Error.{ambiguous, ok, err}
use cosmwasm_etl.EventLog.Keys.{
  targets_of, matches_of, collect, ambiguity, pick, result_to_item_map_for_keys,
}

-- The items with a key, in their order.
abbrev pub occurrences : String → MatchedResult → List MatchedItem
occurrences key res = select (λ x. x.key == key) res

abbrev pub mem_key : String → List String → Bool
mem_key k keys = any (λ j. j == k) keys

contains-targets_of :
    (targets : Dict (Unit {0})) (keys : List String) (k : String)
    → contains (targets_of targets keys) k ≡ mem_key k keys || contains targets k
unfolding targets_of contains
contains-targets_of targets [] k = refl
contains-targets_of targets (key ∷ keys) k =
    ground
      (arith, contains-targets_of (insert targets key tt) keys k, lookup-insert targets key tt k)

module _ (targets : Dict (Unit {0})) (k : String) (h : contains targets k ≡ true) where
  abbrev next_items : Dict (List MatchedItem) → MatchedItem → Dict (List MatchedItem)
  next_items items x =
      if contains targets x.key
      then insert items x.key (matches_of items x.key ++ x ∷ [])
      else items

  matches-insert :
      (items : Dict (List MatchedItem)) (j : String) (l : List MatchedItem)
      → matches_of (insert items j l) k ≡ (if j == k then l else matches_of items k)
  matches-insert items j l = ground (arith, lookup-insert items j l k)

  matches_step :
      (items : Dict (List MatchedItem)) (x : MatchedItem)
      → matches_of (next_items items x) k
        ≡ matches_of items k ++ (if x.key == k then x ∷ [] else [])
  matches_step items x = elim (Bool-cases (x.key == k)) [
    | inl same ↦
        let e : x.key ≡ k = (eq_iff x.key k).0 same in
        rw (e, h, eq_refl) (matches-insert items k _ ∙ (rw eq_refl refl))
    | inr other ↦ elim (Bool-cases (contains targets x.key)) [
      | inl there ↦ rw (there, other, append-nil) (matches-insert items x.key _ ∙ (rw other refl))
      | inr gone ↦ rw (gone, other, append-nil) refl
    ]
  ]

  occurrences-cons :
      (x : MatchedItem) (res : MatchedResult)
      → occurrences k (x ∷ res) ≡ (if x.key == k then x ∷ [] else []) ++ occurrences k res
  occurrences-cons x res = ground arith

  matches-collect :
      (items : Dict (List MatchedItem)) (res : MatchedResult)
      → matches_of (collect targets items res) k ≡ matches_of items k ++ occurrences k res
  unfolding collect
  matches-collect items [] = sym (append-nil _)
  matches-collect items (x ∷ res) =
      matches-collect (next_items items x) res
      ∙ (ap (λ l. l ++ occurrences k res) (matches_step items x)
          ∙ (append_assoc (matches_of items k) _ (occurrences k res)
              ∙ ap (λ l. matches_of items k ++ l) (sym (occurrences-cons x res))))

-- The first item with a key.
abbrev head_of : List MatchedItem → Option MatchedItem
head_of [] = none
head_of (x ∷ _) = some x

abbrev pub first_occurrence : String → MatchedResult → Option MatchedItem
first_occurrence k res = head_of (occurrences k res)

abbrev pub or_else : Option MatchedItem → Option MatchedItem → Option MatchedItem
or_else none o = o
or_else (some x) o = some x

-- What a key is read as: its first item, if it is one of the keys asked for.
abbrev pub reads : MatchedResult → List String → String → Option MatchedItem
reads res keys k = if mem_key k keys then first_occurrence k res else none

module _ (res : MatchedResult) (items : Dict (List MatchedItem)) where
  abbrev Collected : String → Type 0
  Collected k = matches_of items k ≡ occurrences k res

  pick_none :
      (key : String) (keys : List String) (result : Dict MatchedItem)
      → matches_of items key ≡ []
      → pick res items result (key ∷ keys) ≡ pick res items result keys
  unfolding pick
  pick_none key keys result e = rw (e, pick)

  pick_one :
      (key : String) (keys : List String) (result : Dict MatchedItem) (x : MatchedItem)
      → matches_of items key ≡ x ∷ []
      → pick res items result (key ∷ keys) ≡ pick res items (insert result key x) keys
  unfolding pick
  pick_one key keys result x e = rw (e, pick)

  reads_none :
      (key : String) (keys : List String) (o : Option MatchedItem) (j : String)
      → occurrences key res ≡ []
      → or_else (reads res keys j) o ≡ or_else (reads res (key ∷ keys) j) o
  reads_none key keys o j e = elim (Bool-cases (key == j)) [
    | inr other ↦ rw other refl
    | inl same ↦
        let path : key ≡ j = (eq_iff key j).0 same in
        let absent : first_occurrence j res ≡ none = ap head_of (rw path at e) in ground arith
  ]

  reads_one :
      (key : String) (keys : List String) (result : Dict MatchedItem) (x : MatchedItem) (j : String)
      → occurrences key res ≡ x ∷ []
      → or_else (reads res keys j) (lookup (insert result key x) j)
        ≡ or_else (reads res (key ∷ keys) j) (lookup result j)
  reads_one key keys result x j e = elim (Bool-cases (key == j)) [
    | inr other ↦ rw (lookup-insert, other) refl
    | inl same ↦
        let path : key ≡ j = (eq_iff key j).0 same in
        let present : first_occurrence j res ≡ some x = ap head_of (rw path at e) in
        rw lookup-insert (ground arith)
  ]

  pick_unique :
      (keys : List String) (result : Dict MatchedItem)
      → All Collected keys
      → All (λ k. length (occurrences k res) ≤ 1) keys
      → (d : Dict MatchedItem) × (pick res items result keys ≡ ok d)
        × ((j : String) → lookup d j ≡ or_else (reads res keys j) (lookup result j))
  unfolding pick
  pick_unique [] result c u = (result, refl, λ j. refl)
  pick_unique (key ∷ keys) result (here, c) (one, u) =
      go (occurrences key res) refl (pick_unique keys)
    where
      go :
          (l : List MatchedItem)
          → occurrences key res ≡ l
          → ((result : Dict MatchedItem)
              → All Collected keys
              → All (λ k. length (occurrences k res) ≤ 1) keys
              → (d : Dict MatchedItem) × (pick res items result keys ≡ ok d)
                × ((j : String) → lookup d j ≡ or_else (reads res keys j) (lookup result j)))
          → (d : Dict MatchedItem) × (pick res items result (key ∷ keys) ≡ ok d)
            × ((j : String) → lookup d j ≡ or_else (reads res (key ∷ keys) j) (lookup result j))
      go [] e ih =
          let (d, run, look) = ih result c u in
          (
            d,
            pick_none key keys result (here ∙ e) ∙ run,
            λ j. look j ∙ reads_none key keys (lookup result j) j e,
          )
      go (x ∷ []) e ih =
          let (d, run, look) = ih (insert result key x) c u in
          (
            d,
            pick_one key keys result x (here ∙ e) ∙ run,
            λ j. look j ∙ reads_one key keys result x j e,
          )
      go (x ∷ y ∷ more) e ih = absurd (omega (arith, ap length e))

  pick_twice :
      (before : List String) (key : String) (after : List String) (result : Dict MatchedItem)
      (x y : MatchedItem) (more : List MatchedItem)
      → All Collected (before ++ key ∷ after)
      → All (λ k. length (occurrences k res) ≤ 1) before
      → occurrences key res ≡ x ∷ y ∷ more
      → pick res items result (before ++ key ∷ after)
        ≡ err (ambiguous (ambiguity res key x (y ∷ more)))
  unfolding pick
  pick_twice [] key after result x y more c u e = rw (c.0 ∙ e, pick)
  pick_twice (k ∷ before) key after result x y more (here, c) (one, u) e =
      go (occurrences k res) refl (λ r. pick_twice before key after r x y more c u e)
    where
      go :
          (l : List MatchedItem)
          → occurrences k res ≡ l
          → ((r : Dict MatchedItem)
              → pick res items r (before ++ key ∷ after)
                ≡ err (ambiguous (ambiguity res key x (y ∷ more))))
          → pick res items result (k ∷ before ++ key ∷ after)
            ≡ err (ambiguous (ambiguity res key x (y ∷ more)))
      go [] e' ih = pick_none k (before ++ key ∷ after) result (here ∙ e') ∙ ih result
      go (z ∷ []) e' ih =
          pick_one k (before ++ key ∷ after) result z (here ∙ e') ∙ ih (insert result k z)
      go (z ∷ w ∷ rest) e' ih = absurd (omega (arith, ap length e'))

matches-empty : (k : String) → matches_of empty k ≡ []
matches-empty k = ground (arith, lookup-empty {V = List MatchedItem} k)

All-collected :
    (res : MatchedResult) (targets : Dict (Unit {0})) (keys : List String)
    → All (λ k. contains targets k ≡ true) keys
    → All (λ k. matches_of (collect targets empty res) k ≡ occurrences k res) keys
All-collected res targets [] h = tt
All-collected res targets (k ∷ keys) (here, h) = (
  matches-collect targets k here empty res ∙ ap (λ l. l ++ occurrences k res) (matches-empty k),
  All-collected res targets keys h,
)

-- Every key asked for is a target.
All-targets :
    (targets : Dict (Unit {0})) (keys : List String)
    → All (λ k. contains (targets_of targets keys) k ≡ true) keys
unfolding targets_of
All-targets targets [] = tt
All-targets targets (k ∷ keys) = (
  contains-targets_of targets (k ∷ keys) k ∙ (rw eq_refl refl),
  All-targets (insert targets k tt) keys,
)

or_else-empty : (o : Option MatchedItem) (k : String) → or_else o (lookup empty k) ≡ o
or_else-empty none k = lookup-empty k
or_else-empty (some x) k = refl

module _ (res : MatchedResult) (keys : List String) where
  ready :
      All (λ k. matches_of (collect (targets_of empty keys) empty res) k ≡ occurrences k res) keys
  ready = All-collected res (targets_of empty keys) keys (All-targets empty keys)

  -- If no key asked for occurs twice in the result, the map is returned: it has, under each key
  -- asked for, the item with that key, and nothing under any other key.
  pub result_to_item_map_unique :
      All (λ k. length (occurrences k res) ≤ 1) keys
      → (d : Dict MatchedItem) × (result_to_item_map_for_keys res keys ≡ ok d)
        × ((k : String) → lookup d k ≡ reads res keys k)
  unfolding result_to_item_map_for_keys
  result_to_item_map_unique u =
      let (d, run, look) = pick_unique res _ keys empty ready u in
      (d, run, λ k. look k ∙ or_else-empty (reads res keys k) k)

-- If `key` is the first of the keys asked for that occurs twice or more in the result, the call
-- fails with an ambiguous-event error that names the key, all its values in their order, the
-- contract, the action, and the message index of its first item.
pub result_to_item_map_ambiguous :
    (res : MatchedResult) (before : List String) (key : String) (after : List String)
    (x y : MatchedItem) (more : List MatchedItem)
    → All (λ k. length (occurrences k res) ≤ 1) before
    → occurrences key res ≡ x ∷ y ∷ more
    → result_to_item_map_for_keys res (before ++ key ∷ after)
      ≡ err (ambiguous (ambiguity res key x (y ∷ more)))
unfolding result_to_item_map_for_keys
result_to_item_map_ambiguous res before key after x y more u e =
    pick_twice res _ before key after empty x y more (ready res (before ++ key ∷ after)) u e
