-- ===== src/EventLog/Sort/Keep.antt =====
-- About what `SortAttributes` of pkg/eventlog/util.go does with the elements of its list.
use mathlib.Core.List.{Perm, append_assoc, append-nil}
use mathlib.Core.List.Perm
use cosmwasm_etl.Prelude.{
  ℕ, suc, lt→ltb, ◌≡◌, refl, subst, String, List, [], ◌∷◌, ◌++◌, arith, if◌then◌else◌, ltb, eqb,
  length, select, Bool-cases, inl, inr,
}
use cosmwasm_etl.Prelude.Dict.{Dict, empty, contains}
use cosmwasm_etl.EventLog.Types.{Attribute, Attributes}
use cosmwasm_etl.EventLog.Error.{ok}
use cosmwasm_etl.EventLog.Sort.{
  rank, insert_by, sort_group, State, flush, add, sort_step, sort_loop, fresh, finish, listed,
  order_from, sort_attributes,
}

module _ (order : Dict ℕ) where
  insert_by-Perm : (a : Attribute) (l : Attributes) → Perm (insert_by order a l) (a ∷ l)
  unfolding insert_by
  insert_by-Perm a [] = Perm.refl (a ∷ [])
  insert_by-Perm a (b ∷ l) = elim (Bool-cases (ltb (rank order b) (rank order a))) [
    | inl later ↦
        rw (later, insert_by) (Perm.trans (Perm.cons b (insert_by-Perm a l)) (Perm.swap a b l))
    | inr here ↦ rw (here, insert_by) (Perm.refl (a ∷ b ∷ l))
  ]

  pub sort_group-Perm : (l : Attributes) → Perm (sort_group order l) l
  unfolding sort_group
  sort_group-Perm [] = Perm.refl []
  sort_group-Perm (a ∷ l) =
      Perm.trans (insert_by-Perm a (sort_group order l)) (Perm.cons a (sort_group-Perm l))

  -- What a state holds: the sorted attributes and the open group.
  abbrev held : State → Attributes
  held s = s.sorted ++ s.group

  flush-Perm : (s : State) → Perm (held (flush order s)) (held s)
  unfolding flush
  flush-Perm s = rw append-nil (Perm.append_left s.sorted (sort_group-Perm s.group))

  add-Perm :
      (s t : State) (a : Attribute)
      → Perm (held t) (held s)
      → Perm (held (add t a)) (held s ++ a ∷ [])
  unfolding add
  add-Perm s t a h = rw (← append_assoc) (Perm.append_right (a ∷ []) h)

  sort_step-Perm :
      (size : ℕ) (s : State) (a : Attribute)
      → Perm (held (sort_step order size s a)) (held s ++ a ∷ [])
  unfolding sort_step
  sort_step-Perm size s a =
      let t = add (if contains s.seen a.key then flush order s else s) a in
      let h : Perm (held t) (held s ++ a ∷ []) =
        add-Perm s (if contains s.seen a.key then flush order s else s) a (opened s a) in
      elim (Bool-cases (eqb (length t.group) size)) [
        | inl full ↦ rw (full, sort_step) (Perm.trans (flush-Perm t) h)
        | inr room ↦ rw (room, sort_step) h
      ]
    where
      opened :
          (s : State) (a : Attribute)
          → Perm (held (if contains s.seen a.key then flush order s else s)) (held s)
      opened s a = elim (Bool-cases (contains s.seen a.key)) [
        | inl again ↦ rw again (flush-Perm s)
        | inr new ↦ rw new (Perm.refl (held s))
      ]

  sort_loop-Perm :
      (size : ℕ) (s : State) (l : Attributes) → Perm (held (sort_loop order size s l)) (held s ++ l)
  unfolding sort_loop
  sort_loop-Perm size s [] = rw append-nil (Perm.refl (held s))
  sort_loop-Perm size s (a ∷ l) = Perm.trans (sort_loop-Perm size (sort_step order size s a) l) (
      subst (λ x. Perm (held (sort_step order size s a) ++ l) x) (append_assoc (held s) (a ∷ []) l)
        (Perm.append_right l (sort_step-Perm size s a)))

  finish-Perm : (s : State) → Perm (finish order s) (held s)
  unfolding finish
  finish-Perm s = go s.group (Perm.append_left s.sorted (sort_group-Perm s.group))
    where
      go :
          (g : Attributes)
          → Perm (s.sorted ++ sort_group order g) (s.sorted ++ g)
          → Perm
              (if ltb 0 (length g) then s.sorted ++ sort_group order g else s.sorted)
              (s.sorted ++ g)
      go [] h = rw append-nil (Perm.refl s.sorted)
      go (a ∷ g) h = rw (lt→ltb 0 (suc (length g)) (omega arith)) h

-- The ranks that a filter gives to its keys.
abbrev pub order_of : List String → Dict ℕ
order_of filter = order_from 0 empty filter

-- With a non-empty filter sorting succeeds, and returns the attributes whose key is in the filter,
-- each as often as it was there: a permutation of what the filter keeps.
pub sort_attributes-Perm :
    (attrs : Attributes) (key : String) (keys : List String)
    → (sorted : Attributes) × (sort_attributes attrs (key ∷ keys) ≡ ok sorted)
      × Perm sorted (select (listed (order_of (key ∷ keys))) attrs)
unfolding sort_attributes
sort_attributes-Perm attrs key keys =
    let order = order_of (key ∷ keys) in
    let s = sort_loop order (length (key ∷ keys)) fresh (select (listed order) attrs) in
    (
      finish order s,
      refl,
      Perm.trans (finish-Perm order s)
          (sort_loop-Perm order (length (key ∷ keys)) fresh (select (listed order) attrs)),
    )
