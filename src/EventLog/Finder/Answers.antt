-- ===== src/EventLog/Finder/Answers.antt =====
-- About FindFromAttrs of pkg/eventlog/finder.go: all that the search by a rule finds, and that none is
-- missed, in the words of the fields of an event.
use cosmwasm_etl.Prelude.{
  ℕ, zero, suc, ◌+◌, ◌<◌, ◌≤◌, ◌≡◌, ◌⊎◌, inl, inr, Bool-cases, drop, not, eq_iff, refl, ◌∙◌, String,
  Bool, true, false, ◌&&◌, ◌||◌, ◌==◌, List, [], ◌∷◌, arith, length, All, sym,
}
use cosmwasm_etl.Prelude.Int.{ℤ, eq_ℤ}
use cosmwasm_etl.EventLog.Finder.Stands.{stands}
use cosmwasm_etl.EventLog.Finder.Complete.{Covered, find_from_attrs_complete}
use cosmwasm_etl.EventLog.Types.{Attribute, Attributes, MatchedResult, MatchedResults}
use cosmwasm_etl.EventLog.Rule.{Rule, RuleItem, filter_accepts, item_match}
use cosmwasm_etl.EventLog.Finder.{done, find_from_attrs}
use cosmwasm_etl.EventLog.Finder.Order.{find_from_attrs_in_order}
use cosmwasm_etl.EventLog.Finder.Shaped.{Field, event, fields_of, find_from_attrs-IsEvent}

-- The fields follow one another in attributes of one message, with none of the keys that the finder
-- may pass over.
abbrev pub standing : List Field → ℤ → Attributes → Bool
standing [] m attrs = true
standing (field ∷ fields) m [] = false
standing ((key, test) ∷ fields) m (a ∷ attrs) =
    (a.key == key && test a.value)
    && eq_ℤ a.msg_index m
    && not (a.key == "msg_index" || a.key == "token_id")
    && standing fields m attrs

-- The search of the attributes of an event ends, all that it finds are events of these fields, and if
-- the fields stand at attribute `j` the piece that a result was taken from has it in it.
abbrev pub Answers : Rule → List Field → String → Attributes → ℕ → ℤ → Type 0
Answers rule fields until attrs j m =
    (found : MatchedResults) × (find_from_attrs rule attrs ≡ done found)
    × All (λ r. event fields until r ≡ true) found
    × ((standing fields m (drop j attrs) ≡ false) ⊎ Covered attrs found j)

-- The same keys, and tests with the same outcomes.
abbrev pub Same : List Field → List Field → Type 0
Same [] [] = Unit
Same [] (g ∷ gs) = ⊥
Same (f ∷ fs) [] = ⊥
Same ((k, p) ∷ fs) ((l, q) ∷ gs) = (k ≡ l) × ((v : String) → p v ≡ q v) × Same fs gs

event-Same :
    (fs gs : List Field) (until : String) (m : MatchedResult)
    → Same fs gs
    → event fs until m ≡ event gs until m
event-Same [] [] until m s = refl
event-Same [] (g ∷ gs) until m s = absurd s
event-Same (f ∷ fs) [] until m s = absurd s
event-Same ((k, p) ∷ fs) ((l, q) ∷ gs) until [] s = refl
event-Same ((k, p) ∷ fs) ((l, q) ∷ gs) until (x ∷ m) (key, test, more) =
    rw (key, test x.value, event-Same fs gs until m more) refl

told_alike :
    (fs gs : List Field) (until : String) (found : List MatchedResult)
    → Same fs gs
    → All (λ m. event fs until m ≡ true) found
    → All (λ m. event gs until m ≡ true) found
told_alike fs gs until [] s h = tt
told_alike fs gs until (m ∷ found) s h =
    (sym (event-Same fs gs until m s) ∙ h.0, told_alike fs gs until found s h.1)

standing-Same :
    (fs gs : List Field) (m : ℤ) (attrs : Attributes)
    → Same fs gs
    → standing fs m attrs ≡ standing gs m attrs
standing-Same [] [] m attrs s = refl
standing-Same [] (g ∷ gs) m attrs s = absurd s
standing-Same (f ∷ fs) [] m attrs s = absurd s
standing-Same ((k, p) ∷ fs) ((l, q) ∷ gs) m [] s = refl
standing-Same ((k, p) ∷ fs) ((l, q) ∷ gs) m (a ∷ attrs) (key, test, more) =
    rw (key, test a.value, standing-Same fs gs m attrs more) refl

stands_item :
    (item : RuleItem) (a : Attribute) (b c d : Bool)
    → ((a.key == item.key && filter_accepts item.filter a.value) && b && c && d) ≡ true
    → (item_match item a ≡ true) × (b ≡ true) × (c ≡ true) × (d ≡ true)
unfolding item_match
stands_item item a b c d h =
    let same = eq_iff a.key item.key in
    (
      ground (arith, h, same, eq_iff item.key a.key),
      ground (arith, h),
      ground (arith, h),
      ground (arith, h),
    )

all_true : (a b c d : Bool) → a ≡ true → b ≡ true → c ≡ true → d ≡ true → (a && b && c && d) ≡ true
all_true a b c d p q r s = ground (arith, p, q, r, s)

standing_items :
    (items : List RuleItem) (m : ℤ) (attrs : Attributes)
    → standing (fields_of items) m attrs ≡ true
    → (stands items m attrs ≡ true) × (length items ≤ length attrs)
standing_items [] m attrs h = (refl, omega arith)
standing_items (item ∷ items) m [] h = absurd cc
standing_items (item ∷ items) m (a ∷ attrs) h =
    let (match, index, kept, more) = stands_item item a _ _ _ h in
    let (s, l) = standing_items items m attrs more in
    (all_true _ _ _ _ match index kept s, omega (arith, l))

fits_at : (attrs : Attributes) (j k : ℕ) → 0 < k → k ≤ length (drop j attrs) → j + k ≤ length attrs
fits_at attrs zero k pos h = omega (arith, h)
fits_at [] (suc j) k pos h = absurd (omega (arith, h, pos))
fits_at (a ∷ attrs) (suc j) k pos h = omega (arith, fits_at attrs j k pos h)

pub answers :
    (rule : Rule) (fields : List Field) (attrs : Attributes) (j : ℕ) (m : ℤ)
    → 0 < length rule.items
    → Same (fields_of rule.items) fields
    → Answers rule fields rule.until attrs j m
answers rule fields attrs j m some' same =
    let (found, run, _) = find_from_attrs_in_order attrs rule some' in
    (
      found,
      run,
      told_alike (fields_of rule.items) fields rule.until found same
          (find_from_attrs-IsEvent rule attrs found run),
      elim (Bool-cases (standing fields m (drop j attrs))) [
        | inr e ↦ inl e
        | inl e ↦
            let (s, l) =
              standing_items rule.items m (drop j attrs)
                (standing-Same (fields_of rule.items) fields m (drop j attrs) same ∙ e) in
            inr (
              find_from_attrs_complete rule attrs found run j m
                (fits_at attrs j (length rule.items) some' l) s)
      ],
    )
