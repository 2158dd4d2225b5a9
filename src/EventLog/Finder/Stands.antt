-- ===== src/EventLog/Finder/Stands.antt =====
-- Where the items of a rule match attributes one behind the other: findMatchingSubseq of
-- pkg/eventlog/finder.go takes them all.
use cosmwasm_etl.Prelude.{
  ℕ, suc, ◌+◌, ◌≡◌, refl, ap, ◌∙◌, ◌⊎◌, inl, inr, true, false, Bool, not, ◌&&◌, ◌||◌, ◌==◌, some,
  List, [], ◌∷◌, ◌++◌, arith, length, length-append, drop, get_elem?,
}
use cosmwasm_etl.Prelude.Int.{ℤ, eq_ℤ, eq_ℤ_iff}
use cosmwasm_etl.EventLog.Types.{Attribute, Attributes, MatchedResult, to_item}
use cosmwasm_etl.EventLog.Rule.{RuleItem, item_match}
use cosmwasm_etl.EventLog.Finder.Order.{drop-cons}
use cosmwasm_etl.EventLog.Finder.{should_skip_key, minus_one, accepts, skip, match_items}

-- The items match attributes that follow one another, of one message, and none of them has a key that
-- the finder may pass over.
abbrev pub stands : List RuleItem → ℤ → Attributes → Bool
stands [] m attrs = true
stands (item ∷ items) m [] = false
stands (item ∷ items) m (a ∷ attrs) =
    item_match item a
    && eq_ℤ a.msg_index m
    && not (a.key == "msg_index" || a.key == "token_id")
    && stands items m attrs

pub stands_cons :
    (item : RuleItem) (items : List RuleItem) (m prev : ℤ) (a : Attribute) (attrs : Attributes)
    → stands (item ∷ items) m (a ∷ attrs) ≡ true
    → (prev ≡ minus_one) ⊎ (prev ≡ m)
    → (should_skip_key a.key ≡ false)
      × (accepts item prev a ≡ true)
      × (a.msg_index ≡ m)
      × (stands items m attrs ≡ true)
unfolding should_skip_key
stands_cons item items m prev a attrs h (inl e) = (
  ground (arith, h),
  ground (arith, h, e, eq_ℤ_iff prev minus_one),
  ground (arith, h, eq_ℤ_iff a.msg_index m),
  ground (arith, h),
)
stands_cons item items m prev a attrs h (inr e) = (
  ground (arith, h),
  ground (arith, h, e, eq_ℤ_iff a.msg_index m, eq_ℤ_iff a.msg_index prev),
  ground (arith, h, eq_ℤ_iff a.msg_index m),
  ground (arith, h),
)

pub no_skip :
    (attrs : Attributes) (size idx : ℕ) (a : Attribute)
    → should_skip_key a.key ≡ false
    → skip attrs size idx a ≡ idx
unfolding skip
no_skip attrs size idx a h = rw (h, skip) refl

module _ (attrs : Attributes) (size : ℕ) where
  pub match_items_step :
      (item : RuleItem) (items : List RuleItem) (i idx : ℕ) (prev : ℤ) (acc : MatchedResult)
      (a : Attribute)
      → get_elem? attrs (idx + i) ≡ some a
      → get_elem? attrs (skip attrs size idx a + i) ≡ some a
      → accepts item prev a ≡ true
      → match_items attrs size (item ∷ items) i idx prev acc
        ≡ match_items attrs size items
            (i + 1)
            (skip attrs size idx a)
            a.msg_index
            (acc ++ to_item a ∷ [])
  unfolding match_items
  match_items_step item items i idx prev acc a at at' takes = rw (at, at', takes, match_items) refl

  pub match_items-stands :
      (items : List RuleItem) (i idx : ℕ) (m prev : ℤ) (acc : MatchedResult) (rest : Attributes)
      → drop (idx + i) attrs ≡ rest
      → stands items m rest ≡ true
      → (prev ≡ minus_one) ⊎ (prev ≡ m)
      → (r : MatchedResult × ℕ) × (match_items attrs size items i idx prev acc ≡ some r)
        × (length r.0 ≡ length acc + length items)
  match_items-stands [] i idx m prev acc rest e h p =
      ((acc, idx + i), unfold match_items in refl, omega arith)
  match_items-stands (item ∷ items) i idx m prev acc [] e h p = absurd cc
  match_items-stands (item ∷ items) i idx m prev acc (a ∷ rest) e h p =
      let (at, behind) = drop-cons attrs (idx + i) a rest e in
      let (stay, takes, same, more) = stands_cons item items m prev a rest h p in
      let stop : skip attrs size idx a ≡ idx = no_skip attrs size idx a stay in
      let shift : idx + (i + 1) ≡ suc (idx + i) = omega arith in
      let (r, run, len) =
        match_items-stands items (i + 1) idx m a.msg_index (acc ++ to_item a ∷ []) rest
          (ap (λ n. drop n attrs) shift ∙ behind) more (inr same) in
      (
        r,
        match_items_step item items i idx prev acc a at
              (ap (λ n. get_elem? attrs (n + i)) stop ∙ at) takes
            ∙ (ap (λ n. match_items attrs size items (i + 1) n a.msg_index (acc ++ to_item a ∷ []))
                  stop
                ∙ run),
        omega (arith, len, length-append acc (to_item a ∷ [])),
      )
