-- ===== src/Collector/Heights.antt =====
-- The heights of collector/collector.go as a list, and the arithmetic of its loop.
use cosmwasm_etl.Prelude.{
  ℕ, suc, ◌+◌, ◌≡◌, ◌≤◌, ◌<◌, Bool, true, false, ◌||◌, if◌then◌else◌, ltb, leb, eqb, List, [], ◌∷◌,
  arith,
}
use cosmwasm_etl.Dex.App.State.{u64}
use cosmwasm_etl.Collector.{next_height, bounded_target_height, reached_until_height}
use cosmwasm_etl.Collector.Runner.{before}

-- The local height, of the heights that are stored, the last one first.
abbrev pub last_height : ℕ → List ℕ → ℕ
last_height start [] = before start
last_height start (h ∷ hs) = h

-- The height behind the local one, or the start where that is higher.
abbrev pub resume : ℕ → ℕ → ℕ
resume start local = if ltb (local + 1) start then start else local + 1

-- Each height is the one behind the height stored before it, or the start where that is higher.
abbrev pub IsContiguous : ℕ → List ℕ → Type 0
IsContiguous start [] = Unit
IsContiguous start (h ∷ hs) = (h ≡ resume start (last_height start hs)) × IsContiguous start hs

-- Above the last height stored.
abbrev pub IsAbove : ℕ → List ℕ → Type 0
IsAbove h [] = Unit
IsAbove h (k ∷ hs) = k < h

pub resume-IsAbove :
    (start h : ℕ) (hs : List ℕ) → h ≡ resume start (last_height start hs) → IsAbove h hs
resume-IsAbove start h [] e = tt
resume-IsAbove start h (k ∷ hs) e = ground (arith, e)

abbrev pub within : ℕ → ℕ → Bool
within until h = eqb until 0 || leb h until

pub resume_next :
    (start local height target : ℕ)
    → height ≡ resume start local
    → height ≤ target
    → target < 18446744073709551615
    → u64 (height + 1) ≡ resume start height
resume_next start local height target e below word = ground (arith, e, below, word)

pub within_below :
    (until height target : ℕ)
    → within until target ≡ true
    → height ≤ target
    → within until height ≡ true
within_below until height target t below = ground (arith, t, below)

pub next_enough :
    (n height target : ℕ)
    → height ≤ target
    → target < 18446744073709551615
    → target + 1 < suc n + height
    → target + 1 < n + u64 (height + 1)
next_enough n height target below word enough = ground (arith, below, word, enough)

pub next_below :
    (height target : ℕ)
    → height ≤ target
    → target < 18446744073709551615
    → u64 (height + 1) ≤ target + 1
next_below height target below word = ground (arith, below, word)

pub leb_le : (a b : ℕ) → leb a b ≡ true → a ≤ b
leb_le a b e = ground (arith, e)

module _ (start until : ℕ) where
  pub target_word :
      (src : ℕ)
      → src < 18446744073709551615
      → bounded_target_height src until < 18446744073709551615
  target_word src word = ground (arith, word)

  pub target_within : (src : ℕ) → within until (bounded_target_height src until) ≡ true
  target_within src = ground arith

  pub reached_until :
      (local : ℕ) → reached_until_height local until ≡ true → (0 < until) × (until ≤ local)
  reached_until local e = (ground (arith, e), ground (arith, e))

  pub next_resumes :
      (local target : ℕ)
      → leb target local ≡ false
      → target < 18446744073709551615
      → next_height start local ≡ resume start local
  next_resumes local target f word = ground (arith, f, word)

  pub not_above : (a b : ℕ) → ltb a b ≡ false → b ≤ a + 1
  not_above a b f = ground (arith, f)
