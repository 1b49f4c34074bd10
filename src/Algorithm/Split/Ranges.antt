-- ===== src/Algorithm/Split/Ranges.antt =====
-- The parts of a table cover its rows.
use worker_unit.Base.{
  ℕ, zero, suc, ◌+◌, ◌-◌, ◌*◌, ◌/◌, ◌<◌, ◌≡◌, refl, ap, ◌∙◌, List, [], ◌∷◌, arith, length,
}
use worker_unit.Algorithm.Split.{ranges_from, split_ranges}

-- Each part begins after the end of the one before it, the first at the given row and the last one
-- ends with the table.
abbrev pub Tiles : ℕ → ℕ → List (ℕ × ℕ) → Type 0
Tiles first last [] = ⊥
Tiles first last (r ∷ []) = (r.0 ≡ first) × (r.1 ≡ last)
Tiles first last (r ∷ s ∷ rs) = (r.0 ≡ first) × (s.0 ≡ r.1 + 1) × Tiles s.0 last (s ∷ rs)

length-ranges_from : (n i start size rows : ℕ) → length (ranges_from n i start size rows) ≡ suc n
unfolding ranges_from
length-ranges_from zero i start size rows = refl
length-ranges_from (suc n) i start size rows =
    ap suc (length-ranges_from n (i + 1) (size * i + 1) size rows)

ranges_from-Tiles : (n i start size rows : ℕ) → Tiles start rows (ranges_from n i start size rows)
unfolding ranges_from
ranges_from-Tiles zero i start size rows = (refl, refl)
ranges_from-Tiles (suc zero) i start size rows = (refl, refl, (refl, refl))
ranges_from-Tiles (suc (suc n)) i start size rows =
    (refl, refl, ranges_from-Tiles (suc n) (i + 1) (size * i + 1) size rows)

-- For at least one thread there are as many parts as threads, and they cover the rows from 1 to the
-- last one without a gap or an overlap.
pub split_ranges-Tiles :
    (threads rows : ℕ)
    → 0 < threads
    → (length (split_ranges threads rows) ≡ threads) × Tiles 1 rows (split_ranges threads rows)
unfolding split_ranges
split_ranges-Tiles threads rows h = (
  length-ranges_from (threads - 1) 1 1 (rows / threads) rows ∙ omega arith,
  ranges_from-Tiles (threads - 1) 1 1 (rows / threads) rows,
)
