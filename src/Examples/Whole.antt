-- ===== src/Examples/Whole.antt =====
-- The learning of a table in two parts, of which the second one ends first.
use worker_unit.Base.{ℕ, ◌≡◌, refl, true, Option, some, List, [], ◌∷◌, arith, length, inl, inr}
use worker_unit.Base.Text.{Bytes, equal, equal-refl, is_empty}
use worker_unit.FileDatabase.{
  read_file, open_file, read_lines, split_string_by_newline, adv_tokenizer, add_head,
}
use worker_unit.Scheduler.Job.{high_priority}
use worker_unit.Algorithm.Elimination.{
  yes, get_confirm_value, first_value, confirmed, is_positive, is_confirmed,
}
use worker_unit.Algorithm.Elimination.Rows.{fields, tokens}
use worker_unit.Algorithm.Elimination.Cover.{Starless}
use worker_unit.Algorithm.Split.{split_ranges, ranges_from}
use worker_unit.Algorithm.Learning.Order.{Orders}
use worker_unit.Algorithm.Learning.Whole.{fresh, Learns, export_parts-Learns}

-- The lines `a,t`, `x,yes`, `x,no` and `y,yes`.
abbrev disk : Option Bytes
disk = some (
    97 ∷ 44 ∷ 116 ∷ 10 ∷ 120 ∷ 44 ∷ 121 ∷ 101 ∷ 115 ∷ 10 ∷ 120 ∷ 44 ∷ 110 ∷ 111 ∷ 10 ∷ 121 ∷ 44
    ∷ 121 ∷ 101 ∷ 115 ∷ [])

abbrev names_ : Bytes → ℕ → Option (List Bytes)
names_ t n = some ((97 ∷ []) ∷ (116 ∷ []) ∷ [])

abbrev values_ : Bytes → Bytes → ℕ → Option (List Bytes)
values_ t c n = some (yes ∷ (110 ∷ 111 ∷ []) ∷ [])

abbrev order_ : List (ℕ × ℕ)
order_ = (2, 3) ∷ (1, 1) ∷ []

four_lines : length (read_lines disk) ≡ 4
unfolding read_lines split_string_by_newline
four_lines = refl

confirm_named : get_confirm_value names_ values_ [] 2 ≡ some yes
unfolding get_confirm_value first_value confirmed is_empty
confirm_named = refl

order_of_two : Orders order_ (split_ranges 2 3)
unfolding split_ranges ranges_from
order_of_two = ((inr (inl refl), (inl refl, tt)), (inr (inl refl), (inl refl, tt)))

first_Starless : Starless (fields 1 (open_file read_file disk))
unfolding fields tokens adv_tokenizer add_head equal open_file read_lines split_string_by_newline
first_Starless = (refl, (refl, tt))

first_positive_ :
    is_positive equal (fields 1 (open_file read_file disk)) (fresh disk 0 yes (1, 3)) ≡ true
unfolding fields tokens adv_tokenizer add_head equal open_file read_lines split_string_by_newline
    is_positive is_confirmed
first_positive_ = refl

export_parts-Learns_example :
    Learns equal names_ values_ disk [] 0
      (fields 1 (open_file read_file disk))
      order_
      (84 ∷ [])
      high_priority
export_parts-Learns_example =
    export_parts-Learns equal names_ values_ disk [] 0 yes 3 four_lines confirm_named equal-refl 2 1
      order_ (84 ∷ []) high_priority (omega arith) order_of_two (omega arith) (omega arith)
      first_Starless first_positive_
