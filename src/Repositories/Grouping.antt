-- ===== src/Repositories/Grouping.antt =====
-- `select(column, func.count()).group_by(column)`: the groups in the order of their first rows, which the
-- callers put in an order of their own.
use financial_notification_p.Prelude.{ℕ, ◌+◌, Bool, List, [], ◌∷◌, if◌then◌else◌}

module _ {A : Type 0} (equals : A → A → Bool) where
  -- one more row with this value
  unfoldable pub count_one : A → List (A × ℕ) → List (A × ℕ)
  count_one a [] = (a, 1) ∷ []
  count_one a ((b, n) ∷ groups) =
      if equals b a then (b, n + 1) ∷ groups else (b, n) ∷ count_one a groups

  unfoldable pub count_groups : List A → List (A × ℕ) → List (A × ℕ)
  unfolding count_one
  count_groups [] groups = groups
  count_groups (a ∷ rows) groups = count_groups rows (count_one a groups)
