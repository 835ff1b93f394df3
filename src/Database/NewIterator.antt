-- ===== src/Database/NewIterator.antt =====
-- Opening a scan: `NewIterator` of src/include/bit_lsm.cpp. `std::sort` is a parameter, since it leaves open how it orders
-- the conditions of one attribute.
use mathlib.Core.List.{Permᴰ}
use bit_lsm.Base.{ℕ, ◌≤◌, Option, none, some, List, [], ◌∷◌, if◌then◌else◌}
use bit_lsm.Status.{is_ok}
use bit_lsm.Query.{OrClause, BitLsmQuery, validate}
use bit_lsm.Batch.{ResultMode}
use bit_lsm.Batch.Judgement.{Shape}
use bit_lsm.Batch.Construct.{BitLsmIterator, construct}
use bit_lsm.Database.{ColumnFamily}

abbrev pub Ascending : OrClause → Type 0
Ascending [] = Unit {0}
Ascending (c ∷ []) = Unit {0}
Ascending (c ∷ d ∷ clause) = (c.attr_idx ≤ d.attr_idx) × Ascending (d ∷ clause)

-- `std::sort` by `attr_idx`.
pub record Sorting : Type 0 where
  pub sort : OrClause → OrClause
  pub permutes : (clause : OrClause) → Permᴰ clause (sort clause)
  pub ascending : (clause : OrClause) → Ascending (sort clause)

-- Null, an exception, or an iterator.
pub data Opened : Type 0 where
  null_iterator throws : Opened
  iterator : BitLsmIterator → Opened

abbrev pub unless_thrown : Option BitLsmIterator → Opened
unless_thrown none = throws
unless_thrown (some it) = iterator it

module _ (sorting : Sorting) where
  unfoldable pub sort_clauses : List OrClause → List OrClause
  sort_clauses [] = []
  sort_clauses (clause ∷ groups) = sorting.sort clause ∷ sort_clauses groups

  abbrev pub sort_query : BitLsmQuery → BitLsmQuery
  sort_query query = record { clause_groups = sort_clauses query.clause_groups }

  module _ (shape : Shape) (latest : ℕ) where
    -- With the caller's query, which is sorted in place.
    unfoldable pub new_iterator :
        Option ColumnFamily → BitLsmQuery → ResultMode → Option ℕ → Opened × BitLsmQuery
    new_iterator none query result_mode snapshot = (null_iterator, query)
    new_iterator (some cf) query result_mode snapshot =
        if is_ok (validate query cf.options)
        then (
          unless_thrown (construct shape latest cf.options (sort_query query) result_mode snapshot),
          sort_query query,
        )
        else (null_iterator, query)
