-- ===== src/Database/Opening.antt =====
-- What `NewIterator` of src/include/bit_lsm.cpp opens, against the query that the caller gave.
use bit_lsm.Base.{ℕ, ◌<◌, ◌≡◌, refl, ◌∙◌, Option, none, some, List, [], ◌∷◌, length, Bool}
use bit_lsm.Bytes.{Bytes}
use bit_lsm.Scalar.{u32_mod}
use bit_lsm.Status.{ok}
use bit_lsm.Schema.{BitLsmOptions}
use bit_lsm.Row.{value_layout}
use bit_lsm.Query.{OrClause, BitLsmQuery, validate, check_condition}
use bit_lsm.Query.Validity.{validate_iff}
use bit_lsm.Query.Evaluation.{check_condition-holds}
use bit_lsm.Query.Permuted.{
  Rearranged, no_clauses, clauses, GroupsFit-Rearranged, groups_hold-Rearranged,
}
use bit_lsm.Compiled.{CompiledQuery, compile, eval}
use bit_lsm.Compiled.Evaluation.{compile_total, eval-check_condition}
use bit_lsm.Batch.{ResultMode}
use bit_lsm.Batch.Judgement.{Shape}
use bit_lsm.Batch.Construct.{construct}
use bit_lsm.Database.{ColumnFamily}
use bit_lsm.Database.NewIterator.{
  Sorting, sort_clauses, sort_query, new_iterator, Opened, null_iterator, throws, iterator,
}

-- The sizes of a compiled query, 0 where the compilation throws.
abbrev pub pred_count : Option CompiledQuery → ℕ
pred_count none = 0
pred_count (some c) = length c.preds

abbrev pub arena_size : Option CompiledQuery → ℕ
arena_size none = 0
arena_size (some c) = length c.arena

-- What the compiled query of an opened scan says of a row; none where there is no such query.
abbrev pub compiled_verdict : Option CompiledQuery → Bytes → Option Bool
compiled_verdict none row = none
compiled_verdict (some c) row = eval c row

abbrev pub verdict : Opened → Bytes → Option Bool
verdict null_iterator row = none
verdict throws row = none
verdict (iterator it) row = compiled_verdict it.compiled row

module _ (sorting : Sorting) where
  sort_clauses-Rearranged :
      (groups : List OrClause) → Rearranged groups (sort_clauses sorting groups)
  unfolding sort_clauses
  sort_clauses-Rearranged [] = no_clauses
  sort_clauses-Rearranged (clause ∷ groups) =
      clauses (sorting.permutes clause) (sort_clauses-Rearranged groups)

  validate-sort_query :
      (q : BitLsmQuery) (o : BitLsmOptions)
      → validate q o ≡ ok
      → validate (sort_query sorting q) o ≡ ok
  validate-sort_query q o v = (validate_iff (sort_query sorting q) o).1 (
      GroupsFit-Rearranged o.attr_specs (sort_clauses-Rearranged q.clause_groups)
        ((validate_iff q o).0 v))

  check_condition-sort_query :
      (q : BitLsmQuery) (o : BitLsmOptions) (row : Bytes)
      → length o.attr_specs < u32_mod
      → validate q o ≡ ok
      → check_condition (sort_query sorting q) row (value_layout o)
        ≡ check_condition q row (value_layout o)
  check_condition-sort_query q o row wide v =
      rw
        (
          check_condition-holds (sort_query sorting q) o row wide (validate-sort_query q o v),
          check_condition-holds q o row wide v,
          groups_hold-Rearranged _ (sort_clauses-Rearranged q.clause_groups),
        )
        refl

  -- A verified scan that is opened with a valid query, on a column family of fewer than 2^32 attributes, where
  -- the sorted query compiles into fewer than 2^32 predicates and arena bytes, is an iterator whose compiled
  -- query says of any row what the reference evaluation of the caller's own query says.
  pub new_iterator-verdict :
      (shape : Shape) (latest : ℕ) (cf : ColumnFamily) (q : BitLsmQuery) (snapshot : Option ℕ)
      (row : Bytes)
      → length cf.options.attr_specs < u32_mod
      → validate q cf.options ≡ ok
      → pred_count (compile (sort_query sorting q) cf.options) < u32_mod
      → arena_size (compile (sort_query sorting q) cf.options) < u32_mod
      → verdict (new_iterator sorting shape latest (some cf) q ResultMode.verified snapshot).0 row
        ≡ check_condition q row (value_layout cf.options)
  unfolding new_iterator construct
  new_iterator-verdict shape latest cf q snapshot row wide v few small =
      let sorted_valid = validate-sort_query q cf.options v in
      let (c, compiles) = compile_total (sort_query sorting q) cf.options sorted_valid in
      let few_preds : length c.preds < u32_mod = rw compiles at few in
      let small_arena : length c.arena < u32_mod = rw compiles at small in
      let same =
        eval-check_condition (sort_query sorting q) cf.options row c wide sorted_valid compiles
          few_preds small_arena in
      rw (v, compiles) (same ∙ check_condition-sort_query q cf.options row wide v)
