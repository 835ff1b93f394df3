-- ===== src/Examples/Openings.antt =====
-- A scan opened with a query whose clause lists its conditions out of order, and the judgement of a database of one level.
use mathlib.Core.List.{Permᴰ}
use mathlib.Core.List.Permᴰ
use bit_lsm.Base.{
  ℕ, ◌≤◌, ◌<◌, ◌≡◌, refl, inl, inr, true, false, Bool-cases, none, some, [], ◌∷◌, leb,
  if◌then◌else◌, arith,
}
use bit_lsm.Scalar.{u32_mod}
use bit_lsm.Status.{ok}
use bit_lsm.Row.{value_layout}
use bit_lsm.Query.{
  QueryCondition, OrClause, BitLsmQuery, Comparand, equal, greater, validate, check_condition,
}
use bit_lsm.Compiled.{compile, compile_clauses, compile_members, compile_pred}
use bit_lsm.ShadowCheck.{FileRange}
use bit_lsm.Batch.{ResultMode}
use bit_lsm.Batch.Judgement.{Shape, judge, is_authoritative, find_level, are_zeroed}
use bit_lsm.Batch.Authority.{Stored, at_level, authoritative_scan-newest}
use bit_lsm.Batch.Construct.{construct}
use bit_lsm.Database.{ColumnFamily, default_name}
use bit_lsm.Database.NewIterator.{
  Ascending, Sorting, sort_clauses, sort_query, new_iterator, throws,
}
use bit_lsm.Database.Opening.{pred_count, arena_size, verdict, new_iterator-verdict}
use bit_lsm.Examples.Rows.{options, row}
use bit_lsm.Examples.Queries.{query_program}

unfoldable insert : QueryCondition → OrClause → OrClause
insert c [] = c ∷ []
insert c (d ∷ clause) =
    let rest = insert c clause in if leb c.attr_idx d.attr_idx then c ∷ d ∷ clause else d ∷ rest

unfoldable insertion_sort : OrClause → OrClause
insertion_sort [] = []
insertion_sort (c ∷ clause) = insert c (insertion_sort clause)

insert-Perm : (c : QueryCondition) (clause : OrClause) → Permᴰ (c ∷ clause) (insert c clause)
unfolding insert
insert-Perm c [] = Permᴰ.refl (c ∷ [])
insert-Perm c (d ∷ clause) = elim (Bool-cases (leb c.attr_idx d.attr_idx)) [
  | inl first ↦ rw first (Permᴰ.refl (c ∷ d ∷ clause))
  | inr later ↦
      rw later (Permᴰ.trans (Permᴰ.swap refl refl) (Permᴰ.cons refl (insert-Perm c clause)))
]

insertion_sort-Perm : (clause : OrClause) → Permᴰ clause (insertion_sort clause)
unfolding insertion_sort
insertion_sort-Perm [] = Permᴰ.nil
insertion_sort-Perm (c ∷ clause) =
    Permᴰ.trans (Permᴰ.cons refl (insertion_sort-Perm clause))
      (insert-Perm c (insertion_sort clause))

insert-after :
    (d c : QueryCondition) (clause : OrClause)
    → d.attr_idx ≤ c.attr_idx
    → Ascending (d ∷ clause)
    → Ascending (d ∷ insert c clause)
unfolding insert
insert-after d c [] le asc = (le, tt)
insert-after d c (e ∷ clause) le (first, rest) = elim (Bool-cases (leb c.attr_idx e.attr_idx)) [
  | inl before ↦ rw before (le, (ground (arith, before), rest))
  | inr after ↦ rw after (first, insert-after e c clause (ground (arith, after)) rest)
]

insert-Ascending :
    (c : QueryCondition) (clause : OrClause) → Ascending clause → Ascending (insert c clause)
unfolding insert
insert-Ascending c [] asc = tt
insert-Ascending c (d ∷ clause) asc = elim (Bool-cases (leb c.attr_idx d.attr_idx)) [
  | inl before ↦ rw before (ground (arith, before), asc)
  | inr after ↦ rw after (insert-after d c clause (ground (arith, after)) asc)
]

insertion_sort-Ascending : (clause : OrClause) → Ascending (insertion_sort clause)
unfolding insertion_sort
insertion_sort-Ascending [] = tt
insertion_sort-Ascending (c ∷ clause) =
    insert-Ascending c (insertion_sort clause) (insertion_sort-Ascending clause)

abbrev sorting : Sorting
sorting = record {
  sort = insertion_sort;
  permutes = insertion_sort-Perm;
  ascending = insertion_sort-Ascending;
}

abbrev query : BitLsmQuery
query = record {
  clause_groups =
      (record { attr_idx = 3; op = greater; value = Comparand.text (90 ∷ []) }
        ∷ record { attr_idx = 1; op = equal; value = Comparand.text (65 ∷ 66 ∷ 67 ∷ []) }
        ∷ [])
      ∷ [];
}

abbrev cf : ColumnFamily
cf = record { name = default_name; address = 1; id = 0; options = options }

abbrev file : ℕ → FileRange
file number = record {
  number = number;
  smallest_key = 1 ∷ [];
  largest_key = 9 ∷ [];
  largest_seqno = 0;
  num_range_deletions = 0;
}

abbrev shape : Shape
shape = record {
  has_merge_operator = false;
  enable_blob_files = false;
  mem_entries = 0;
  imm_not_flushed = 0;
  l0_files = [];
  levels = [] ∷ (file 7 ∷ file 8 ∷ []) ∷ [];
}

query_valid : validate query options ≡ ok
unfolding query_program
query_valid = refl

few : pred_count (compile (sort_query sorting query) options) < u32_mod
unfolding query_program compile compile_clauses compile_members compile_pred sort_clauses
    insertion_sort insert
few = omega arith

small : arena_size (compile (sort_query sorting query) options) < u32_mod
unfolding query_program compile compile_clauses compile_members compile_pred sort_clauses
    insertion_sort insert
small = omega arith

new_iterator-verdict_example :
    verdict (new_iterator sorting shape 50 (some cf) query ResultMode.verified none).0 row
    ≡ check_condition query row (value_layout options)
new_iterator-verdict_example =
    new_iterator-verdict sorting shape 50 cf query none row (omega arith) query_valid few small

-- Candidate mode asks for a snapshot.
no_snapshot : (new_iterator sorting shape 50 (some cf) query ResultMode.candidate none).0 ≡ throws
unfolding new_iterator construct query_program
no_snapshot = refl

-- Every file holds the key at sequence number 0.
abbrev stored : Stored shape
stored = record {
  in_mem = λ s. ⊥;
  in_imm = λ s. ⊥;
  in_file = λ f s. s ≡ 0;
  mem_counted = λ s inside. absurd inside;
  imm_counted = λ s inside. absurd inside;
  seqno_bound = λ f s inside. omega (arith, inside);
}

authoritative : (judge ResultMode.verified shape).authoritative_scan ≡ true
unfolding judge is_authoritative find_level are_zeroed
authoritative = refl

abbrev two_levels : Shape
two_levels = record shape { levels = (file 6 ∷ []) ∷ (file 7 ∷ []) ∷ [] }

-- Two levels with files are no authority: candidates are checked one by one.
checked : (judge ResultMode.verified two_levels).check_enabled ≡ true
unfolding judge is_authoritative find_level are_zeroed
checked = refl

authoritative_scan-newest_example :
    (ResultMode.verified ≡ ResultMode.verified)
    × ((shape.has_merge_operator ≡ false) × ((shape.enable_blob_files ≡ false) × (0 ≤ 12)))
authoritative_scan-newest_example =
    authoritative_scan-newest shape stored ResultMode.verified 12 0 authoritative
      (at_level 1 1 (file 7 ∷ file 8 ∷ []) (file 8) refl refl refl)
