-- ===== src/Examples/Queries.antt =====
-- The theorems on queries, on a schema of four attributes and one of its rows.
use bit_lsm.Base.{◌≡◌, ◌↔◌, refl, true, some, [], ◌∷◌, arith, suc, zero, false}
use bit_lsm.Base.Int.{pos, negsuc}
use bit_lsm.Memory.{le_bytes, of_le_bytes, bswap64}
use bit_lsm.Okey.{i64_to_okey, okey_to_bytes}
use bit_lsm.Interval.{from_op, empty}
use bit_lsm.SabiQuery.{
  encode_clauses, encode_clause, encode_ordered, find_merged, comparand_bytes, comparand_to_okey,
}
use bit_lsm.Bytes.{compare_bytes}
use bit_lsm.Status.{ok}
use bit_lsm.Examples.Rows.{options, row, program}
use bit_lsm.Memory.Endian.{AllBytes}
use bit_lsm.Schema.{spec_at}
use bit_lsm.Row.{value_layout, decode_attr}
use bit_lsm.Row.Decoded.{attr_has_type, decode_attr-type}
use bit_lsm.Query.{
  equal, less, greater, greater_equal, Comparand, BitLsmQuery, check_condition, check_clauses,
  check_clause, eval_condition, validate, validate_groups, validate_conditions,
}
use bit_lsm.Query.Validity.{GroupsFit, validate_iff}
use bit_lsm.Query.Evaluation.{groups_hold, check_condition-holds}
use bit_lsm.SabiQuery.{
  encoded_attr, encode_query, encode_clauses, encode_clause, encode_ordered, find_merged,
  comparand_bytes, comparand_to_okey,
}
use bit_lsm.SabiQuery.Meaning.{EncodedRow, byte_groups, sabi_matches}
use bit_lsm.SabiQuery.Equivalence.{encode_query-matches}
use bit_lsm.SabiQuery.Soundness.{encode_query_sound}

row-AllBytes : AllBytes row
row-AllBytes = (
  omega arith,
  (
    omega arith,
    (
      omega arith,
      (
        omega arith,
        (
          omega arith,
          (
            omega arith,
            (
              omega arith,
              (
                omega arith,
                (
                  omega arith,
                  (
                    omega arith,
                    (
                      omega arith,
                      (
                        omega arith,
                        (
                          omega arith,
                          (
                            omega arith,
                            (
                              omega arith,
                              (
                                omega arith,
                                (
                                  omega arith,
                                  (omega arith, (omega arith, (omega arith, (omega arith, tt)))),
                                ),
                              ),
                            ),
                          ),
                        ),
                      ),
                    ),
                  ),
                ),
              ),
            ),
          ),
        ),
      ),
    ),
  ),
)

-- a0 >= -7 AND a0 < 3 AND (a1 = "ABC" OR a3 > "Z").
abbrev pub query : BitLsmQuery
query = record {
  clause_groups =
      (record { attr_idx = 0; op = greater_equal; value = Comparand.int (negsuc 6) } ∷ [])
      ∷ (record { attr_idx = 0; op = less; value = Comparand.int (pos 3) } ∷ [])
      ∷ (record { attr_idx = 1; op = equal; value = Comparand.text (65 ∷ 66 ∷ 67 ∷ []) }
          ∷ record { attr_idx = 3; op = greater; value = Comparand.text (90 ∷ []) }
          ∷ [])
      ∷ [];
}

unfoldable pub query_program : Unit {0}
unfolding program validate validate_groups validate_conditions check_condition check_clauses
    check_clause eval_condition compare_bytes
query_program = tt

pub query_valid : validate query options ≡ ok
unfolding query_program
query_valid = refl

row_accepted : check_condition query row (value_layout options) ≡ some true
unfolding query_program
row_accepted = refl

validate_iff_example :
    (validate query options ≡ ok) ↔ GroupsFit options.attr_specs query.clause_groups
validate_iff_example = validate_iff query options

check_condition-holds_example :
    check_condition query row (value_layout options)
    ≡ some (groups_hold (λ i. decode_attr (value_layout options) row i) query.clause_groups)
check_condition-holds_example = check_condition-holds query options row (omega arith) query_valid

abbrev pub two_keys : EncodedRow
two_keys zero = some (127 ∷ 255 ∷ 255 ∷ 255 ∷ 255 ∷ 255 ∷ 255 ∷ 254 ∷ [])
two_keys (suc i) = some (65 ∷ [])

encode_query-matches_example :
    sabi_matches options.attr_specs two_keys (encode_query query options)
    ≡ byte_groups two_keys query.clause_groups
encode_query-matches_example =
    encode_query-matches query options two_keys
      ((λ e. cc, tt), ((λ e. cc, tt), ((λ e. refl, (λ e. cc, tt)), tt)))

encode_query_sound_example :
    sabi_matches options.attr_specs
      (λ i. encoded_attr (decode_attr (value_layout options) row i))
      (encode_query query options)
    ≡ true
encode_query_sound_example =
    encode_query_sound query options row (omega arith) (refl, (refl, (refl, (refl, tt))))
      row-AllBytes ((omega arith, tt), ((omega arith, tt), ((tt, (tt, tt)), tt))) query_valid
      row_accepted

decode_attr-type_example :
    attr_has_type
      (spec_at options.attr_specs 0).physical_type
      (decode_attr (value_layout options) row 0)
    ≡ true
decode_attr-type_example = decode_attr-type options row 0

-- a0 < INT64_MIN, which no row satisfies, is not marked.
abbrev edge : BitLsmQuery
edge = record {
  clause_groups =
      (record { attr_idx = 0; op = less; value = Comparand.int (negsuc 0x7fff_ffff_ffff_ffff) }
        ∷ [])
      ∷ [];
}

edge-unsat : (encode_query edge options).unsat ≡ false
unfolding encode_query encode_clauses encode_clause encode_ordered find_merged comparand_bytes
    comparand_to_okey i64_to_okey okey_to_bytes le_bytes of_le_bytes bswap64 from_op empty
    compare_bytes
edge-unsat = refl
