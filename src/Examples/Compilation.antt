-- ===== src/Examples/Compilation.antt =====
-- A query compiled and evaluated.
use bit_lsm.Base.{◌≡◌, refl, true, false, none, some, [], ◌∷◌, arith}
use bit_lsm.Base.Int.{pos, negsuc}
use bit_lsm.Schema.{spec_at}
use bit_lsm.Row.{value_layout}
use bit_lsm.Query.{equal, less, greater, greater_equal, check_condition}
use bit_lsm.Examples.Rows.{options, row}
use bit_lsm.Examples.Queries.{query, query_program, query_valid}
use bit_lsm.Compiled.{
  Pred, CompiledQuery, compile, compile_clauses, compile_members, compile_pred, eval,
}
use bit_lsm.Compiled.Evaluation.{compile_total, eval-check_condition}

abbrev blank : Pred
blank = record {
  is_numeric = false;
  op = equal;
  null_bit = none;
  slot = 0;
  spec = spec_at options.attr_specs 0;
  ival = pos 0;
  uval = 0;
  dval = 0;
  soff = 0;
  slen = 0;
}

abbrev compiled : CompiledQuery
compiled = record {
  preds =
      record blank { is_numeric = true; op = greater_equal; slot = 9; ival = negsuc 6 }
      ∷ record blank { is_numeric = true; op = less; slot = 9; ival = pos 3 }
      ∷ record blank { null_bit = some 0; slot = 0; spec = spec_at options.attr_specs 1; slen = 3 }
      ∷ record blank {
        op = greater;
        slot = 1;
        spec = spec_at options.attr_specs 3;
        soff = 3;
        slen = 1;
      }
      ∷ [];
  clauses =
      record { begin = 0; end = 1 }
      ∷ record { begin = 1; end = 2 }
      ∷ record { begin = 2; end = 4 }
      ∷ [];
  variable_base = 15;
  null_bitmap_bytes = 1;
  arena = 65 ∷ 66 ∷ 67 ∷ 90 ∷ [];
}

compiles : compile query options ≡ some compiled
unfolding query_program compile compile_clauses compile_members compile_pred
compiles = refl

compile_total_example : (c : CompiledQuery) × (compile query options ≡ some c)
compile_total_example = compile_total query options query_valid

eval-check_condition_example : eval compiled row ≡ check_condition query row (value_layout options)
eval-check_condition_example =
    eval-check_condition query options row compiled (omega arith) query_valid compiles (omega arith)
      (omega arith)
