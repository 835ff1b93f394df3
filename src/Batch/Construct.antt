-- ===== src/Batch/Construct.antt =====
-- The constructor of `BitLSMIterator` of src/include/bit_lsm_iterator.cpp: what a scan is made of. The snapshot is its
-- sequence number, and `latest` that of a snapshot taken now.
use bit_lsm.Base.{ℕ, Bool, true, false, ◌&&◌, Option, none, some, if◌then◌else◌}
use bit_lsm.Schema.{BitLsmOptions}
use bit_lsm.Query.{BitLsmQuery}
use bit_lsm.Compiled.{CompiledQuery, compile}
use bit_lsm.SabiQuery.{SabiQuery, encode_query}
use bit_lsm.Batch.{ResultMode, is_candidate_mode}
use bit_lsm.Batch.Judgement.{Shape, Judgement, judge}

-- `compiled` is none for the empty shell of candidate mode.
pub record BitLsmIterator : Type 0 where
  pub result_mode : ResultMode
  pub read_seqno : ℕ
  pub snapshot_owned : Bool
  pub compiled : Option CompiledQuery
  pub sabi_query : SabiQuery
  pub judgement : Judgement

abbrev pub is_missing : Option ℕ → Bool
is_missing none = true
is_missing (some seqno) = false

abbrev pub seqno_of : ℕ → Option ℕ → ℕ
seqno_of latest none = latest
seqno_of latest (some seqno) = seqno

-- The arguments that are refused by an exception.
abbrev pub refuses_args : ResultMode → Option ℕ → Bool
refuses_args result_mode snapshot = is_candidate_mode result_mode && is_missing snapshot

module _ (shape : Shape) (latest : ℕ) (options : BitLsmOptions) where
  abbrev pub assembled : BitLsmQuery → ResultMode → Option ℕ → Option CompiledQuery → BitLsmIterator
  assembled query result_mode snapshot compiled = record {
    result_mode = result_mode;
    read_seqno = seqno_of latest snapshot;
    snapshot_owned = is_missing snapshot;
    compiled = compiled;
    sabi_query = encode_query query options;
    judgement = judge result_mode shape;
  }

  -- The compilation of the query may throw.
  abbrev pub with_compiled : BitLsmQuery → Option ℕ → Option CompiledQuery → Option BitLsmIterator
  with_compiled query snapshot none = none
  with_compiled query snapshot (some compiled) =
      some (assembled query ResultMode.verified snapshot (some compiled))

  abbrev pub construct_mode : BitLsmQuery → ResultMode → Option ℕ → Option BitLsmIterator
  construct_mode query ResultMode.candidate snapshot =
      some (assembled query ResultMode.candidate snapshot none)
  construct_mode query ResultMode.verified snapshot =
      with_compiled query snapshot (compile query options)

  -- None where the constructor throws.
  unfoldable pub construct : BitLsmQuery → ResultMode → Option ℕ → Option BitLsmIterator
  construct query result_mode snapshot =
      if refuses_args result_mode snapshot then none else construct_mode query result_mode snapshot
