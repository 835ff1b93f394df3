-- ===== src/Examples/Batches.antt =====
-- A verified and a candidate scan over a merge of five rows, of which one is an older version and one is deleted above.
use bit_lsm.Base.{
  ℕ, zero, suc, ◌≡◌, refl, Bool, true, false, Option, none, some, List, [], ◌∷◌, leb, arith,
}
use bit_lsm.Base.Int.{pos}
use bit_lsm.Bytes.{Bytes, compare_bytes}
use bit_lsm.Status.{Status, ok, corruption, not_found}
use bit_lsm.Scan.{Yields}
use bit_lsm.Scan.MemTable.{ParsedInternalKey, type_other}
use bit_lsm.Batch.{Settings, ResultMode, verified, candidate, MergedRow, Origin}
use bit_lsm.Batch.Fetch.{batch_iterator, new_batch_iterator, seek_to_first}
use bit_lsm.Batch.Verdicts.{AllJudged, Fetches}
use bit_lsm.Batch.Candidates.{distinct}
use bit_lsm.Batch.Answers.{seek_to_first-results, seek_to_first-keys, seek_to_first-ends}
use bit_lsm.Batch.Repeats.{Ascends, user_keys}
use bit_lsm.Batch.Given.{GivenAnswers, GivenKeys, seek_to_first-answers, seek_to_first-bare_keys}
use bit_lsm.Examples.Scans.{list_iterator, list_iterator-Yields}

-- The user key is the first byte, the sequence number the second.
abbrev parse : Bytes → Option ParsedInternalKey
parse (k ∷ n ∷ []) = some (record { user_key = k ∷ []; sequence = n; type = type_other })
parse _ = none

-- Key 2 has a newer value, key 3 is deleted.
abbrev newest : Bytes → Option Bytes
newest (suc zero ∷ []) = some (7 ∷ [])
newest (suc (suc zero) ∷ []) = some (6 ∷ [])
newest (suc (suc (suc (suc zero))) ∷ []) = some (9 ∷ [])
newest _ = none

abbrev answer : Option Bytes → Status × Bytes
answer none = (not_found, [])
answer (some v) = (ok, v)

abbrev is_small : Bytes → Bool
is_small [] = false
is_small (v ∷ value) = leb v 10

abbrev may_have_newer : Bytes → Origin → Bool
may_have_newer (suc zero ∷ []) origin = false
may_have_newer (suc (suc (suc (suc zero))) ∷ []) origin = false
may_have_newer _ origin = true

abbrev settings : ResultMode → Settings
settings mode = record {
  result_mode = mode;
  authoritative_scan = false;
  compiled = some is_small;
  parse_internal_key = parse;
  may_have_newer_version = may_have_newer;
  get = λ key. answer (newest key);
}

abbrev row : ℕ → ℕ → ℕ → MergedRow
row k n v = record {
  key = k ∷ n ∷ [];
  value = v ∷ [];
  source_level = pos 1;
  source_file = 12;
  has_newer_in_source = false;
}

abbrev rows : List MergedRow
rows = row 1 5 7 ∷ row 1 3 2 ∷ row 2 4 8 ∷ row 3 2 1 ∷ row 4 9 9 ∷ []

reads : (key : Bytes) → Fetches (settings verified) newest (answer (newest key)) (newest key)
reads key = go (newest key)
  where
    go : (o : Option Bytes) → Fetches (settings verified) newest (answer o) o
    go none = refl
    go (some v) = (refl, refl)

rows-AllJudged : AllJudged (settings verified) newest (distinct (settings verified) [] rows)
unfolding compare_bytes
rows-AllJudged = (
  ((λ e. (refl, refl)), λ e. (refl, refl)),
  (
    ((λ e. absurd (ground (arith, e))), λ e. absurd (ground (arith, e))),
    (
      ((λ e. absurd (ground (arith, e))), λ e. absurd (ground (arith, e))),
      (((λ e. (refl, refl)), λ e. (refl, refl)), tt),
    ),
  ),
)

-- What the two scans give.
verified_rows :
    Yields
      (batch_iterator (settings verified) list_iterator 6)
      (seek_to_first (settings verified) list_iterator 6 (new_batch_iterator (rows, ok) true))
      ((1 ∷ [], some (7 ∷ [])) ∷ (2 ∷ [], some (6 ∷ [])) ∷ (4 ∷ [], some (9 ∷ [])) ∷ [])
      ok
unfolding compare_bytes
verified_rows =
    seek_to_first-results (settings verified) newest list_iterator 6 (rows, ok) true rows refl reads
      rows-AllJudged (list_iterator-Yields rows ok) (omega arith)

candidate_rows :
    Yields
      (batch_iterator (settings candidate) list_iterator 6)
      (seek_to_first (settings candidate) list_iterator 6 (new_batch_iterator (rows, ok) false))
      ((1 ∷ [], none) ∷ (2 ∷ [], none) ∷ (3 ∷ [], none) ∷ (4 ∷ [], none) ∷ [])
      ok
unfolding compare_bytes
candidate_rows =
    seek_to_first-keys (settings candidate) newest list_iterator 6 (rows, ok) false rows refl
      (list_iterator-Yields rows ok) (omega arith)

rows-Ascends : (mode : ResultMode) → Ascends [] (user_keys (settings mode) rows)
unfolding compare_bytes
rows-Ascends mode = (
  (λ e. absurd (ground (arith, e))),
  (
    (λ e. absurd (ground (arith, e))),
    (
      (λ e. absurd (ground (arith, e))),
      ((λ e. absurd (ground (arith, e))), ((λ e. absurd (ground (arith, e))), tt)),
    ),
  ),
)

seek_to_first-answers_example :
    (given : List (Bytes × Option Bytes)) × (GivenAnswers (settings verified) newest rows given
      × Yields
          (batch_iterator (settings verified) list_iterator 6)
          (seek_to_first (settings verified) list_iterator 6 (new_batch_iterator (rows, ok) true))
          given
          ok)
seek_to_first-answers_example =
    seek_to_first-answers (settings verified) newest list_iterator 6 (rows, ok) true rows
      (rows-Ascends verified) tt (list_iterator-Yields rows ok) (omega arith) refl reads
      rows-AllJudged

seek_to_first-bare_keys_example :
    (given : List (Bytes × Option Bytes)) × (GivenKeys (settings candidate) rows given
      × Yields
          (batch_iterator (settings candidate) list_iterator 6)
          (seek_to_first (settings candidate) list_iterator 6 (new_batch_iterator (rows, ok) false))
          given
          ok)
seek_to_first-bare_keys_example =
    seek_to_first-bare_keys (settings candidate) newest list_iterator 6 (rows, ok) false rows
      (rows-Ascends candidate) tt (list_iterator-Yields rows ok) (omega arith) refl

seek_to_first-ends_example :
    (given : List (Bytes × Option Bytes)) × Yields
      (batch_iterator (settings verified) list_iterator 6)
      (seek_to_first
        (settings verified)
        list_iterator
        6
        (new_batch_iterator (rows, corruption) true))
      given
      corruption
seek_to_first-ends_example =
    seek_to_first-ends (settings verified) newest list_iterator 6 (rows, corruption) true rows
      corruption reads rows-AllJudged (list_iterator-Yields rows corruption) (omega arith)

-- A key without bytes is that of the latest key at the start, and its row is left out.
abbrev empty_key_settings : Settings
empty_key_settings = record (settings candidate) {
  parse_internal_key = λ key. some (record { user_key = []; sequence = 1; type = type_other });
}

empty_key_left_out : distinct empty_key_settings [] (row 1 1 1 ∷ []) ≡ []
unfolding compare_bytes
empty_key_left_out = refl
