-- ===== src/Scan/Merged.antt =====
-- A whole merge, from `SeekToFirst` of src/include/bit_lsm_merging_iterator.cpp on.
use bit_lsm.Base.{
  suc, ◌≡◌, ◌⊎◌, refl, inl, inr, Bool, true, false, Bool-cases, List, [], ◌∷◌, length, arith,
}
use mathlib.Core.Path.{subst}
use mathlib.Core.List.{Perm}
use bit_lsm.Status.{Status, ok, is_ok}
use bit_lsm.Scan.{InternalIterator, Yields}
use bit_lsm.Scan.Merging.{
  Child, MergingIterator, clear_heap, seek_children, seek_to_first, merging_iterator, seek_rest,
}
use bit_lsm.Scan.MergedTop.{all_rows, all_ok, IsTotal, Ascends, AllAscend, Stands}
use bit_lsm.Scan.MergedRows.{Outcome, merge-Outcome, is_ok→ok}

module _ {It Row : Type 0} (ops : InternalIterator It Row) (le : Row → Row → Bool) where
  -- Each child, when it is taken to its first row, gives its stream.
  abbrev pub EachYields : List (Child It) → List (List Row × Status) → Type 0
  EachYields [] [] = Unit {0}
  EachYields [] (stream ∷ streams) = ⊥
  EachYields (c ∷ children) [] = ⊥
  EachYields (c ∷ children) ((rows, s) ∷ streams) =
      Yields ops (ops.seek_to_first c.iter) rows s × EachYields children streams

  -- The children stand at their first rows, or one of them failed.
  abbrev Sought : List (Child It) × Status → List (List Row × Status) → Type 0
  Sought (children, s) streams =
      ((is_ok s ≡ true) × Stands ops le children streams)
      ⊎ ((is_ok s ≡ false) × (all_ok streams ≡ false))

  seek_rest-Sought :
      (it : It) (rows : List Row) (s : Status) (children : List (Child It))
      (rest : List (Child It) × Status) (streams : List (List Row × Status))
      → Yields ops it rows s
      → Sought rest streams
      → Sought (seek_rest ops le it children rest) ((rows, s) ∷ streams)
  unfolding Yields
  seek_rest-Sought it (r ∷ rows) s children (back, t) streams ((valid, row), y) (inl (good, st)) =
      rw valid (inl (good, ((valid, ((valid, row), y)), st)))
  seek_rest-Sought it (r ∷ rows) s children (back, t) streams ((valid, row), y) (inr (bad, lost)) =
      rw valid (inr (bad, ground (arith, lost)))
  seek_rest-Sought it [] s children (back, t) streams (done, status) sought =
      elim (Bool-cases (is_ok s)) [
        | inl good ↦
            let end : is_ok (ops.status it) ≡ true = rw status good in
            rw (done, end)
              (elim sought [
                | inl (fine, st) ↦ inl (fine, ((refl, is_ok→ok s good), st))
                | inr (bad, lost) ↦ inr (bad, ground (arith, lost))
              ])
        | inr bad ↦
            let end : is_ok (ops.status it) ≡ false = rw status bad in
            rw (done, end) (inr (end, ground (arith, bad)))
      ]

  seek_children-Sought :
      (children : List (Child It)) (streams : List (List Row × Status))
      → EachYields children streams
      → Sought (seek_children ops le (clear_heap children)) streams
  unfolding seek_children clear_heap
  seek_children-Sought [] [] each = inl (refl, tt)
  seek_children-Sought [] (stream ∷ streams) each = elim each [ ]
  seek_children-Sought (c ∷ children) [] each = elim each [ ]
  seek_children-Sought (c ∷ children) ((rows, s) ∷ streams) each =
      seek_rest-Sought (ops.seek_to_first c.iter) rows s (clear_heap children) _ streams each.0
        (seek_children-Sought children streams each.1)

  module _ (total : IsTotal le) where
    seek_to_first-Outcome :
        (lo : Row) (it : MergingIterator It) (streams : List (List Row × Status))
        → it.status ≡ ok
        → EachYields it.ch_iters streams
        → AllAscend le lo streams
        → Outcome ops le lo (seek_to_first ops le it) streams
    unfolding seek_to_first Yields merging_iterator Ascends
    seek_to_first-Outcome lo it streams fine each a =
        let start : is_ok it.status ≡ true = rw fine refl in
        elim (seek_children-Sought it.ch_iters streams each) [
          | inl (good, st) ↦
              rw (start, good)
                (merge-Outcome ops le total (suc (length (all_rows streams))) lo _ streams fine refl
                  st a (omega arith))
          | inr (bad, lost) ↦
              rw (start, bad)
                (record {
                  rows = [];
                  end = (seek_children ops le (clear_heap it.ch_iters)).1;
                  yields = (refl, refl);
                  sorted = tt;
                  complete = λ h. absurd (ground (arith, h, lost));
                  stopped = λ h. bad;
                })
        ]

    -- Where each child, taken to its first row, gives an ascending stream of rows that ends with an OK status,
    -- the merge from its first row on gives all the children's rows, in ascending order, and ends with an OK
    -- status.
    pub seek_to_first-merges :
        (lo : Row) (it : MergingIterator It) (streams : List (List Row × Status))
        → it.status ≡ ok
        → EachYields it.ch_iters streams
        → AllAscend le lo streams
        → all_ok streams ≡ true
        → (rows : List Row) × (Yields (merging_iterator ops le) (seek_to_first ops le it) rows ok
            × (Ascends le lo rows × Perm rows (all_rows streams)))
    seek_to_first-merges lo it streams fine each a good =
        let o = seek_to_first-Outcome lo it streams fine each a in
        let (end, perm) = o.complete good in
        (
          o.rows,
          (
            subst (λ s. Yields (merging_iterator ops le) (seek_to_first ops le it) o.rows s) end
                o.yields,
            (o.sorted, perm),
          ),
        )

    -- Where each child gives an ascending stream and one of the streams ends with an error, the merge gives some
    -- ascending rows and ends with an error, never with OK.
    pub seek_to_first-stops :
        (lo : Row) (it : MergingIterator It) (streams : List (List Row × Status))
        → it.status ≡ ok
        → EachYields it.ch_iters streams
        → AllAscend le lo streams
        → all_ok streams ≡ false
        → (rows : List Row) × ((s : Status) × (Yields
                (merging_iterator ops le)
                (seek_to_first ops le it)
                rows
                s
              × (Ascends le lo rows × (is_ok s ≡ false))))
    seek_to_first-stops lo it streams fine each a bad =
        let o = seek_to_first-Outcome lo it streams fine each a in
        (o.rows, (o.end, (o.yields, (o.sorted, o.stopped bad))))
