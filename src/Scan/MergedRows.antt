-- ===== src/Scan/MergedRows.antt =====
-- The rows of a merge: `SeekToFirst` and `Next` of src/include/bit_lsm_merging_iterator.cpp.
use bit_lsm.Base.{
  ℕ, zero, suc, ◌<◌, ◌≡◌, refl, ap, ◌∙◌, sym, inl, inr, Bool, true, false, Bool-cases, not, ◌&&◌,
  some, List, [], ◌∷◌, ◌++◌, length, get_elem?, set, arith, length-append,
}
use mathlib.Core.Path.{subst}
use mathlib.Core.List.{Perm, perm_middle}
use mathlib.Core.List.Perm
use bit_lsm.Status.{Status, ok, is_ok}
use bit_lsm.Scan.{InternalIterator, Yields}
use bit_lsm.Scan.Merging.{Child, MergingIterator, heap_is_empty, next, put_back, merging_iterator}
use bit_lsm.Scan.MergedTop.{
  all_rows, all_ok, IsTotal, Ascends, AllAscend, Fits, Stands, Done, Popped, pop,
}

pub is_ok→ok : (s : Status) → is_ok s ≡ true → s ≡ ok
is_ok→ok s h = ground arith

module _ {Row : Type 0} where
  -- Taking the first row of a stream.
  all_rows-set :
      (streams : List (List Row × Status)) (i : ℕ) (r : Row) (rows : List Row) (s : Status)
      → get_elem? streams i ≡ some (r ∷ rows, s)
      → Perm (all_rows streams) (r ∷ all_rows (set streams i (rows, s)))
  unfolding all_rows
  all_rows-set [] i r rows s h = absurd (ground arith)
  all_rows-set ((l, t) ∷ streams) zero r rows s h =
      let same : l ≡ r ∷ rows = ground (arith, h) in
      subst (λ l'. Perm (l' ++ all_rows streams) (r ∷ (rows ++ all_rows streams))) (sym same)
        (Perm.refl _)
  all_rows-set ((l, t) ∷ streams) (suc i) r rows s h =
      Perm.trans (Perm.append_left l (all_rows-set streams i r rows s h)) (perm_middle l _)

  length-set_rows :
      (streams : List (List Row × Status)) (i : ℕ) (r : Row) (rows : List Row) (s : Status)
      → get_elem? streams i ≡ some (r ∷ rows, s)
      → length (all_rows streams) ≡ suc (length (all_rows (set streams i (rows, s))))
  unfolding all_rows
  length-set_rows [] i r rows s h = absurd (ground arith)
  length-set_rows ((l, t) ∷ streams) zero r rows s h =
      let same : l ≡ r ∷ rows = ground (arith, h) in rw same refl
  length-set_rows ((l, t) ∷ streams) (suc i) r rows s h = omega (
    arith,
    length-append l (all_rows streams),
    length-append l (all_rows (set streams i (rows, s))),
    length-set_rows streams i r rows s h,
  )

  all_ok-set :
      (streams : List (List Row × Status)) (i : ℕ) (old rows : List Row) (s : Status)
      → get_elem? streams i ≡ some (old, s)
      → all_ok (set streams i (rows, s)) ≡ all_ok streams
  all_ok-set [] i old rows s h = refl
  all_ok-set ((l, t) ∷ streams) zero old rows s h =
      let same : t ≡ s = ground (arith, h) in rw same refl
  all_ok-set ((l, t) ∷ streams) (suc i) old rows s h =
      ap (λ b. is_ok t && b) (all_ok-set streams i old rows s h)

  not_all_ok :
      (streams : List (List Row × Status)) (i : ℕ) (old : List Row) (s : Status)
      → get_elem? streams i ≡ some (old, s)
      → is_ok s ≡ false
      → all_ok streams ≡ false
  not_all_ok [] i old s h bad = absurd (ground arith)
  not_all_ok ((l, t) ∷ streams) zero old s h bad =
      let same : t ≡ s = ground (arith, h) in rw (same, bad) refl
  not_all_ok ((l, t) ∷ streams) (suc i) old s h bad =
      ground (arith, not_all_ok streams i old s h bad)

module _ {Row : Type 0} (le : Row → Row → Bool) where
  AllAscend-set :
      (streams : List (List Row × Status)) (i : ℕ) (r : Row) (rows : List Row) (s : Status)
      → get_elem? streams i ≡ some (r ∷ rows, s)
      → AllAscend le r streams
      → AllAscend le r (set streams i (rows, s))
  unfolding Ascends
  AllAscend-set [] i r rows s h a = tt
  AllAscend-set ((l, t) ∷ streams) zero r rows s h a =
      let same : l ≡ r ∷ rows = ground (arith, h) in ((subst (Ascends le r) same a.0).1, a.1)
  AllAscend-set ((l, t) ∷ streams) (suc i) r rows s h a =
      (a.0, AllAscend-set streams i r rows s h a.1)

module _ {It Row : Type 0} (ops : InternalIterator It Row) (le : Row → Row → Bool) where
  Stands-set :
      (children : List (Child It)) (streams : List (List Row × Status)) (i : ℕ) (b : Bool) (it : It)
      (rows : List Row) (s : Status)
      → Fits ops le b it rows s
      → Stands ops le children streams
      → Stands ops le (set children i (record { iter = it; in_heap = b })) (set streams i (rows, s))
  Stands-set [] [] i b it rows s fits st = tt
  Stands-set [] (stream ∷ streams) i b it rows s fits st = elim st [ ]
  Stands-set (c ∷ children) [] i b it rows s fits st = elim st [ ]
  Stands-set (c ∷ children) ((l, t) ∷ streams) zero b it rows s fits st = (fits, st.1)
  Stands-set (c ∷ children) ((l, t) ∷ streams) (suc i) b it rows s fits st =
      (st.0, Stands-set children streams i b it rows s fits st.1)

  -- Where the merge stands, its rows: sorted, and all of them unless a child ends in an error.
  pub record Outcome (lo : Row) (it : MergingIterator It) (streams : List (List Row × Status))
      : Type 0 where
    pub rows : List Row
    pub end : Status
    pub yields : Yields (merging_iterator ops le) it rows end
    pub sorted : Ascends le lo rows
    pub complete : all_ok streams ≡ true → (end ≡ ok) × Perm rows (all_rows streams)
    pub stopped : all_ok streams ≡ false → is_ok end ≡ false

  Done-Outcome :
      (lo : Row) (it : MergingIterator It) (streams : List (List Row × Status))
      → it.status ≡ ok
      → it.valid ≡ not (heap_is_empty ops le it.ch_iters)
      → Done ops le it.ch_iters streams
      → Outcome lo it streams
  unfolding Yields Ascends merging_iterator
  Done-Outcome lo it streams fine valid d = record {
    rows = [];
    end = ok;
    yields = (rw (valid, d.heap) refl, fine);
    sorted = tt;
    complete = λ h. (refl, rw d.rows (Perm.refl []));
    stopped = λ h. absurd (ground (arith, h, d.fine));
  }

  module _ (total : IsTotal le) where
    Popped-Outcome :
        (lo : Row) (it : MergingIterator It) (streams : List (List Row × Status))
        → it.status ≡ ok
        → it.valid ≡ not (heap_is_empty ops le it.ch_iters)
        → (p : Popped ops le lo it.ch_iters streams)
        → Outcome p.r (next ops le it) (set streams p.i (p.rows, p.s))
        → Outcome lo it streams
    unfolding Yields Ascends merging_iterator
    Popped-Outcome lo it streams fine valid p o = record {
      rows = p.r ∷ o.rows;
      end = o.end;
      yields = ((rw (valid, p.heap) refl, (rw p.top refl, fine)), o.yields);
      sorted = (p.above, o.sorted);
      complete = λ h.
          let left = o.complete (all_ok-set streams p.i _ p.rows p.s p.at ∙ h) in
          (
            left.0,
            Perm.trans (Perm.cons p.r left.1)
                (Perm.symm (all_rows-set streams p.i p.r p.rows p.s p.at)),
          );
      stopped = λ h. o.stopped (all_ok-set streams p.i _ p.rows p.s p.at ∙ h);
    }

    -- The top moves on, with `n` a bound on the rows that are left.
    next-Outcome :
        (n : ℕ)
        → ((lo : Row) (it : MergingIterator It) (streams : List (List Row × Status))
            → it.status ≡ ok
            → it.valid ≡ not (heap_is_empty ops le it.ch_iters)
            → Stands ops le it.ch_iters streams
            → AllAscend le lo streams
            → length (all_rows streams) < n
            → Outcome lo it streams)
        → (lo : Row) (it : MergingIterator It) (streams : List (List Row × Status)) → it.status ≡ ok
        → Stands ops le it.ch_iters streams
        → (i : ℕ) (moved : It) (rows : List Row) (s : Status) → Yields ops moved rows s
        → AllAscend le lo (set streams i (rows, s))
        → length (all_rows (set streams i (rows, s))) < n
        → (is_ok s ≡ false → all_ok (set streams i (rows, s)) ≡ false)
        → Outcome lo (put_back ops le it i moved) (set streams i (rows, s))
    unfolding Yields merging_iterator Ascends
    next-Outcome n rec lo it streams fine st i moved (r ∷ rows) s ((valid, row), y) a short stops =
        rw valid (
          rec lo _ (set streams i (r ∷ rows, s)) fine refl
            (Stands-set it.ch_iters streams i true moved (r ∷ rows) s (valid, ((valid, row), y)) st)
            a short)
    next-Outcome n rec lo it streams fine st i moved [] s (done, status) a short stops =
        elim (Bool-cases (is_ok s)) [
          | inl good ↦
              let end : is_ok (ops.status moved) ≡ true = rw status good in
              rw (done, end)
                (rec lo _ (set streams i ([], s)) fine refl
                  (Stands-set it.ch_iters streams i false moved [] s (refl, is_ok→ok s good) st) a
                  short)
          | inr bad ↦
              let end : is_ok (ops.status moved) ≡ false = rw status bad in
              rw (done, end)
                (record {
                  rows = [];
                  end = s;
                  yields = (refl, status);
                  sorted = tt;
                  complete = λ h. absurd (ground (arith, h, stops bad));
                  stopped = λ h. bad;
                })
        ]

    next-top :
        (lo : Row) (it : MergingIterator It) (streams : List (List Row × Status))
        → (p : Popped ops le lo it.ch_iters streams)
        → next ops le it ≡ put_back ops le it p.i (ops.next p.c.iter)
    unfolding next
    next-top lo it streams p = rw (p.top, p.here) refl

    pub merge-Outcome :
        (n : ℕ) (lo : Row) (it : MergingIterator It) (streams : List (List Row × Status))
        → it.status ≡ ok
        → it.valid ≡ not (heap_is_empty ops le it.ch_iters)
        → Stands ops le it.ch_iters streams
        → AllAscend le lo streams
        → length (all_rows streams) < n
        → Outcome lo it streams
    unfolding Yields
    merge-Outcome zero lo it streams fine valid st a short = absurd (omega arith)
    merge-Outcome (suc n) lo it streams fine valid st a short =
        elim (pop ops le total lo it.ch_iters streams st a) [
          | inl d ↦ Done-Outcome lo it streams fine valid d
          | inr p ↦
              let less = length-set_rows streams p.i p.r p.rows p.s p.at in
              Popped-Outcome lo it streams fine valid p (
                rw (next-top lo it streams p) (
                  next-Outcome n (merge-Outcome n) p.r it streams fine st p.i (ops.next p.c.iter)
                    p.rows p.s p.gives.1 (AllAscend-set le streams p.i p.r p.rows p.s p.at p.low)
                    (omega (arith, less))
                    (λ bad.
                      all_ok-set streams p.i _ p.rows p.s p.at
                      ∙ not_all_ok streams p.i _ p.s p.at bad)))
        ]
