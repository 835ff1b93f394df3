-- ===== src/Scan/MergedTop.antt =====
-- The top of the heap in src/include/bit_lsm_merging_iterator.cpp, among children that stand for streams of rows.
use bit_lsm.Base.{
  ℕ, suc, ◌≡◌, ◌⊎◌, refl, inl, inr, Bool, true, false, Bool-cases, ◌&&◌, none, some, List, [], ◌∷◌,
  ◌++◌, get_elem?, arith,
}
use bit_lsm.Status.{Status, ok, is_ok}
use bit_lsm.Scan.{InternalIterator, Yields}
use bit_lsm.Scan.Merging.{Child, heap_is_empty, heap_top}

-- A stream: rows, and the status that it ends with.
module _ {Row : Type 0} where
  unfoldable pub all_rows : List (List Row × Status) → List Row
  all_rows [] = []
  all_rows ((rows, s) ∷ streams) = rows ++ all_rows streams

  abbrev pub all_ok : List (List Row × Status) → Bool
  all_ok [] = true
  all_ok ((rows, s) ∷ streams) = is_ok s && all_ok streams

-- A total order of the rows, as `InternalKeyComparator` is.
pub record IsTotal {Row : Type 0} (le : Row → Row → Bool) : Type 0 where
  pub le-trans : (a b c : Row) → le a b ≡ true → le b c ≡ true → le a c ≡ true
  pub le-total : (a b : Row) → le a b ≡ false → le b a ≡ true

module _ {Row : Type 0} (le : Row → Row → Bool) where
  -- In ascending order, from `lo` on.
  unfoldable pub Ascends : Row → List Row → Type 0
  Ascends lo [] = Unit {0}
  Ascends lo (r ∷ rows) = (le lo r ≡ true) × Ascends r rows

  abbrev pub AllAscend : Row → List (List Row × Status) → Type 0
  AllAscend lo [] = Unit {0}
  AllAscend lo ((rows, s) ∷ streams) = Ascends lo rows × AllAscend lo streams

  module _ (total : IsTotal le) where
    Ascends-weaken :
        (lo hi : Row) (rows : List Row) → le lo hi ≡ true → Ascends hi rows → Ascends lo rows
    unfolding Ascends
    Ascends-weaken lo hi [] h a = tt
    Ascends-weaken lo hi (r ∷ rows) h a = (total.le-trans lo hi r h a.0, a.1)

    AllAscend-weaken :
        (lo hi : Row) (streams : List (List Row × Status))
        → le lo hi ≡ true
        → AllAscend hi streams
        → AllAscend lo streams
    AllAscend-weaken lo hi [] h a = tt
    AllAscend-weaken lo hi ((rows, s) ∷ streams) h a =
        (Ascends-weaken lo hi rows h a.0, AllAscend-weaken lo hi streams h a.1)

module _ {It Row : Type 0} (ops : InternalIterator It Row) (le : Row → Row → Bool) where
  -- What a child has left: in the heap a valid iterator with its stream, out of it nothing, and no error.
  abbrev pub Fits : Bool → It → List Row → Status → Type 0
  Fits true it rows s = (ops.valid it ≡ true) × Yields ops it rows s
  Fits false it rows s = (rows ≡ []) × (s ≡ ok)

  abbrev pub Stands : List (Child It) → List (List Row × Status) → Type 0
  Stands [] [] = Unit {0}
  Stands [] (stream ∷ streams) = ⊥
  Stands (c ∷ children) [] = ⊥
  Stands (c ∷ children) ((rows, s) ∷ streams) =
      Fits c.in_heap c.iter rows s × Stands children streams

  -- Nothing is left.
  pub record Done (children : List (Child It)) (streams : List (List Row × Status)) : Type 0 where
    pub top : heap_top ops le children ≡ none
    pub heap : heap_is_empty ops le children ≡ true
    pub rows : all_rows streams ≡ []
    pub fine : all_ok streams ≡ true
    pub low : (lo : Row) → AllAscend le lo streams

  -- A least row is on top.
  pub record Popped (lo : Row) (children : List (Child It)) (streams : List (List Row × Status))
      : Type 0 where
    pub i : ℕ
    pub r : Row
    pub c : Child It
    pub rows : List Row
    pub s : Status
    pub top : heap_top ops le children ≡ some (i, r)
    pub heap : heap_is_empty ops le children ≡ false
    pub here : get_elem? children i ≡ some c
    pub at : get_elem? streams i ≡ some (r ∷ rows, s)
    pub gives : Yields ops c.iter (r ∷ rows) s
    pub low : AllAscend le r streams
    pub above : le lo r ≡ true

  module _ (total : IsTotal le) where
    le_refl : (r : Row) → le r r ≡ true
    le_refl r = elim (Bool-cases (le r r)) [ inl h ↦ h | inr h ↦ total.le-total r r h ]

    pop-idle :
        (lo : Row) (it : It) (rows : List Row) (s : Status) (children : List (Child It))
        (streams : List (List Row × Status))
        → rows ≡ []
        → s ≡ ok
        → Done children streams ⊎ Popped lo children streams
        → Done (record { iter = it; in_heap = false } ∷ children) ((rows, s) ∷ streams)
          ⊎ Popped lo (record { iter = it; in_heap = false } ∷ children) ((rows, s) ∷ streams)
    unfolding heap_top heap_is_empty all_rows Ascends
    pop-idle lo it rows s children streams none_left good (inl d) = inl (record {
      top = rw d.top refl;
      heap = d.heap;
      rows = rw none_left d.rows;
      fine = rw good d.fine;
      low = λ lo'. (rw none_left tt, d.low lo');
    })
    pop-idle lo it rows s children streams none_left good (inr p) = inr (record {
      i = suc p.i;
      r = p.r;
      c = p.c;
      rows = p.rows;
      s = p.s;
      top = rw p.top refl;
      heap = p.heap;
      here = p.here;
      at = p.at;
      gives = p.gives;
      low = (rw none_left tt, p.low);
      above = p.above;
    })

    pop-first :
        (lo : Row) (it : It) (r : Row) (rows : List Row) (s : Status) (children : List (Child It))
        (streams : List (List Row × Status))
        → Yields ops it (r ∷ rows) s
        → Ascends le lo (r ∷ rows)
        → Done children streams ⊎ Popped lo children streams
        → Popped lo (record { iter = it; in_heap = true } ∷ children) ((r ∷ rows, s) ∷ streams)
    unfolding heap_top heap_is_empty all_rows Ascends Yields
    pop-first lo it r rows s children streams ((valid, row), y) a (inl d) = record {
      i = 0;
      r = r;
      c = record { iter = it; in_heap = true };
      rows = rows;
      s = s;
      top = rw (row.0, d.top) refl;
      heap = refl;
      here = refl;
      at = refl;
      gives = ((valid, row), y);
      low = ((le_refl r, a.1), d.low r);
      above = a.0;
    }
    pop-first lo it r rows s children streams ((valid, row), y) a (inr p) =
        elim (Bool-cases (le r p.r)) [
          | inl first ↦ record {
            i = 0;
            r = r;
            c = record { iter = it; in_heap = true };
            rows = rows;
            s = s;
            top = rw (row.0, p.top, first) refl;
            heap = refl;
            here = refl;
            at = refl;
            gives = ((valid, row), y);
            low = ((le_refl r, a.1), AllAscend-weaken le total r p.r streams first p.low);
            above = a.0;
          }
          | inr later ↦ record {
            i = suc p.i;
            r = p.r;
            c = p.c;
            rows = p.rows;
            s = p.s;
            top = rw (row.0, p.top, later) refl;
            heap = refl;
            here = p.here;
            at = p.at;
            gives = p.gives;
            low = ((total.le-total r p.r later, a.1), p.low);
            above = p.above;
          }
        ]

    pop-child :
        (lo : Row) (b : Bool) (it : It) (rows : List Row) (s : Status) (children : List (Child It))
        (streams : List (List Row × Status))
        → Fits b it rows s
        → Ascends le lo rows
        → Done children streams ⊎ Popped lo children streams
        → Done (record { iter = it; in_heap = b } ∷ children) ((rows, s) ∷ streams)
          ⊎ Popped lo (record { iter = it; in_heap = b } ∷ children) ((rows, s) ∷ streams)
    unfolding Yields
    pop-child lo false it rows s children streams fits a rest =
        pop-idle lo it rows s children streams fits.0 fits.1 rest
    pop-child lo true it [] s children streams fits a rest = absurd (ground (arith, fits))
    pop-child lo true it (r ∷ rows) s children streams fits a rest =
        inr (pop-first lo it r rows s children streams fits.1 a rest)

    pub pop :
        (lo : Row) (children : List (Child It)) (streams : List (List Row × Status))
        → Stands children streams
        → AllAscend le lo streams
        → Done children streams ⊎ Popped lo children streams
    unfolding heap_top heap_is_empty all_rows
    pop lo [] [] st a =
        inl (record { top = refl; heap = refl; rows = refl; fine = refl; low = λ lo'. tt })
    pop lo [] (stream ∷ streams) st a = elim st [ ]
    pop lo (c ∷ children) [] st a = elim st [ ]
    pop lo (c ∷ children) ((rows, s) ∷ streams) st a =
        pop-child lo c.in_heap c.iter rows s children streams st.0 a.0
          (pop lo children streams st.1 a.1)
