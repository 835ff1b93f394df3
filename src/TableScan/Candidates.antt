-- ===== src/TableScan/Candidates.antt =====
-- The rows in the query bitmap of src/include/sabi_table_iterator.cpp, by the bins that its clauses select.
use bit_lsm.Base.{
  ℕ, zero, suc, ◌+◌, ◌-◌, ◌≡◌, refl, ap, sym, ◌∙◌, inl, inr, Bool, true, false, Bool-cases, not,
  ◌&&◌, ◌||◌, Option, none, some, List, [], ◌∷◌, ltb, ◌==◌, if◌then◌else◌, arith,
}
use bit_lsm.Status.{Status, ok}
use bit_lsm.SabiQuery.{SabiCondition, SabiOrClause, SabiQuery}
use bit_lsm.Reader.{BinSelection, select_bins}
use bit_lsm.TableScan.{
  Roaring, RoaringLaws, any_holds, TableIndex, bin_range, selected_bitmap, single_condition,
  then_status, union_more, clause_bitmap, and_not_with, and_clauses, last_or_zero, tombstone_of,
  query_bitmap, build_query_bitmap,
}

module _ {Bitmap : Type 0} (ops : Roaring Bitmap) (bins : ℕ → Bitmap) (t : TableIndex) (i : ℕ) where
  -- One of so many bins from `k` on holds the row.
  abbrev pub any_bin : ℕ → ℕ → Bool
  any_bin k zero = false
  any_bin k (suc n) = ops.holds (bins k) i || any_bin (k + 1) n

  abbrev pub is_selected : Option BinSelection → Bool
  is_selected none = false
  is_selected (some sel) = any_bin sel.first (sel.last - sel.first + 1)

  -- The row is in a bin that a condition of the clause selects.
  unfoldable pub clause_selects : SabiOrClause → Bool
  clause_selects [] = false
  clause_selects (c ∷ clause) =
      is_selected (select_bins c t.schema t.bitmap_index) || clause_selects clause

  -- Of every clause; without clauses, the row is one of the table's.
  unfoldable pub groups_select : List SabiOrClause → Bool
  groups_select [] = true
  groups_select (clause ∷ groups) = clause_selects clause && groups_select groups

  abbrev pub is_candidate : List SabiOrClause → Bool
  is_candidate [] = ltb i (last_or_zero t.data_entries_cnt_psum)
  is_candidate (clause ∷ groups) = groups_select (clause ∷ groups)

  abbrev pub is_tombstone : Bool
  is_tombstone = if t.tombstone_cardinality == 0 then false else ops.holds (bins t.total_bins) i

span-one : (first last : ℕ) → (first == last) ≡ true → last - first + 1 ≡ 1
span-one first last h = ground arith

or_false : (b : Bool) → b ≡ (b || false)
or_false b = ground arith

or_assoc : (a b d : Bool) → ((a || b) || d) ≡ (a || (b || d))
or_assoc a b d = ground arith

and_assoc : (a c g n : Bool) → ((a && c) && (g && n)) ≡ (a && ((c && g) && n))
and_assoc a c g n = ground arith

and_nothing : (a c g n : Bool) → (a && c) ≡ false → false ≡ (a && ((c && g) && n))
and_nothing a c g n h = ground arith

selects_nothing : (c g n : Bool) → c ≡ false → false ≡ ((c && g) && n)
selects_nothing c g n h = ground arith

and_assoc_left : (c g n : Bool) → (c && (g && n)) ≡ ((c && g) && n)
and_assoc_left c g n = ground arith

then_status-ok : (s e : Status) → s ≡ ok → e ≡ ok → then_status s e ≡ ok
then_status-ok s e h k = rw (k, h) refl

and_true : (b : Bool) → b ≡ (b && true)
and_true b = ground arith

module _ {Bitmap : Type 0} (ops : Roaring Bitmap) (laws : RoaringLaws ops)
    (read : ℕ → Option Bitmap) (bins : ℕ → Bitmap) (readable : (k : ℕ) → read k ≡ some (bins k))
    (t : TableIndex) (i : ℕ) where
  -- The bitmap holds the row exactly if the test does, and nothing failed.
  pub record Means (r : Bitmap × Status) (b : Bool) : Type 0 where
    pub meaning : ops.holds r.0 i ≡ b
    pub fine : r.1 ≡ ok

  Means-cast : (r : Bitmap × Status) (b d : Bool) → b ≡ d → Means r b → Means r d
  Means-cast r b d e m = record { meaning = m.meaning ∙ e; fine = m.fine }

  bins_from : ℕ → ℕ → List Bitmap
  bins_from k zero = []
  bins_from k (suc n) = bins k ∷ bins_from (k + 1) n

  bin_range-bins_from : (k n : ℕ) → bin_range ops read t k n ≡ some (bins_from k n)
  unfolding bin_range bins_from
  bin_range-bins_from k zero = refl
  bin_range-bins_from k (suc n) = rw (readable k, bin_range-bins_from (k + 1) n) refl

  any_holds-bins_from : (k n : ℕ) → any_holds ops (bins_from k n) i ≡ any_bin ops bins t i k n
  unfolding bins_from
  any_holds-bins_from k zero = refl
  any_holds-bins_from k (suc n) =
      ap (λ b. ops.holds (bins k) i || b) (any_holds-bins_from (k + 1) n)

  selected_bitmap-Means :
      (sel : Option BinSelection)
      → Means (selected_bitmap ops read t sel) (is_selected ops bins t i sel)
  selected_bitmap-Means none = record { meaning = laws.holds-empty_bitmap i; fine = refl }
  selected_bitmap-Means (some sel) = elim (Bool-cases (sel.first == sel.last)) [
    | inl one ↦
        let single : sel.last - sel.first + 1 ≡ 1 = span-one sel.first sel.last one in
        rw (one, readable sel.first, single) (record { meaning = ground arith; fine = refl })
    | inr more ↦
        rw (more, bin_range-bins_from sel.first (sel.last - sel.first + 1))
          (record {
            meaning =
                laws.holds-fastunion _ i ∙ any_holds-bins_from sel.first (sel.last - sel.first + 1);
            fine = refl;
          })
  ]

  single_condition-Means :
      (c : SabiCondition)
      → Means
          (single_condition ops read t c)
          (is_selected ops bins t i (select_bins c t.schema t.bitmap_index))
  unfolding single_condition
  single_condition-Means c = selected_bitmap-Means (select_bins c t.schema t.bitmap_index)

  union_more-Means :
      (clause : SabiOrClause) (r : Bitmap × Status) (b : Bool)
      → Means r b
      → Means (union_more ops read t r clause) (b || clause_selects ops bins t i clause)
  unfolding union_more clause_selects
  union_more-Means [] r b m = record { meaning = m.meaning ∙ or_false b; fine = m.fine }
  union_more-Means (c ∷ clause) r b m =
      let first = single_condition-Means c in
      Means-cast
        (union_more ops read t
          (
            ops.bit_or r.0 (single_condition ops read t c).0,
            then_status r.1 (single_condition ops read t c).1,
          )
          clause)
        _ _
        (or_assoc b (is_selected ops bins t i (select_bins c t.schema t.bitmap_index))
          (clause_selects ops bins t i clause))
        (union_more-Means clause
          (
            ops.bit_or r.0 (single_condition ops read t c).0,
            then_status r.1 (single_condition ops read t c).1,
          )
          (b || is_selected ops bins t i (select_bins c t.schema t.bitmap_index))
          (record {
            meaning =
                rw
                  (
                    laws.holds-bit_or r.0 (single_condition ops read t c).0 i,
                    m.meaning,
                    first.meaning,
                  )
                  refl;
            fine = then_status-ok r.1 (single_condition ops read t c).1 m.fine first.fine;
          }))

  clause_bitmap-Means :
      (clause : SabiOrClause)
      → Means (clause_bitmap ops read t clause) (clause_selects ops bins t i clause)
  unfolding clause_bitmap clause_selects
  clause_bitmap-Means [] = record { meaning = laws.holds-empty_bitmap i; fine = refl }
  clause_bitmap-Means (c ∷ clause) =
      union_more-Means clause (single_condition ops read t c)
        (is_selected ops bins t i (select_bins c t.schema t.bitmap_index))
        (single_condition-Means c)

  tombstone-Means : Means (tombstone_of ops read t) (is_tombstone ops bins t i)
  tombstone-Means = elim (Bool-cases (t.tombstone_cardinality == 0)) [
    | inl no_tombstones ↦
        rw no_tombstones (record { meaning = laws.holds-empty_bitmap i; fine = refl })
    | inr some_tombstones ↦
        rw (some_tombstones, readable t.total_bins) (record { meaning = refl; fine = refl })
  ]

  holds-and_not_with :
      (a tombstone : Bitmap)
      → ops.holds (and_not_with ops read t a tombstone) i
        ≡ (ops.holds a i && not (ops.holds tombstone i))
  holds-and_not_with a tombstone = elim (Bool-cases (ops.is_empty tombstone)) [
    | inl e ↦ rw (e, laws.holds-is_empty tombstone i e) (and_true (ops.holds a i))
    | inr e ↦ rw e (laws.holds-and_not a tombstone i)
  ]

  and_clauses-Means :
      (groups : List SabiOrClause) (tombstone acc : Bitmap) (s : Status)
      → s ≡ ok
      → Means
          (and_clauses ops read t tombstone groups acc s)
          (ops.holds acc i && (groups_select ops bins t i groups && not (ops.holds tombstone i)))
  unfolding and_clauses groups_select
  and_clauses-Means [] tombstone acc s e = record {
    meaning = holds-and_not_with acc tombstone;
    fine = e;
  }
  and_clauses-Means (clause ∷ groups) tombstone acc s e =
      let m = clause_bitmap-Means clause in
      let both : Bitmap = ops.bit_and acc (clause_bitmap ops read t clause).0 in
      let fine = then_status-ok s (clause_bitmap ops read t clause).1 e m.fine in
      let both_holds : ops.holds both i ≡ (ops.holds acc i && clause_selects ops bins t i clause) =
        laws.holds-bit_and acc (clause_bitmap ops read t clause).0 i
        ∙ ap (λ b. ops.holds acc i && b) m.meaning in
      elim (Bool-cases (ops.is_empty both)) [
        | inl none_left ↦
            let nothing = sym both_holds ∙ laws.holds-is_empty both i none_left in
            rw none_left (record {
              meaning =
                  laws.holds-empty_bitmap i
                  ∙ and_nothing _ _ (groups_select ops bins t i groups)
                      (not (ops.holds tombstone i)) nothing;
              fine = fine;
            })
        | inr some_left ↦ rw some_left (
            Means-cast
              (and_clauses ops read t tombstone groups both
                (then_status s (clause_bitmap ops read t clause).1))
              _ _
              (ap (λ b. b && (groups_select ops bins t i groups && not (ops.holds tombstone i)))
                  both_holds
                ∙ and_assoc (ops.holds acc i) (clause_selects ops bins t i clause)
                    (groups_select ops bins t i groups) (not (ops.holds tombstone i)))
              (and_clauses-Means groups tombstone both
                (then_status s (clause_bitmap ops read t clause).1) fine))
      ]

  query_bitmap-Means :
      (groups : List SabiOrClause) (tombstone : Bitmap × Status) (covered : Bool)
      → Means tombstone covered
      → Means
          (query_bitmap ops read t tombstone groups)
          (is_candidate ops bins t i groups && not covered)
  unfolding query_bitmap groups_select
  query_bitmap-Means [] tombstone covered m = record {
    meaning =
        holds-and_not_with (ops.below (last_or_zero t.data_entries_cnt_psum)) tombstone.0
        ∙ rw (laws.holds-below (last_or_zero t.data_entries_cnt_psum) i, m.meaning) refl;
    fine = m.fine;
  }
  query_bitmap-Means (clause ∷ groups) tombstone covered m =
      let first = clause_bitmap-Means clause in
      let b : Bitmap = (clause_bitmap ops read t clause).0 in
      let s : Status = then_status tombstone.1 (clause_bitmap ops read t clause).1 in
      let fine = then_status-ok tombstone.1 (clause_bitmap ops read t clause).1 m.fine first.fine in
      elim (Bool-cases (ops.is_empty b)) [
        | inl none_left ↦ rw none_left (record {
          meaning =
              laws.holds-empty_bitmap i
              ∙ selects_nothing (clause_selects ops bins t i clause)
                  (groups_select ops bins t i groups) (not covered)
                  (sym first.meaning ∙ laws.holds-is_empty b i none_left);
          fine = fine;
        })
        | inr some_left ↦ rw some_left (
            Means-cast (and_clauses ops read t tombstone.0 groups b s) _ _
              (ap (λ d. d && (groups_select ops bins t i groups && not (ops.holds tombstone.0 i)))
                  first.meaning
                ∙ ap
                    (λ d.
                      clause_selects ops bins t i clause
                      && (groups_select ops bins t i groups && not d))
                    m.meaning
                ∙ and_assoc_left (clause_selects ops bins t i clause)
                    (groups_select ops bins t i groups) (not covered))
              (and_clauses-Means groups tombstone.0 b s fine))
      ]

  -- With every bin readable, building the query bitmap leaves the status OK, and the bitmap holds a row exactly
  -- when each clause selects, by one of its conditions, a bin that holds the row, and no tombstone covers it;
  -- without clauses, every row of the table that no tombstone covers.
  pub build_query_bitmap-Means :
      (q : SabiQuery)
      → Means
          (build_query_bitmap ops read t q)
          (is_candidate ops bins t i q.clause_groups && not (is_tombstone ops bins t i))
  unfolding build_query_bitmap
  build_query_bitmap-Means q =
      query_bitmap-Means q.clause_groups (tombstone_of ops read t) (is_tombstone ops bins t i)
        tombstone-Means
