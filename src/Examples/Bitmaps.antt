-- ===== src/Examples/Bitmaps.antt =====
-- Bitmaps as lists of row ids, for which the laws hold, and the candidates of a table of four rows.
use bit_lsm.Base.{
  ℕ, zero, suc, ◌≡◌, refl, ap, ◌∙◌, inl, inr, Bool, true, false, Bool-cases, not, ◌&&◌, ◌||◌, some,
  List, [], ◌∷◌, ◌++◌, ltb, ◌==◌, if◌then◌else◌, arith, ==→eq,
}
use bit_lsm.SabiQuery.{from_options}
use bit_lsm.TableScan.{Roaring, RoaringLaws, any_holds, TableIndex, build_query_bitmap}
use bit_lsm.TableScan.Candidates.{Means, is_candidate, is_tombstone, build_query_bitmap-Means}
use bit_lsm.Examples.Indexes.{two_options, index, narrow_query}

abbrev elem : List ℕ → ℕ → Bool
elem [] i = false
elem (x ∷ xs) i = (x == i) || elem xs i

abbrev is_nil : List ℕ → Bool
is_nil [] = true
is_nil (x ∷ xs) = false

abbrev keep : (ℕ → Bool) → List ℕ → List ℕ
keep f [] = []
keep f (x ∷ xs) = if f x then x ∷ keep f xs else keep f xs

abbrev join : List (List ℕ) → List ℕ
join [] = []
join (xs ∷ rest) = xs ++ join rest

abbrev rows_below : ℕ → List ℕ
rows_below zero = []
rows_below (suc n) = n ∷ rows_below n

abbrev list_rows : Roaring (List ℕ)
list_rows = record {
  empty_bitmap = [];
  is_empty = is_nil;
  bit_or = λ a b. a ++ b;
  bit_and = λ a b. keep (elem b) a;
  and_not = λ a b. keep (λ x. not (elem b x)) a;
  fastunion = join;
  below = rows_below;
  holds = elem;
}

elem-append : (a b : List ℕ) (i : ℕ) → elem (a ++ b) i ≡ (elem a i || elem b i)
elem-append [] b i = refl
elem-append (x ∷ a) b i = ground (arith, elem-append a b i)

kept :
    (f : ℕ → Bool) (x i : ℕ) (found rest : Bool)
    → rest ≡ (found && f i)
    → (if f x then (x == i) || rest else rest) ≡ (((x == i) || found) && f i)
kept f x i found rest e = elim (Bool-cases (x == i)) [
  | inl same ↦
      let eq : x ≡ i = ==→eq x i same in
      rw eq
        (elim (Bool-cases (f i)) [ inl t ↦ ground (arith, e, t) | inr t ↦ ground (arith, e, t) ])
  | inr other ↦ ground (arith, e, other)
]

elem-if :
    (b : Bool) (x : ℕ) (xs : List ℕ) (i : ℕ)
    → elem (if b then x ∷ xs else xs) i ≡ (if b then (x == i) || elem xs i else elem xs i)
elem-if true x xs i = refl
elem-if false x xs i = refl

elem-keep : (f : ℕ → Bool) (a : List ℕ) (i : ℕ) → elem (keep f a) i ≡ (elem a i && f i)
elem-keep f [] i = refl
elem-keep f (x ∷ a) i =
    elem-if (f x) x (keep f a) i ∙ kept f x i (elem a i) (elem (keep f a) i) (elem-keep f a i)

elem-join : (bs : List (List ℕ)) (i : ℕ) → elem (join bs) i ≡ any_holds list_rows bs i
elem-join [] i = refl
elem-join (b ∷ bs) i = elem-append b (join bs) i ∙ ap (λ t. elem b i || t) (elem-join bs i)

elem-rows_below : (n i : ℕ) → elem (rows_below n) i ≡ ltb i n
elem-rows_below zero i = ground arith
elem-rows_below (suc n) i = ground (arith, elem-rows_below n i)

elem-nil : (b : List ℕ) (i : ℕ) → is_nil b ≡ true → elem b i ≡ false
elem-nil [] i h = refl
elem-nil (x ∷ b) i h = cc

list_laws : RoaringLaws list_rows
list_laws = record {
  holds-empty_bitmap = λ i. refl;
  holds-is_empty = elem-nil;
  holds-bit_or = elem-append;
  holds-bit_and = λ a b i. elem-keep (elem b) a i;
  holds-and_not = λ a b i. elem-keep (λ x. not (elem b x)) a i;
  holds-fastunion = elem-join;
  holds-below = elem-rows_below;
}

-- Rows 0 to 3: row 1 is deleted.
abbrev bins : ℕ → List ℕ
bins zero = 0 ∷ []
bins (suc zero) = 2 ∷ 3 ∷ []
bins (suc (suc zero)) = 0 ∷ 2 ∷ []
bins (suc (suc (suc k))) = 1 ∷ []

abbrev table : TableIndex
table = record {
  schema = from_options two_options;
  bitmap_index = index;
  total_bins = 3;
  tombstone_cardinality = 1;
  data_entries_cnt_psum = 2 ∷ 4 ∷ [];
}

build_query_bitmap-Means_example :
    Means list_rows list_laws
      (λ k. some (bins k))
      bins
      (λ k. refl)
      table
      2
      (build_query_bitmap list_rows (λ k. some (bins k)) table narrow_query)
      (is_candidate list_rows bins table 2 narrow_query.clause_groups
        && not (is_tombstone list_rows bins table 2))
build_query_bitmap-Means_example =
    build_query_bitmap-Means list_rows list_laws (λ k. some (bins k)) bins (λ k. refl) table 2
      narrow_query
