-- ===== src/Examples/Scans.antt =====
-- Scans over iterators that are lists of rows with a final status.
use bit_lsm.Base.{
  ℕ, zero, suc, ◌≡◌, ◌⊎◌, inl, inr, refl, Bool, true, false, Option, none, some, List, [], ◌∷◌, leb,
  arith,
}
use mathlib.Core.List.{Perm}
use mathlib.Core.Path.{subst}
use bit_lsm.Bytes.{Bytes}
use bit_lsm.Status.{Status, ok, corruption, is_ok}
use bit_lsm.Scan.{InternalIterator, Yields}
use bit_lsm.Scan.Level.{TableSource, LevelIterator, new_level, level_iterator}
use bit_lsm.Scan.Level
use bit_lsm.Scan.LevelRows.{Opens, scan_files, seek_to_first-Yields}
use bit_lsm.Scan.MemTable.{
  ParsedInternalKey, Entry, type_deletion, type_other, mem_table_iterator, new_mem_table,
}
use bit_lsm.Scan.MemTable
use bit_lsm.Scan.MemTableRows.{seek_to_first-keep}
use bit_lsm.Scan.Merging.{Child, MergingIterator, merging_iterator, idle}
use bit_lsm.Scan.Merging
use bit_lsm.Scan.MergedTop.{IsTotal, Ascends, all_rows}
use bit_lsm.Scan.Merged.{seek_to_first-merges, seek_to_first-stops}

abbrev pub ListIterator : Type 0 → Type 0
ListIterator Row = List Row × Status

abbrev pub rest_of : {Row : Type 0} → ListIterator Row → ListIterator Row
rest_of ([], s) = ([], s)
rest_of (r ∷ rows, s) = (rows, s)

abbrev pub is_valid : {Row : Type 0} → ListIterator Row → Bool
is_valid ([], s) = false
is_valid (r ∷ rows, s) = true

abbrev pub first_row : {Row : Type 0} → ListIterator Row → Option Row
first_row ([], s) = none
first_row (r ∷ rows, s) = some r

abbrev pub end_of : {Row : Type 0} → ListIterator Row → Status
end_of ([], s) = s
end_of (r ∷ rows, s) = ok

abbrev pub list_iterator : {Row : Type 0} → InternalIterator (ListIterator Row) Row
list_iterator = record {
  seek_to_first = λ it. it;
  next = rest_of;
  valid = is_valid;
  status = end_of;
  row = first_row;
}

pub list_iterator-Yields :
    {Row : Type 0} (rows : List Row) (s : Status)
    → Yields (list_iterator {Row = Row}) (rows, s) rows s
unfolding Yields
list_iterator-Yields [] s = (refl, refl)
list_iterator-Yields (r ∷ rows) s = ((refl, (refl, refl)), list_iterator-Yields rows s)

-- Files of rows, which can be read or not.
data File : Type 0 where
  readable unreadable : List ℕ → File

abbrev open_file : File → Status ⊎ ListIterator ℕ
open_file (readable rows) = inr (rows, ok)
open_file (unreadable rows) = inl corruption

abbrev contents : File → List ℕ × Status
contents (readable rows) = (rows, ok)
contents (unreadable rows) = ([], corruption)

abbrev source : TableSource File (ListIterator ℕ) ℕ
source = record { find_table = λ readahead file. open_file file; readahead_state = λ it. 0 }

source-Opens :
    (readahead : ℕ) (file : File)
    → Opens source list_iterator contents (source.find_table readahead file) (contents file)
source-Opens readahead (readable rows) = list_iterator-Yields rows ok
source-Opens readahead (unreadable rows) = (refl, refl)

abbrev files : List File
files =
    readable (1 ∷ 2 ∷ [])
    ∷ readable []
    ∷ readable (5 ∷ [])
    ∷ unreadable (7 ∷ [])
    ∷ readable (9 ∷ [])
    ∷ []

-- The rows before the file that cannot be opened.
files_scanned :
    scan_files (
      contents (readable (1 ∷ 2 ∷ []))
      ∷ contents (readable [])
      ∷ contents (readable (5 ∷ []))
      ∷ contents (unreadable (7 ∷ []))
      ∷ contents (readable (9 ∷ []))
      ∷ [])
    ≡ (1 ∷ 2 ∷ 5 ∷ [], corruption)
unfolding scan_files
files_scanned = refl

seek_to_first-Yields_example :
    Yields
      (level_iterator source list_iterator)
      (Level.seek_to_first source list_iterator (new_level files 0))
      (1 ∷ 2 ∷ 5 ∷ [])
      corruption
seek_to_first-Yields_example =
    subst
      (λ c.
        Yields (level_iterator source list_iterator)
          (Level.seek_to_first source list_iterator (new_level files 0)) c.0 c.1)
      files_scanned (seek_to_first-Yields source list_iterator contents source-Opens files 0)

-- Internal keys of one byte, the sequence number, after a byte that tells deletions.
abbrev parse : Bytes → Option ParsedInternalKey
parse (zero ∷ n ∷ []) = some (record { user_key = 65 ∷ []; sequence = n; type = type_other })
parse (suc zero ∷ n ∷ []) = some (record { user_key = 65 ∷ []; sequence = n; type = type_deletion })
parse _ = none

abbrev entry : Bytes → ℕ → Entry
entry key v = record { key = key; value = v ∷ [] }

abbrev is_small : Bytes → Bool
is_small [] = false
is_small (v ∷ value) = leb v 10

abbrev entries : List Entry
entries =
    entry (0 ∷ 3 ∷ []) 7
    ∷ entry (0 ∷ 9 ∷ []) 7
    ∷ entry (1 ∷ 2 ∷ []) 7
    ∷ entry (5 ∷ []) 7
    ∷ entry (0 ∷ 4 ∷ []) 70
    ∷ entry (0 ∷ 5 ∷ []) 8
    ∷ []

seek_to_first-keep_example :
    Yields
      (mem_table_iterator parse 6 (some is_small) list_iterator 7)
      (MemTable.seek_to_first parse 6 (some is_small) list_iterator 7 (new_mem_table (entries, ok)))
      (entry (0 ∷ 3 ∷ []) 7 ∷ entry (0 ∷ 5 ∷ []) 8 ∷ [])
      ok
seek_to_first-keep_example =
    seek_to_first-keep parse 6 (some is_small) list_iterator 7 (entries, ok) entries ok
      (list_iterator-Yields entries ok) (omega arith)

leb-IsTotal : IsTotal leb
leb-IsTotal = record {
  le-trans = λ a b c h k. ground (arith, h, k);
  le-total = λ a b h. ground (arith, h);
}

abbrev child : List ℕ → Status → Child (ListIterator ℕ)
child rows s = idle (rows, s)

abbrev two_children : MergingIterator (ListIterator ℕ)
two_children = record {
  valid = false;
  status = ok;
  ch_iters = child (3 ∷ 8 ∷ []) ok ∷ child [] ok ∷ child (2 ∷ 3 ∷ 9 ∷ []) ok ∷ [];
}

abbrev failing_children : MergingIterator (ListIterator ℕ)
failing_children = record {
  valid = false;
  status = ok;
  ch_iters = child (3 ∷ 8 ∷ []) ok ∷ child (2 ∷ 4 ∷ []) corruption ∷ [];
}

seek_to_first-merges_example :
    (rows : List ℕ) × (Yields
        (merging_iterator list_iterator leb)
        (Merging.seek_to_first list_iterator leb two_children)
        rows
        ok
      × (Ascends leb 0 rows × Perm rows (3 ∷ 8 ∷ 2 ∷ 3 ∷ 9 ∷ [])))
unfolding Ascends all_rows
seek_to_first-merges_example =
    seek_to_first-merges list_iterator leb leb-IsTotal 0 two_children
      ((3 ∷ 8 ∷ [], ok) ∷ ([], ok) ∷ (2 ∷ 3 ∷ 9 ∷ [], ok) ∷ []) refl
      (list_iterator-Yields _ ok, (list_iterator-Yields _ ok, (list_iterator-Yields _ ok, tt)))
      ((refl, (refl, tt)), (tt, ((refl, (refl, (refl, tt))), tt))) refl

seek_to_first-stops_example :
    (rows : List ℕ) × ((s : Status) × (Yields
          (merging_iterator list_iterator leb)
          (Merging.seek_to_first list_iterator leb failing_children)
          rows
          s
        × (Ascends leb 0 rows × (is_ok s ≡ false))))
unfolding Ascends
seek_to_first-stops_example =
    seek_to_first-stops list_iterator leb leb-IsTotal 0 failing_children
      ((3 ∷ 8 ∷ [], ok) ∷ (2 ∷ 4 ∷ [], corruption) ∷ []) refl
      (list_iterator-Yields _ ok, (list_iterator-Yields _ corruption, tt))
      ((refl, (refl, tt)), ((refl, (refl, tt)), tt)) refl
