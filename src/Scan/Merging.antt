-- ===== src/Scan/Merging.antt =====
-- The merge of a scan's children by key: src/include/bit_lsm_merging_iterator.cpp. The children are any iterators;
-- the order of internal keys is RocksDB's and a parameter.
use bit_lsm.Base.{
  ℕ, suc, ◌+◌, ◌⊎◌, inl, inr, Bool, true, false, not, ◌&&◌, ◌||◌, Option, none, some, List, [], ◌∷◌,
  ◌++◌, get_elem?, set, if◌then◌else◌,
}
use bit_lsm.Status.{Status, ok, is_ok}
use bit_lsm.Scan.{InternalIterator}

-- A child, marked while it is in the heap.
pub record Child (It : Type 0) : Type 0 where
  pub iter : It
  pub in_heap : Bool

pub record MergingIterator (It : Type 0) : Type 0 where
  pub valid : Bool
  pub status : Status
  pub ch_iters : List (Child It)

-- The version that is scanned, with the construction of a child for each of its parts.
pub record ScanContext (It Mem File : Type 0) : Type 0 where
  pub active_mem : Option Mem
  pub imm : List Mem
  -- the files of each level; level 0 first
  pub l0_files : List File
  pub levels : List (List File)
  pub mem_table_child : Mem → It
  pub table_child : File → Status ⊎ It
  pub level_child : ℕ → It

abbrev pub idle : {It : Type 0} → It → Child It
idle it = record { iter = it; in_heap = false }

module _ {It Mem File : Type 0} (scan : ScanContext It Mem File) where
  unfoldable pub mem_table_children : List Mem → List (Child It)
  mem_table_children [] = []
  mem_table_children (mem ∷ mems) = idle (scan.mem_table_child mem) ∷ mem_table_children mems

  abbrev pub active_children : Option Mem → List (Child It)
  active_children none = []
  active_children (some mem) = idle (scan.mem_table_child mem) ∷ []

  -- A file of level 0 that cannot be opened leaves its error in the status, unless one is there.
  abbrev pub add_l0 : Status → List (Child It) × Status → Status ⊎ It → List (Child It) × Status
  add_l0 first (rest, s) (inl e) = (rest, s)
  add_l0 first (rest, s) (inr it) = (idle it ∷ rest, s)

  abbrev pub l0_status : Status → Status ⊎ It → Status
  l0_status s (inl e) = if is_ok s then e else s
  l0_status s (inr it) = s

  unfoldable pub l0_children : Status → List File → List (Child It) × Status
  l0_children s [] = ([], s)
  l0_children s (file ∷ files) =
      let opened : Status ⊎ It = scan.table_child file in
      add_l0 s (l0_children (l0_status s opened) files) opened

  abbrev pub is_empty_level : List File → Bool
  is_empty_level [] = true
  is_empty_level (file ∷ files) = false

  unfoldable pub level_children : ℕ → List (List File) → List (Child It)
  level_children level [] = []
  level_children level (files ∷ levels) =
      let rest = level_children (level + 1) levels in
      if is_empty_level files then rest else idle (scan.level_child level) ∷ rest

  unfoldable pub new_merging : MergingIterator It
  new_merging =
      let (l0, s) = l0_children ok scan.l0_files in
      record {
        valid = false;
        status = s;
        ch_iters =
            active_children scan.active_mem
            ++ (mem_table_children scan.imm ++ (l0 ++ level_children 1 scan.levels));
      }

-- Every child out of the heap.
unfoldable pub clear_heap : {It : Type 0} → List (Child It) → List (Child It)
clear_heap [] = []
clear_heap (c ∷ children) = idle c.iter ∷ clear_heap children

module _ {It Row : Type 0} (ops : InternalIterator It Row) (le : Row → Row → Bool) where
  -- The children that `SeekToFirst` has been through, and the first error that ends it.
  abbrev pub seek_rest : It → List (Child It) → List (Child It) × Status → List (Child It) × Status
  seek_rest it children (rest, s) =
      if ops.valid it
      then (record { iter = it; in_heap = true } ∷ rest, s)
      else if is_ok (ops.status it)
      then (idle it ∷ rest, s)
      else (idle it ∷ children, ops.status it)

  unfoldable pub seek_children : List (Child It) → List (Child It) × Status
  seek_children [] = ([], ok)
  seek_children (c ∷ children) =
      seek_rest (ops.seek_to_first c.iter) children (seek_children children)

  unfoldable pub heap_is_empty : List (Child It) → Bool
  heap_is_empty [] = true
  heap_is_empty (c ∷ children) = not c.in_heap && heap_is_empty children

  unfoldable pub seek_to_first : MergingIterator It → MergingIterator It
  seek_to_first it =
      let (children, s) = seek_children (clear_heap it.ch_iters) in
      if is_ok it.status
      then if is_ok s
        then record {
          valid = not (heap_is_empty children);
          status = it.status;
          ch_iters = children;
        }
        else record { valid = false; status = s; ch_iters = clear_heap children }
      else record { valid = false; status = it.status; ch_iters = clear_heap it.ch_iters }

  -- The place and the row of a least child in the heap.
  abbrev pub least : Option Row → Option (ℕ × Row) → Option (ℕ × Row)
  least none best = best
  least (some r) none = some (0, r)
  least (some r) (some (i, best)) = if le r best then some (0, r) else some (i, best)

  abbrev pub one_on : Option (ℕ × Row) → Option (ℕ × Row)
  one_on none = none
  one_on (some (i, r)) = some (suc i, r)

  unfoldable pub heap_top : List (Child It) → Option (ℕ × Row)
  heap_top [] = none
  heap_top (c ∷ children) =
      least (if c.in_heap then ops.row c.iter else none) (one_on (heap_top children))

  -- `Next`, with the child that was popped moved on.
  abbrev pub put_back : MergingIterator It → ℕ → It → MergingIterator It
  put_back it i moved =
      let back : List (Child It) =
        set it.ch_iters i (record { iter = moved; in_heap = ops.valid moved }) in
      if ops.valid moved || is_ok (ops.status moved)
      then record { valid = not (heap_is_empty back); status = it.status; ch_iters = back }
      else record { valid = false; status = ops.status moved; ch_iters = clear_heap back }

  abbrev pub move_child : MergingIterator It → ℕ → Option (Child It) → MergingIterator It
  move_child it i none = it
  move_child it i (some c) = put_back it i (ops.next c.iter)

  abbrev pub next_from : MergingIterator It → Option (ℕ × Row) → MergingIterator It
  next_from it none = it
  next_from it (some (i, r)) = move_child it i (get_elem? it.ch_iters i)

  unfoldable pub next : MergingIterator It → MergingIterator It
  next it = next_from it (heap_top it.ch_iters)

  abbrev pub top_row : Option (ℕ × Row) → Option Row
  top_row none = none
  top_row (some (i, r)) = some r

  unfoldable pub merging_iterator : InternalIterator (MergingIterator It) Row
  merging_iterator = record {
    seek_to_first = seek_to_first;
    next = next;
    valid = λ it. it.valid;
    status = λ it. it.status;
    row = λ it. top_row (heap_top it.ch_iters);
  }
