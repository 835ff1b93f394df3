-- ===== src/Scan/MemTableRows.antt =====
-- The rows of a memtable: `FindNextValidEntry` of src/include/bit_lsm_memtable_iterator.cpp and a filter.
use bit_lsm.Base.{
  ℕ, zero, suc, ◌<◌, ◌≡◌, refl, inl, inr, Bool, true, false, Bool-cases, Option, List, [], ◌∷◌,
  length, if◌then◌else◌, arith,
}
use bit_lsm.Bytes.{Bytes}
use bit_lsm.Status.{Status, ok, is_ok}
use bit_lsm.Scan.{InternalIterator, Yields}
use bit_lsm.Scan.MemTable.{
  ParsedInternalKey, Entry, MemTableIterator, new_mem_table, accepts, find_entry,
  find_next_valid_entry, seek_to_first, next, mem_table_iterator,
}

-- The entries that a test accepts, in order.
abbrev pub keep : {A : Type 0} → (A → Bool) → List A → List A
keep f [] = []
keep f (x ∷ xs) = if f x then x ∷ keep f xs else keep f xs

module _ {Inner : Type 0} (parse : Bytes → Option ParsedInternalKey) (read_seqno : ℕ)
    (compiled : Option (Bytes → Bool)) (inner : InternalIterator Inner Entry) (fuel : ℕ) where
  find_entry-Yields :
      (n : ℕ) (entries : List Entry) (s : Status) (it : MemTableIterator Inner)
      → it.status ≡ ok
      → it.valid ≡ false
      → length entries < n
      → length entries < fuel
      → Yields inner it.iter entries s
      → Yields
          (mem_table_iterator parse read_seqno compiled inner fuel)
          (find_entry parse read_seqno compiled inner fuel n it)
          (keep (accepts parse read_seqno compiled) entries)
          s
  unfolding Yields find_entry mem_table_iterator next find_next_valid_entry
  find_entry-Yields zero entries s it fine off short most y = absurd (omega arith)
  find_entry-Yields (suc n) [] s it fine off short most (done, status) =
      elim (Bool-cases (is_ok s)) [
        | inl good ↦
            let end : is_ok (inner.status it.iter) ≡ true = rw status good in
            rw (done, end) (off, ground (arith, fine, good))
        | inr bad ↦
            let end : is_ok (inner.status it.iter) ≡ false = rw status bad in
            rw (done, end) (off, status)
      ]
  find_entry-Yields (suc n) (e ∷ entries) s it fine off short most ((here, row), y) =
      elim (Bool-cases (accepts parse read_seqno compiled e)) [
        | inl taken ↦
            rw (here, row.0, taken)
              (
                (refl, (row.0, fine)),
                find_entry-Yields fuel entries s _ fine refl (omega arith) (omega arith) y,
              )
        | inr skipped ↦
            rw (here, row.0, skipped)
              (find_entry-Yields n entries s _ fine off (omega arith) (omega arith) y)
      ]

  -- With fuel above the number of entries, the memtable iterator taken to its first row gives exactly the
  -- entries whose key parses, whose sequence number is not above the read's, which are not deletions and which
  -- the query accepts, in order, and ends with the status of the memtable's own iterator.
  pub seek_to_first-keep :
      (iter : Inner) (entries : List Entry) (s : Status)
      → Yields inner (inner.seek_to_first iter) entries s
      → length entries < fuel
      → Yields
          (mem_table_iterator parse read_seqno compiled inner fuel)
          (seek_to_first parse read_seqno compiled inner fuel (new_mem_table iter))
          (keep (accepts parse read_seqno compiled) entries)
          s
  unfolding seek_to_first new_mem_table find_next_valid_entry
  seek_to_first-keep iter entries s y enough =
      find_entry-Yields fuel entries s _ refl refl enough enough y
