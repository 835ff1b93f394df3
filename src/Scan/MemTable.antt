-- ===== src/Scan/MemTable.antt =====
-- The scan of a memtable: src/include/bit_lsm_memtable_iterator.cpp. RocksDB's iterator over the memtable and the parse
-- of its internal keys are parameters; `compiled` is the evaluation of the compiled query, if rows are to be verified.
use bit_lsm.Base.{
  ℕ, zero, suc, Bool, true, false, not, ◌&&◌, Option, none, some, leb, if◌then◌else◌,
}
use bit_lsm.Bytes.{Bytes}
use bit_lsm.Status.{Status, ok, is_ok}
use bit_lsm.Scan.{InternalIterator}

pub data ValueType : Type 0 where
  type_deletion type_single_deletion type_other : ValueType

pub record ParsedInternalKey : Type 0 where
  pub user_key : Bytes
  pub sequence : ℕ
  pub type : ValueType

-- An internal key and a value.
pub record Entry : Type 0 where
  pub key : Bytes
  pub value : Bytes

pub record MemTableIterator (Inner : Type 0) : Type 0 where
  pub valid : Bool
  pub status : Status
  pub iter : Inner

unfoldable pub new_mem_table : {Inner : Type 0} → Inner → MemTableIterator Inner
new_mem_table iter = record { valid = false; status = ok; iter = iter }

abbrev pub is_deletion : ValueType → Bool
is_deletion type_deletion = true
is_deletion type_single_deletion = true
is_deletion type_other = false

abbrev pub matches : Option (Bytes → Bool) → Bytes → Bool
matches none value = true
matches (some eval) value = eval value

module _ (parse_internal_key : Bytes → Option ParsedInternalKey) (read_seqno : ℕ)
    (compiled : Option (Bytes → Bool)) where
  abbrev pub is_visible : Option ParsedInternalKey → Bool
  is_visible none = false
  is_visible (some ikey) = leb ikey.sequence read_seqno && not (is_deletion ikey.type)

  -- The four tests of the loop.
  abbrev pub accepts : Entry → Bool
  accepts entry = is_visible (parse_internal_key entry.key) && matches compiled entry.value

  abbrev pub accepts_row : Option Entry → Bool
  accepts_row none = false
  accepts_row (some entry) = accepts entry

  -- `fuel` is above the number of the memtable's entries.
  module _ {Inner : Type 0} (inner : InternalIterator Inner Entry) (fuel : ℕ) where
    unfoldable pub find_entry : ℕ → MemTableIterator Inner → MemTableIterator Inner
    find_entry zero it = it
    find_entry (suc n) it =
        let rest = find_entry n (record it { iter = inner.next it.iter }) in
        if inner.valid it.iter
        then if accepts_row (inner.row it.iter) then record it { valid = true } else rest
        else if is_ok (inner.status it.iter)
        then it
        else record it { status = inner.status it.iter }

    unfoldable pub find_next_valid_entry : MemTableIterator Inner → MemTableIterator Inner
    find_next_valid_entry it = find_entry fuel (record it { valid = false })

    unfoldable pub seek_to_first : MemTableIterator Inner → MemTableIterator Inner
    seek_to_first it = find_next_valid_entry (record it { iter = inner.seek_to_first it.iter })

    unfoldable pub next : MemTableIterator Inner → MemTableIterator Inner
    next it = find_next_valid_entry (record it { iter = inner.next it.iter })

    unfoldable pub mem_table_iterator : InternalIterator (MemTableIterator Inner) Entry
    mem_table_iterator = record {
      seek_to_first = seek_to_first;
      next = next;
      valid = λ it. it.valid;
      status = λ it. it.status;
      row = λ it. inner.row it.iter;
    }
