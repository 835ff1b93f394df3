-- ===== src/Scan.antt =====
-- The iterators of a scan: `SABIInternalIterator` of src/include/bit_lsm_iterator.h as an interface, with the stream of
-- rows that an iterator stands for. The children are its implementations.
pub mod Level
pub mod LevelRows
pub mod MemTable
pub mod MemTableRows
pub mod Merging
pub mod MergedTop
pub mod MergedRows
pub mod Merged
use bit_lsm.Base.{◌≡◌, Bool, true, false, Option, some, List, [], ◌∷◌}
use bit_lsm.Status.{Status, ok}

-- `row` is the current key and value.
pub record InternalIterator (It Row : Type 0) : Type 0 where
  pub seek_to_first : It → It
  pub next : It → It
  pub valid : It → Bool
  pub status : It → Status
  pub row : It → Option Row

module _ {It Row : Type 0} (ops : InternalIterator It Row) where
  -- From where it stands the iterator gives these rows, in this order, its status OK all the while, and then stops with
  -- this status.
  unfoldable pub Yields : It → List Row → Status → Type 0
  Yields it [] s = (ops.valid it ≡ false) × (ops.status it ≡ s)
  Yields it (r ∷ rows) s =
      ((ops.valid it ≡ true) × ((ops.row it ≡ some r) × (ops.status it ≡ ok)))
      × Yields (ops.next it) rows s
