-- ===== src/Scan/Level.antt =====
-- The scan of a level, whose files are disjoint and in key order: src/include/bit_lsm_level_iterator.cpp. Opening a
-- file gives a table iterator or RocksDB's error and is a parameter, as are the table iterator's operations.
use bit_lsm.Base.{
  ℕ, zero, suc, ◌+◌, ◌-◌, ◌⊎◌, inl, inr, Bool, true, false, Option, none, some, List, length,
  get_elem?, if◌then◌else◌,
}
use bit_lsm.Status.{Status, ok, is_ok}
use bit_lsm.Scan.{InternalIterator}

-- `FindTable` and the construction of the table iterator, which resumes the readahead of its predecessor.
pub record TableSource (File Table Readahead : Type 0) : Type 0 where
  pub find_table : Readahead → File → Status ⊎ Table
  pub readahead_state : Table → Readahead

pub record LevelIterator (File Table Readahead : Type 0) : Type 0 where
  pub valid : Bool
  pub status : Status
  pub files : List File
  pub cur_file_idx : ℕ
  pub cur_sti : Option Table
  pub readahead_file_info : Readahead

unfoldable pub new_level :
    {File Table Readahead : Type 0} → List File → Readahead → LevelIterator File Table Readahead
new_level files readahead = record {
  valid = false;
  status = ok;
  files = files;
  cur_file_idx = 0;
  cur_sti = none;
  readahead_file_info = readahead;
}

module _ {File Table Readahead Row : Type 0} (source : TableSource File Table Readahead)
    (tables : InternalIterator Table Row) where
  abbrev pub captured_readahead : Option Table → Readahead → Readahead
  captured_readahead none readahead = readahead
  captured_readahead (some sti) readahead = source.readahead_state sti

  -- What `FindTable` answers, an unreadable file's status included.
  abbrev pub place_table :
      LevelIterator File Table Readahead
      → Readahead
      → Status ⊎ Table
      → LevelIterator File Table Readahead
  place_table it readahead (inl s) = record it {
    valid = false;
    status = s;
    cur_sti = none;
    readahead_file_info = readahead;
  }
  place_table it readahead (inr sti) = record it {
    valid = false;
    cur_sti = some sti;
    readahead_file_info = readahead;
  }

  abbrev pub load_found :
      LevelIterator File Table Readahead
      → Readahead
      → Option File
      → LevelIterator File Table Readahead
  load_found it readahead none = record it {
    valid = false;
    cur_sti = none;
    readahead_file_info = readahead;
  }
  load_found it readahead (some file) = place_table it readahead (source.find_table readahead file)

  unfoldable pub load_file :
      ℕ → LevelIterator File Table Readahead → LevelIterator File Table Readahead
  load_file idx it =
      load_found it (captured_readahead it.cur_sti it.readahead_file_info) (get_elem? it.files idx)

  -- What becomes of the loaded file's first row; `rest` goes on to the next file.
  abbrev pub settle :
      LevelIterator File Table Readahead
      → LevelIterator File Table Readahead
      → Option Table
      → LevelIterator File Table Readahead
  settle it rest none = rest
  settle it rest (some sti) =
      if tables.valid sti
      then record it { valid = true; cur_sti = some sti }
      else if is_ok (tables.status sti)
      then rest
      else record it { status = tables.status sti; cur_sti = some sti }

  abbrev pub seek_table : Option Table → Option Table
  seek_table none = none
  seek_table (some sti) = some (tables.seek_to_first sti)

  -- The loop over the files from `cur_file_idx` on, so many, up to one that has a row; the end of `Next` is the same.
  unfoldable pub seek_files :
      ℕ → LevelIterator File Table Readahead → LevelIterator File Table Readahead
  seek_files zero it = it
  seek_files (suc count) it =
      let loaded : LevelIterator File Table Readahead = load_file it.cur_file_idx it in
      let sought : LevelIterator File Table Readahead = record loaded {
        cur_sti = seek_table loaded.cur_sti;
      } in
      let rest = seek_files count (record sought { cur_file_idx = it.cur_file_idx + 1 }) in
      if is_ok loaded.status then settle sought rest sought.cur_sti else loaded

  unfoldable pub seek_to_first :
      LevelIterator File Table Readahead → LevelIterator File Table Readahead
  seek_to_first it =
      if is_ok it.status
      then seek_files (length it.files) (record it { cur_file_idx = 0 })
      else record it { valid = false }

  abbrev pub after_table :
      LevelIterator File Table Readahead → Table → LevelIterator File Table Readahead
  after_table it sti =
      let moved : LevelIterator File Table Readahead = record it { cur_sti = some sti } in
      let left : ℕ = length it.files - (it.cur_file_idx + 1) in
      let rest =
        seek_files left (record moved { valid = false; cur_file_idx = it.cur_file_idx + 1 }) in
      if tables.valid sti
      then moved
      else if is_ok (tables.status sti)
      then rest
      else record moved { valid = false; status = tables.status sti }

  abbrev pub next_table :
      LevelIterator File Table Readahead → Option Table → LevelIterator File Table Readahead
  next_table it none = it
  next_table it (some sti) = after_table it (tables.next sti)

  -- `Next`, on a valid iterator, which has a table.
  unfoldable pub next : LevelIterator File Table Readahead → LevelIterator File Table Readahead
  next it = next_table it it.cur_sti

  abbrev pub row_of : Option Table → Option Row
  row_of none = none
  row_of (some sti) = tables.row sti

  unfoldable pub level_iterator : InternalIterator (LevelIterator File Table Readahead) Row
  level_iterator = record {
    seek_to_first = seek_to_first;
    next = next;
    valid = λ it. it.valid;
    status = λ it. it.status;
    row = λ it. row_of it.cur_sti;
  }
