-- ===== src/Scan/LevelRows.antt =====
-- The rows of a level: `SeekToFirst` and `Next` of src/include/bit_lsm_level_iterator.cpp, and the files' own rows.
use bit_lsm.Base.{
  ℕ, zero, suc, ◌+◌, ◌-◌, ◌⊎◌, ◌≡◌, refl, ap, ◌∙◌, sym, inl, inr, true, false, Bool-cases, some,
  List, [], ◌∷◌, ◌++◌, length, get_elem?, drop, length-drop, if◌then◌else◌, arith,
}
use bit_lsm.Status.{Status, ok, is_ok}
use bit_lsm.Scan.{InternalIterator, Yields}
use bit_lsm.Scan.Level.{
  TableSource, LevelIterator, new_level, place_table, captured_readahead, load_file, settle,
  seek_files, seek_to_first, after_table, next, level_iterator,
}

-- The files' rows one after another, up to the first file that ends in an error.
unfoldable pub scan_files : {Row : Type 0} → List (List Row × Status) → List Row × Status
scan_files [] = ([], ok)
scan_files {Row = Row} ((rows, s) ∷ files) =
    let after : List Row × Status = if is_ok s then scan_files files else ([], s) in
    (rows ++ after.0, after.1)

is_ok→ok : (s : Status) → is_ok s ≡ true → s ≡ ok
is_ok→ok s h = ground arith

pub drop-cons :
    {A : Type 0} (xs : List A) (i : ℕ) (x : A) (left : List A)
    → drop i xs ≡ x ∷ left
    → (get_elem? xs i ≡ some x) × (drop (i + 1) xs ≡ left)
drop-cons [] zero x left h = absurd (ground arith)
drop-cons [] (suc i) x left h = absurd (ground arith)
drop-cons (y ∷ xs) zero x left h = ground arith
drop-cons (y ∷ xs) (suc i) x left h =
    let (found, rest) = drop-cons xs i x left h in
    (
      found,
      let moved : suc i + 1 ≡ suc (i + 1) = omega arith in
          ap (λ (n : ℕ). drop n (y ∷ xs)) moved ∙ rest,
    )

files_left :
    {A : Type 0} (xs : List A) (i : ℕ) (left : List A)
    → drop (i + 1) xs ≡ left
    → length xs - (i + 1) ≡ length left
files_left xs i left h = sym (length-drop (i + 1) xs) ∙ ap length h

module _ {File Table Readahead Row : Type 0} (source : TableSource File Table Readahead)
    (tables : InternalIterator Table Row) (contents : File → List Row × Status) where
  -- An unreadable file has no rows and the error that opening it gives; a table iterator over a file gives its rows.
  abbrev pub Opens : Status ⊎ Table → List Row × Status → Type 0
  Opens (inl s) c = (c ≡ ([], s)) × (is_ok s ≡ false)
  Opens (inr sti) c = Yields tables (tables.seek_to_first sti) c.0 c.1

  abbrev Level : Type 0
  Level = LevelIterator File Table Readahead

  abbrev Gives : Level → List Row × Status → Type 0
  Gives it c = Yields (level_iterator source tables) it c.0 c.1

  -- The rest of a file's rows, then the files after it.
  abbrev followed : List Row → Status → List (List Row × Status) → List Row × Status
  followed rows s files = scan_files ((rows, s) ∷ files)

  abbrev all_contents : List File → List (List Row × Status)
  all_contents [] = []
  all_contents (file ∷ files) = contents file ∷ all_contents files

  -- What a loop over the files that are left does.
  abbrev SeeksRest : List File → Type 0
  SeeksRest left =
      (it : Level)
      → it.status ≡ ok
      → it.valid ≡ false
      → drop it.cur_file_idx it.files ≡ left
      → Gives (seek_files source tables (length left) it) (scan_files (all_contents left))

  after_table-Gives :
      (left : List File)
      → SeeksRest left
      → (rows : List Row) (s : Status) (it : Level) (sti : Table) → it.status ≡ ok
      → it.valid ≡ true
      → drop (it.cur_file_idx + 1) it.files ≡ left
      → Yields tables sti rows s
      → Gives (after_table source tables it sti) (followed rows s (all_contents left))
  unfolding Yields level_iterator scan_files next
  after_table-Gives left seeks [] s it sti fine on at (done, status) = elim (Bool-cases (is_ok s)) [
    | inl good ↦
        let end : is_ok (tables.status sti) ≡ true = rw status good in
        rw (good, done, end)
          (rw (files_left it.files it.cur_file_idx left at) (
            seeks
              (record it { cur_sti = some sti; valid = false; cur_file_idx = it.cur_file_idx + 1 })
              fine refl at))
    | inr bad ↦
        let end : is_ok (tables.status sti) ≡ false = rw status bad in
        rw (bad, done, end) (refl, status)
  ]
  after_table-Gives left seeks (r ∷ rows) s it sti fine on at ((here, row), y) = rw here (
    (on, (row.0, fine)),
    after_table-Gives left seeks rows s (record it { cur_sti = some sti }) (tables.next sti) fine on
        at y,
  )

  settle-Gives :
      (left : List File)
      → SeeksRest left
      → (rows : List Row) (s : Status) (it : Level) (sti : Table) → it.status ≡ ok
      → it.valid ≡ false
      → drop (it.cur_file_idx + 1) it.files ≡ left
      → Yields tables sti rows s
      → Gives
          (settle source tables it
            (seek_files source tables
              (length left)
              (record it { cur_sti = some sti; cur_file_idx = it.cur_file_idx + 1 }))
            (some sti))
          (followed rows s (all_contents left))
  unfolding Yields level_iterator scan_files next
  settle-Gives left seeks [] s it sti fine off at (done, status) = elim (Bool-cases (is_ok s)) [
    | inl good ↦
        let end : is_ok (tables.status sti) ≡ true = rw status good in
        rw (good, done, end)
          (seeks (record it { cur_sti = some sti; cur_file_idx = it.cur_file_idx + 1 }) fine off at)
    | inr bad ↦
        let end : is_ok (tables.status sti) ≡ false = rw status bad in
        rw (bad, done, end) (off, status)
  ]
  settle-Gives left seeks (r ∷ rows) s it sti fine off at ((here, row), y) = rw here (
    (refl, (row.0, fine)),
    after_table-Gives left seeks rows s (record it { valid = true; cur_sti = some sti })
        (tables.next sti) fine refl at y,
  )

  module _
      (opens : (readahead : Readahead) (file : File)
        → Opens (source.find_table readahead file) (contents file)) where
    found-Gives :
        (left : List File) (file : File) (found : Status ⊎ Table)
        → SeeksRest left
        → (it : Level) → it.status ≡ ok
        → it.valid ≡ false
        → get_elem? it.files it.cur_file_idx ≡ some file
        → drop (it.cur_file_idx + 1) it.files ≡ left
        → source.find_table
            (captured_readahead source tables it.cur_sti it.readahead_file_info)
            file
          ≡ found
        → Opens found (contents file)
        → Gives
            (seek_files source tables (suc (length left)) it)
            (scan_files (contents file ∷ all_contents left))
    unfolding seek_files load_file Yields level_iterator scan_files
    found-Gives left file (inl s) seeks it fine off here at e (c, bad) =
        rw (here, e, bad, c, bad) (refl, refl)
    found-Gives left file (inr sti) seeks it fine off here at e y =
        let good : is_ok it.status ≡ true = rw fine refl in
        rw (here, e, good)
          (settle-Gives left seeks _ _
            (place_table source tables it
              (captured_readahead source tables it.cur_sti it.readahead_file_info) (inr sti))
            (tables.seek_to_first sti) fine refl at y)

    seek_files-Gives : (left : List File) → SeeksRest left
    unfolding seek_files Yields level_iterator scan_files
    seek_files-Gives [] it fine off at = (off, fine)
    seek_files-Gives (file ∷ left) it fine off at =
        let (here, after) = drop-cons it.files it.cur_file_idx file left at in
        found-Gives left file _ (seek_files-Gives left) it fine off here after refl
          (opens (captured_readahead source tables it.cur_sti it.readahead_file_info) file)

    -- Where opening a file gives its error or a table iterator that gives the file's rows, a new level iterator
    -- taken to its first row gives the files' rows one after another, up to and with the first file that fails,
    -- and ends with that file's error, or OK.
    pub seek_to_first-Yields :
        (files : List File) (readahead : Readahead)
        → Yields
            (level_iterator source tables)
            (seek_to_first source tables (new_level files readahead))
            (scan_files (all_contents files)).0
            (scan_files (all_contents files)).1
    unfolding seek_to_first new_level
    seek_to_first-Yields files readahead = seek_files-Gives files _ refl refl refl
