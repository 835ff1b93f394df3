-- ===== src/Database.antt =====
-- The column families of a database: src/include/bit_lsm.cpp and bit_lsm_column_family.h. RocksDB's own opening, creating
-- and dropping are parameters with a state of their own. A handle's identity, its address in the source, is a number.
pub mod Registry
pub mod Reached
pub mod Writes
pub mod Whole
pub mod NewIterator
pub mod Opening
use bit_lsm.Base.{
  ℕ, zero, suc, ◌+◌, ◌⊎◌, inl, inr, Bool, true, false, not, ◌&&◌, ◌||◌, Option, none, some, List,
  [], ◌∷◌, ltb, ◌==◌, if◌then◌else◌,
}
use bit_lsm.Bytes.{Bytes}
use bit_lsm.Status.{Status, ok, invalid_argument, is_ok}
use bit_lsm.Schema.{BitLsmOptions, validate_attr_specs}
use bit_lsm.Batch.{same_bytes}

-- `kDefaultColumnFamilyName`, "default".
abbrev pub default_name : Bytes
default_name = 100 ∷ 101 ∷ 102 ∷ 97 ∷ 117 ∷ 108 ∷ 116 ∷ []

pub record ColumnFamily : Type 0 where
  pub name : Bytes
  pub address : ℕ
  pub id : ℕ
  pub options : BitLsmOptions

pub record Descriptor : Type 0 where
  pub name : Bytes
  pub options : BitLsmOptions

-- RocksDB's side; a column family is known by its id.
pub record RocksDb (World : Type 0) : Type 0 where
  pub open_db : World → List Descriptor → (Status ⊎ List ℕ) × World
  pub create_column_family : World → Descriptor → (Status ⊎ ℕ) × World
  pub drop_column_family : World → ℕ → Status × World

-- `armed` are the ids whose estimators the listener may reach.
pub record BitLsm (World : Type 0) : Type 0 where
  pub cf_registry : List ColumnFamily
  pub default_cf : ℕ
  pub next_address : ℕ
  pub armed : List ℕ
  pub io_uring : Bool
  pub world : World

pub data OpenError : Type 0 where
  duplicate_name missing_default : OpenError
  bad_schema open_failed : Status → OpenError

unfoldable pub find : Bytes → List ColumnFamily → Option ColumnFamily
find name [] = none
find name (cf ∷ registry) = if same_bytes cf.name name then some cf else find name registry

unfoldable pub erase : Bytes → List ColumnFamily → List ColumnFamily
erase name [] = []
erase name (cf ∷ registry) = if same_bytes cf.name name then registry else cf ∷ erase name registry

unfoldable pub disarm : ℕ → List ℕ → List ℕ
disarm id [] = []
disarm id (i ∷ armed) = if i == id then disarm id armed else i ∷ disarm id armed

abbrev pub wants_uring : BitLsmOptions → Bool
wants_uring options = ltb 0 options.scan_prefetch_depth || options.ondemand_index

-- The first loop of the constructor: whether a name is listed twice, and whether the default is.
unfoldable pub seen_before : Bytes → List Bytes → Bool
seen_before name [] = false
seen_before name (n ∷ seen) = same_bytes n name || seen_before name seen

unfoldable pub lists_twice : List Bytes → List Descriptor → Bool
lists_twice seen [] = false
lists_twice seen (d ∷ descriptors) =
    seen_before d.name seen || lists_twice (d.name ∷ seen) descriptors

unfoldable pub has_default : List Descriptor → Bool
has_default [] = false
has_default (d ∷ descriptors) = same_bytes d.name default_name || has_default descriptors

unfoldable pub want_uring : List Descriptor → Bool
want_uring [] = false
want_uring (d ∷ descriptors) = wants_uring d.options || want_uring descriptors

-- The status of the first schema that is refused.
abbrev pub first_failure : Status → Status → Status
first_failure s rest = if is_ok s then rest else s

unfoldable pub validate_all : List Descriptor → Status
validate_all [] = ok
validate_all (d ∷ descriptors) =
    first_failure (validate_attr_specs d.options) (validate_all descriptors)

module _ {World : Type 0} (rocksdb : RocksDb World) where
  unfoldable pub register : Descriptor → ℕ → BitLsm World → BitLsm World
  register d id db = record db {
    cf_registry =
        record { name = d.name; address = db.next_address; id = id; options = d.options }
        ∷ db.cf_registry;
    next_address = db.next_address + 1;
    armed = if d.options.enable_estimator then id ∷ db.armed else db.armed;
  }

  unfoldable pub register_all : List Descriptor → List ℕ → BitLsm World → BitLsm World
  register_all [] ids db = db
  register_all (d ∷ descriptors) [] db = db
  register_all (d ∷ descriptors) (id ∷ ids) db = register_all descriptors ids (register d id db)

  abbrev pub address_of : Option ColumnFamily → ℕ
  address_of none = 0
  address_of (some cf) = cf.address

  abbrev pub with_default : BitLsm World → BitLsm World
  with_default db = record db { default_cf = address_of (find default_name db.cf_registry) }

  abbrev pub opened : List Descriptor → (Status ⊎ List ℕ) × World → OpenError ⊎ BitLsm World
  opened descriptors (inl s, w) = inl (open_failed s)
  opened descriptors (inr ids, w) = inr (
      with_default (
        register_all descriptors ids (record {
          cf_registry = [];
          default_cf = 0;
          next_address = 1;
          armed = [];
          io_uring = want_uring descriptors;
          world = w;
        })))

  -- The constructor; an error is what it throws.
  unfoldable pub open_database : World → List Descriptor → OpenError ⊎ BitLsm World
  open_database w descriptors =
      if lists_twice [] descriptors
      then inl duplicate_name
      else if not (has_default descriptors)
      then inl missing_default
      else if not (is_ok (validate_all descriptors))
      then inl (bad_schema (validate_all descriptors))
      else opened descriptors (rocksdb.open_db w descriptors)

  unfoldable pub get_column_family : Bytes → BitLsm World → Option ColumnFamily
  get_column_family name db = find name db.cf_registry

  abbrev pub is_listed : Option ColumnFamily → Bool
  is_listed none = false
  is_listed (some cf) = true

  abbrev pub created : Descriptor → BitLsm World → (Status ⊎ ℕ) × World → Status × BitLsm World
  created d db (inl s, w) = (s, record db { world = w })
  created d db (inr id, w) = (ok, register d id (record db { world = w }))

  unfoldable pub create_column_family : Descriptor → BitLsm World → Status × BitLsm World
  create_column_family d db =
      let ready : BitLsm World = record db { io_uring = db.io_uring || wants_uring d.options } in
      if is_listed (find d.name db.cf_registry)
      then (invalid_argument, db)
      else if is_ok (validate_attr_specs d.options)
      then created d ready (rocksdb.create_column_family db.world d)
      else (validate_attr_specs d.options, db)

  abbrev pub torn_down :
      Bytes → ColumnFamily → BitLsm World → Status × World → Status × BitLsm World
  torn_down name cf db (s, w) = (
    s,
    record db { cf_registry = erase name db.cf_registry; armed = disarm cf.id db.armed; world = w },
  )

  -- The entry of the registry is the handle's own object, or the handle is refused.
  abbrev pub drop_found : Bytes → ℕ → BitLsm World → Option ColumnFamily → Status × BitLsm World
  drop_found name address db none = (invalid_argument, db)
  drop_found name address db (some found) =
      if found.address == address
      then torn_down name found db (rocksdb.drop_column_family db.world found.id)
      else (invalid_argument, db)

  abbrev pub drop_handle : BitLsm World → Option ColumnFamily → Status × BitLsm World
  drop_handle db none = (invalid_argument, db)
  drop_handle db (some cf) =
      if cf.address == db.default_cf
      then (invalid_argument, db)
      else drop_found cf.name cf.address db (find cf.name db.cf_registry)

  unfoldable pub drop_column_family : Option ColumnFamily → BitLsm World → Status × BitLsm World
  drop_column_family handle db = drop_handle db handle
