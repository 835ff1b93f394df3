-- ===== src/Database/Reached.antt =====
-- Databases that the constructor and any calls lead to: `BitLSM` of src/include/bit_lsm.cpp.
use bit_lsm.Base.{
  ℕ, ◌≡◌, ◌⊎◌, refl, inl, inr, Bool, true, false, Bool-cases, ◌||◌, Option, none, some, List, [],
  ◌∷◌, length, arith, ap,
}
use mathlib.Core.Path.{subst}
use bit_lsm.Bytes.{Bytes}
use bit_lsm.Status.{Status}
use bit_lsm.Batch.{same_bytes}
use bit_lsm.Database.{
  default_name, ColumnFamily, Descriptor, RocksDb, BitLsm, find, lists_twice, seen_before,
  has_default, register, register_all, is_listed, OpenError, opened, open_database, want_uring,
  is_ok, create_column_family, validate_all, drop_column_family,
}
use bit_lsm.Database.Registry.{
  Distinct, AllListed, register-listed, IsValid, create_column_family-IsValid,
  drop_column_family-IsValid,
}

abbrev names_of : List ColumnFamily → List Bytes
names_of [] = []
names_of (cf ∷ registry) = cf.name ∷ names_of registry

find-unseen :
    (name : Bytes) (registry : List ColumnFamily)
    → seen_before name (names_of registry) ≡ false
    → find name registry ≡ none
unfolding find seen_before
find-unseen name [] = λ h. refl
find-unseen name (cf ∷ registry) = elim (Bool-cases (same_bytes cf.name name)) [
  | inl here ↦ rw here (λ h. absurd (ground (arith, h)))
  | inr there ↦ rw there (find-unseen name registry)
]

module _ {World : Type 0} (rocksdb : RocksDb World) where
  abbrev Lists : BitLsm World → Type 0
  Lists db = Distinct db.cf_registry × AllListed db.cf_registry db.armed

  abbrev default_listed : BitLsm World → Bool
  default_listed db = is_listed rocksdb (find default_name db.cf_registry)

  register-default :
      (d : Descriptor) (id : ℕ) (db : BitLsm World)
      → default_listed (register rocksdb d id db)
        ≡ (same_bytes d.name default_name || default_listed db)
  unfolding register find
  register-default d id db = elim (Bool-cases (same_bytes d.name default_name)) [
    | inl here ↦ rw here refl
    | inr there ↦ rw there refl
  ]

  register_all-Lists :
      (descriptors : List Descriptor) (ids : List ℕ) (db : BitLsm World)
      → length ids ≡ length descriptors
      → lists_twice (names_of db.cf_registry) descriptors ≡ false
      → Lists db
      → let after = register_all rocksdb descriptors ids db in
        Lists after
        × (has_default descriptors || default_listed db ≡ true → default_listed after ≡ true)
  unfolding register_all lists_twice has_default register
  register_all-Lists [] ids db same once l = (l, λ h. h)
  register_all-Lists (d ∷ descriptors) [] db same once l = absurd (ground (arith, same))
  register_all-Lists (d ∷ descriptors) (id ∷ ids) db same once l =
      let unseen : seen_before d.name (names_of db.cf_registry) ≡ false = ground (arith, once) in
      let later : lists_twice (d.name ∷ names_of db.cf_registry) descriptors ≡ false =
        ground (arith, once) in
      let rest =
        register_all-Lists descriptors ids (register rocksdb d id db) (ground (arith, same)) later
          ((find-unseen d.name db.cf_registry unseen, l.0), register-listed rocksdb d id db l.1) in
      (rest.0, λ h. rest.1 (ground (arith, h, register-default d id db)))

  is_some_listed :
      (o : Option ColumnFamily) → is_listed rocksdb o ≡ true → (cf : ColumnFamily) × (o ≡ some cf)
  is_some_listed none h = absurd (ground (arith, h))
  is_some_listed (some cf) h = (cf, refl)

  -- RocksDB gives one handle for each descriptor.
  abbrev pub OneEach : List Descriptor → Status ⊎ List ℕ → Type 0
  OneEach descriptors (inl s) = Unit {0}
  OneEach descriptors (inr ids) = length ids ≡ length descriptors

  abbrev right_or : BitLsm World → OpenError ⊎ BitLsm World → BitLsm World
  right_or db (inl e) = db
  right_or db (inr opened_db) = opened_db

  opened-IsValid :
      (descriptors : List Descriptor) (answer : (Status ⊎ List ℕ) × World) (db : BitLsm World)
      → OneEach descriptors answer.0
      → lists_twice [] descriptors ≡ false
      → has_default descriptors ≡ true
      → opened rocksdb descriptors answer ≡ inr db
      → IsValid rocksdb db
  opened-IsValid descriptors (inl s, w) db each once there e = absurd (ground (arith, e))
  opened-IsValid descriptors (inr ids, w) db each once there e =
      let start : BitLsm World = record {
        cf_registry = [];
        default_cf = 0;
        next_address = 1;
        armed = [];
        io_uring = want_uring descriptors;
        world = w;
      } in
      let after : BitLsm World = register_all rocksdb descriptors ids start in
      let ((names, listed), default) =
        register_all-Lists descriptors ids start each once (tt, tt) in
      let (cf, found) =
        is_some_listed (find default_name after.cf_registry) (default (rw there refl)) in
      subst (IsValid rocksdb) (ap (right_or db) e) (record {
        names = names;
        default = cf;
        has_default_cf = found;
        at_address = rw found refl;
        listed = listed;
      })

  module _
      (each : (w : World) (descriptors : List Descriptor)
        → OneEach descriptors (rocksdb.open_db w descriptors).0) where
    open_database-IsValid :
        (w : World) (descriptors : List Descriptor) (db : BitLsm World)
        → open_database rocksdb w descriptors ≡ inr db
        → IsValid rocksdb db
    unfolding open_database
    open_database-IsValid w descriptors db = elim (Bool-cases (lists_twice [] descriptors)) [
      | inl twice ↦ rw twice (λ e. absurd (ground (arith, e)))
      | inr once ↦ elim (Bool-cases (has_default descriptors)) [
        | inr missing ↦ rw (once, missing) (λ e. absurd (ground (arith, e)))
        | inl there ↦ elim (Bool-cases (is_ok (validate_all descriptors))) [
          | inr bad ↦ rw (once, there, bad) (λ e. absurd (ground (arith, e)))
          | inl good ↦
              rw (once, there, good)
                (opened-IsValid descriptors (rocksdb.open_db w descriptors) db (each w descriptors)
                  once there)
        ]
      ]
    ]

    -- A database is opened, then column families are created and dropped in any order, by any handles, while the rest of
    -- RocksDB's state changes.
    pub data Reached : BitLsm World → Type 0 where
      opens :
          (w : World) (descriptors : List Descriptor) (db : BitLsm World)
          → open_database rocksdb w descriptors ≡ inr db
          → Reached db
      creates :
          {db : BitLsm World}
          → Reached db
          → (d : Descriptor) → Reached (create_column_family rocksdb d db).1
      drops :
          {db : BitLsm World}
          → Reached db
          → (handle : Option ColumnFamily) → Reached (drop_column_family rocksdb handle db).1
      elsewhere : {db : BitLsm World} → Reached db → (w : World) → Reached (record db { world = w })

    -- Where RocksDB opens one handle for each descriptor, a database that the constructor returned and on which
    -- column families were created and dropped in any order, by any handles, has a registry of unique names,
    -- holds the default column family at the address that it was opened with, and has only registered column
    -- families armed in its listener.
    pub Reached-IsValid : {db : BitLsm World} → Reached db → IsValid rocksdb db
    Reached-IsValid (opens w descriptors db e) = open_database-IsValid w descriptors db e
    Reached-IsValid (creates {db} r d) =
        create_column_family-IsValid rocksdb d db (Reached-IsValid r)
    Reached-IsValid (drops {db} r handle) =
        drop_column_family-IsValid rocksdb handle db (Reached-IsValid r)
    Reached-IsValid (elsewhere {db} r w) =
        let v = Reached-IsValid r in
        record {
          names = v.names;
          default = v.default;
          has_default_cf = v.has_default_cf;
          at_address = v.at_address;
          listed = v.listed;
        }
