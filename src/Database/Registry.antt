-- ===== src/Database/Registry.antt =====
-- The registry of column families after any calls: `BitLSM` of src/include/bit_lsm.cpp.
use bit_lsm.Base.{
  ℕ, ◌≡◌, ◌⊎◌, refl, ap, ◌∙◌, sym, inl, inr, Bool, true, false, Bool-cases, ◌||◌, Option,
  Option-cases, none, some, List, [], ◌∷◌, ◌==◌, ==→eq, Ordering, arith,
}
use mathlib.Core.Path.{subst}
use bit_lsm.Bytes.{Bytes, compare_bytes, compare_bytes_eq, compare_bytes_refl}
use bit_lsm.Status.{Status, is_ok}
use bit_lsm.Schema.{validate_attr_specs}
use bit_lsm.Batch.{same_bytes, is_eq}
use bit_lsm.Database.{
  default_name, ColumnFamily, Descriptor, RocksDb, BitLsm, find, erase, disarm, register,
  address_of, is_listed, created, wants_uring, create_column_family, torn_down, drop_column_family,
}

is_eq→eq : (o : Ordering) → is_eq o ≡ true → o ≡ Ordering.eq
is_eq→eq o h = ground arith

pub same_bytes→eq : (a b : Bytes) → same_bytes a b ≡ true → a ≡ b
same_bytes→eq a b h = compare_bytes_eq a b (is_eq→eq (compare_bytes a b) h)

pub same_bytes_refl : (a : Bytes) → same_bytes a a ≡ true
same_bytes_refl a = rw (compare_bytes_refl a) refl

-- No two entries have the same name.
abbrev pub Distinct : List ColumnFamily → Type 0
Distinct [] = Unit {0}
Distinct (cf ∷ registry) = (find cf.name registry ≡ none) × Distinct registry

unfoldable pub has_id : ℕ → List ColumnFamily → Bool
has_id i [] = false
has_id i (cf ∷ registry) = (cf.id == i) || has_id i registry

abbrev pub AllListed : List ColumnFamily → List ℕ → Type 0
AllListed registry [] = Unit {0}
AllListed registry (i ∷ armed) = (has_id i registry ≡ true) × AllListed registry armed

find-erase-none :
    (n m : Bytes) (registry : List ColumnFamily)
    → find n registry ≡ none
    → find n (erase m registry) ≡ none
unfolding find erase
find-erase-none n m [] = λ e. refl
find-erase-none n m (cf ∷ registry) = elim (Bool-cases (same_bytes cf.name n)) [
  | inl same ↦ rw same (λ e. absurd (ground (arith, e)))
  | inr other ↦ elim (Bool-cases (same_bytes cf.name m)) [
    | inl gone ↦ rw (other, gone) (λ e. e)
    | inr kept ↦ rw (other, kept, other) (find-erase-none n m registry)
  ]
]

erase-Distinct :
    (m : Bytes) (registry : List ColumnFamily) → Distinct registry → Distinct (erase m registry)
unfolding erase
erase-Distinct m [] d = tt
erase-Distinct m (cf ∷ registry) d = elim (Bool-cases (same_bytes cf.name m)) [
  | inl gone ↦ rw gone d.1
  | inr kept ↦ rw kept (find-erase-none cf.name m registry d.0, erase-Distinct m registry d.1)
]

find-erase_other :
    (n m : Bytes) (registry : List ColumnFamily)
    → same_bytes m n ≡ false
    → find n (erase m registry) ≡ find n registry
unfolding find erase
find-erase_other n m [] other = refl
find-erase_other n m (cf ∷ registry) other = elim (Bool-cases (same_bytes cf.name m)) [
  | inl gone ↦
      let differs : same_bytes cf.name n ≡ false =
        subst (λ k. same_bytes k n ≡ false) (sym (same_bytes→eq cf.name m gone)) other in
      rw (gone, differs) refl
  | inr kept ↦ elim (Bool-cases (same_bytes cf.name n)) [
    | inl here ↦ rw (kept, here) refl
    | inr there ↦ rw (kept, there) (find-erase_other n m registry other)
  ]
]

abbrev id_of : Option ColumnFamily → ℕ
id_of none = 0
id_of (some cf) = cf.id

-- The entry that goes has the id that is disarmed.
has_id-erase :
    (i : ℕ) (m : Bytes) (registry : List ColumnFamily) (found : ColumnFamily)
    → find m registry ≡ some found
    → (i == found.id) ≡ false
    → has_id i registry ≡ true
    → has_id i (erase m registry) ≡ true
unfolding find erase has_id
has_id-erase i m [] found = λ e other h. absurd (ground (arith, e))
has_id-erase i m (cf ∷ registry) found = elim (Bool-cases (same_bytes cf.name m)) [
  | inl gone ↦ rw gone (λ e other h.
      let ids : cf.id ≡ found.id = ap id_of e in
      let no_match : (cf.id == i) ≡ false = ground (arith, ids, other) in
      ground (arith, h, no_match))
  | inr kept ↦ rw kept (λ e other h. elim (Bool-cases (cf.id == i)) [
    | inl here ↦ rw here refl
    | inr there ↦
        let rest : has_id i registry ≡ true = ground (arith, h, there) in
        rw (there, has_id-erase i m registry found e other rest) refl
  ])
]

disarm-AllListed :
    (m : Bytes) (registry : List ColumnFamily) (found : ColumnFamily) (armed : List ℕ)
    → find m registry ≡ some found
    → AllListed registry armed
    → AllListed (erase m registry) (disarm found.id armed)
unfolding disarm
disarm-AllListed m registry found [] e a = tt
disarm-AllListed m registry found (i ∷ armed) e a = elim (Bool-cases (i == found.id)) [
  | inl gone ↦ rw gone (disarm-AllListed m registry found armed e a.1)
  | inr kept ↦
      rw kept
        (has_id-erase i m registry found e kept a.0, disarm-AllListed m registry found armed e a.1)
]

AllListed-cons :
    (cf : ColumnFamily) (registry : List ColumnFamily) (armed : List ℕ)
    → AllListed registry armed
    → AllListed (cf ∷ registry) armed
unfolding has_id
AllListed-cons cf registry [] a = tt
AllListed-cons cf registry (i ∷ armed) a =
    (ground (arith, a.0), AllListed-cons cf registry armed a.1)

module _ {World : Type 0} (rocksdb : RocksDb World) where
  -- Names are unique, the default column family is there under its address, and the listener reaches only estimators of
  -- column families that are there.
  pub record IsValid (db : BitLsm World) : Type 0 where
    pub names : Distinct db.cf_registry
    pub default : ColumnFamily
    pub has_default_cf : find default_name db.cf_registry ≡ some default
    pub at_address : default.address ≡ db.default_cf
    pub listed : AllListed db.cf_registry db.armed

  pub register-listed :
      (d : Descriptor) (id : ℕ) (db : BitLsm World)
      → AllListed db.cf_registry db.armed
      → AllListed (register rocksdb d id db).cf_registry (register rocksdb d id db).armed
  unfolding register has_id
  register-listed d id db a =
      let cf : ColumnFamily = record {
        name = d.name;
        address = db.next_address;
        id = id;
        options = d.options;
      } in
      elim (Bool-cases d.options.enable_estimator) [
        | inl on ↦ rw on (ground arith, AllListed-cons cf db.cf_registry db.armed a)
        | inr off ↦ rw off (AllListed-cons cf db.cf_registry db.armed a)
      ]

  not_listed : (o : Option ColumnFamily) → is_listed rocksdb o ≡ false → o ≡ none
  not_listed none h = refl
  not_listed (some cf) h = absurd (ground (arith, h))

  not_default :
      (name : Bytes) (registry : List ColumnFamily) (cf : ColumnFamily)
      → find name registry ≡ none
      → find default_name registry ≡ some cf
      → same_bytes name default_name ≡ false
  not_default name registry cf new there = elim (Bool-cases (same_bytes name default_name)) [
    | inr other ↦ other
    | inl same ↦
        let missing =
          subst (λ n. find n registry ≡ none) (same_bytes→eq name default_name same) new in
        absurd (ground (arith, missing, there))
  ]

  register-IsValid :
      (d : Descriptor) (id : ℕ) (db : BitLsm World)
      → find d.name db.cf_registry ≡ none
      → IsValid db
      → IsValid (register rocksdb d id db)
  unfolding register find
  register-IsValid d id db new v = record {
    names = (new, v.names);
    default = v.default;
    has_default_cf =
        rw (not_default d.name db.cf_registry v.default new v.has_default_cf) v.has_default_cf;
    at_address = v.at_address;
    listed = register-listed d id db v.listed;
  }

  created-IsValid :
      (d : Descriptor) (db : BitLsm World) (answer : (Status ⊎ ℕ) × World)
      → find d.name db.cf_registry ≡ none
      → IsValid db
      → IsValid (created rocksdb d db answer).1
  created-IsValid d db (inl s, w) new v = record {
    names = v.names;
    default = v.default;
    has_default_cf = v.has_default_cf;
    at_address = v.at_address;
    listed = v.listed;
  }
  created-IsValid d db (inr id, w) new v =
      register-IsValid d id (record db { world = w }) new
        (record {
          names = v.names;
          default = v.default;
          has_default_cf = v.has_default_cf;
          at_address = v.at_address;
          listed = v.listed;
        })

  pub create_column_family-IsValid :
      (d : Descriptor) (db : BitLsm World)
      → IsValid db
      → IsValid (create_column_family rocksdb d db).1
  unfolding create_column_family
  create_column_family-IsValid d db v =
      elim (Bool-cases (is_listed rocksdb (find d.name db.cf_registry))) [
        | inl old ↦ rw old v
        | inr new ↦ elim (Bool-cases (is_ok (validate_attr_specs d.options))) [
          | inr bad ↦ rw (new, bad) v
          | inl good ↦
              rw (new, good)
                (created-IsValid d (record db { io_uring = db.io_uring || wants_uring d.options })
                  (rocksdb.create_column_family db.world d)
                  (not_listed (find d.name db.cf_registry) new)
                  (record {
                    names = v.names;
                    default = v.default;
                    has_default_cf = v.has_default_cf;
                    at_address = v.at_address;
                    listed = v.listed;
                  }))
        ]
      ]

  torn_down-IsValid :
      (m : Bytes) (db : BitLsm World) (found : ColumnFamily) (answer : Status × World)
      → find m db.cf_registry ≡ some found
      → (found.address == db.default_cf) ≡ false
      → IsValid db
      → IsValid (torn_down rocksdb m found db answer).1
  torn_down-IsValid m db found answer e other v =
      let elsewhere : same_bytes m default_name ≡ false =
        elim (Bool-cases (same_bytes m default_name)) [
          | inr apart ↦ apart
          | inl same ↦
              let found_there =
                subst (λ n. find n db.cf_registry ≡ some found) (same_bytes→eq m default_name same)
                  e in
              let address : found.address ≡ v.default.address =
                ap (address_of rocksdb) (sym found_there ∙ v.has_default_cf) in
              absurd (ground (arith, address, v.at_address, other))
        ] in
      record {
        names = erase-Distinct m db.cf_registry v.names;
        default = v.default;
        has_default_cf =
            find-erase_other default_name m db.cf_registry elsewhere ∙ v.has_default_cf;
        at_address = v.at_address;
        listed = disarm-AllListed m db.cf_registry found db.armed e v.listed;
      }

  pub drop_column_family-IsValid :
      (handle : Option ColumnFamily) (db : BitLsm World)
      → IsValid db
      → IsValid (drop_column_family rocksdb handle db).1
  unfolding drop_column_family
  drop_column_family-IsValid none db v = v
  drop_column_family-IsValid (some cf) db v = elim (Bool-cases (cf.address == db.default_cf)) [
    | inl default ↦ rw default v
    | inr other ↦ elim (Option-cases (find cf.name db.cf_registry)) [
      | inl missing ↦ rw (other, missing) v
      | inr (found, e) ↦ elim (Bool-cases (found.address == cf.address)) [
        | inr stale ↦ rw (other, e, stale) v
        | inl own ↦
            let apart : (found.address == db.default_cf) ≡ false =
              ground (arith, ==→eq found.address cf.address own, other) in
            rw (other, e, own)
              (torn_down-IsValid cf.name db found (rocksdb.drop_column_family db.world found.id) e
                apart v)
      ]
    ]
  ]
