-- ===== src/Batch/Repeats.antt =====
-- What is left of a merge of src/include/bit_lsm_iterator.cpp in the order of its user keys, once a row with the key of
-- the row taken before is passed over: each key once.
use mathlib.Core.List.{Memᴰ}
use mathlib.Core.Path.{subst}
use bit_lsm.Base.{
  ◌≡◌, ◌⊎◌, refl, ◌∙◌, inl, inr, true, false, Bool-cases, Option, none, some, Option-cases, List,
  [], ◌∷◌, Ordering, arith,
}
use bit_lsm.Bytes.{
  Bytes, compare_bytes, compare_bytes-flip, compare_bytes_eq, compare_bytes_triangle,
}
use bit_lsm.Scan.MemTable.{ParsedInternalKey}
use bit_lsm.Batch.{MergedRow, Settings, same_bytes}
use bit_lsm.Batch.Verdicts.{Found}
use bit_lsm.Batch.Candidates.{distinct}

-- No key is before the one that it follows, the first of them being `latest`.
abbrev pub Ascends : Bytes → List Bytes → Type 0
Ascends latest [] = Unit {0}
Ascends latest (k ∷ keys) = ((compare_bytes k latest ≡ Ordering.lt) → ⊥) × Ascends k keys

-- Each key is after the one that it follows.
abbrev pub StrictlyAscends : Bytes → List Bytes → Type 0
StrictlyAscends latest [] = Unit {0}
StrictlyAscends latest (k ∷ keys) = (compare_bytes latest k ≡ Ordering.lt) × StrictlyAscends k keys

abbrev pub NonEmpty : List Bytes → Type 0
NonEmpty [] = Unit {0}
NonEmpty ([] ∷ keys) = ⊥
NonEmpty ((b ∷ k) ∷ keys) = NonEmpty keys

abbrev pub key_before : Option ParsedInternalKey → List Bytes → List Bytes
key_before none keys = keys
key_before (some ikey) keys = ikey.user_key ∷ keys

-- The user keys of the rows whose keys parse.
abbrev pub user_keys : Settings → List MergedRow → List Bytes
user_keys settings [] = []
user_keys settings (row ∷ rows) =
    key_before (settings.parse_internal_key row.key) (user_keys settings rows)

abbrev pub found_keys : List Found → List Bytes
found_keys [] = []
found_keys ((row, ikey) ∷ found) = ikey.user_key ∷ found_keys found

after_other :
    (k l : Bytes)
    → same_bytes k l ≡ false
    → ((compare_bytes k l ≡ Ordering.lt) → ⊥)
    → compare_bytes l k ≡ Ordering.lt
after_other k l other ordered = go (compare_bytes k l) refl
  where
    go : (o : Ordering) → compare_bytes k l ≡ o → compare_bytes l k ≡ Ordering.lt
    go Ordering.lt e = absurd (ordered e)
    go Ordering.eq e = absurd (ground (arith, e, other))
    go Ordering.gt e = ground (arith, e, compare_bytes-flip k l)

same_key : (k l : Bytes) → same_bytes k l ≡ true → k ≡ l
same_key k l h = compare_bytes_eq k l (ground (arith, h))

pub StrictlyAscends-from :
    (l k : Bytes) (keys : List Bytes)
    → compare_bytes l k ≡ Ordering.lt
    → StrictlyAscends k keys
    → StrictlyAscends l keys
StrictlyAscends-from l k [] before rest = tt
StrictlyAscends-from l k (m ∷ keys) before (first, rest) =
    (ground (arith, before, first, compare_bytes_triangle l k m), rest)

finds_old :
    (u l x : Bytes) (keys found : List Bytes)
    → u ≡ l
    → (Memᴰ x keys → (x ≡ l) ⊎ Memᴰ x found)
    → Memᴰ x (u ∷ keys)
    → (x ≡ l) ⊎ Memᴰ x found
finds_old u l x keys found same rest (Memᴰ.head e) = inl (e ∙ same)
finds_old u l x keys found same rest (Memᴰ.tail m) = rest m

finds_new :
    (u x : Bytes) (keys found : List Bytes)
    → (Memᴰ x keys → (x ≡ u) ⊎ Memᴰ x found)
    → Memᴰ x (u ∷ keys)
    → Memᴰ x (u ∷ found)
finds_new u x keys found rest (Memᴰ.head e) = Memᴰ.head e
finds_new u x keys found rest (Memᴰ.tail m) = elim (rest m) [
  | inl e ↦ Memᴰ.head e
  | inr f ↦ Memᴰ.tail f
]

found_new :
    (u x : Bytes) (keys found : List Bytes)
    → (Memᴰ x found → Memᴰ x keys)
    → Memᴰ x (u ∷ found)
    → Memᴰ x (u ∷ keys)
found_new u x keys found rest (Memᴰ.head e) = Memᴰ.head e
found_new u x keys found rest (Memᴰ.tail m) = Memᴰ.tail (rest m)

no_empty : (keys : List Bytes) (k : Bytes) → NonEmpty keys → k ≡ [] → Memᴰ k keys → ⊥
no_empty [] k filled empty at = elim at [ ]
no_empty ([] ∷ keys) k filled empty at = filled
no_empty ((b ∷ u) ∷ keys) k filled empty (Memᴰ.head e) = absurd (ground (arith, e, empty))
no_empty ((b ∷ u) ∷ keys) k filled empty (Memᴰ.tail m) = no_empty keys k filled empty m

module _ (settings : Settings) where
  pub distinct-StrictlyAscends :
      (latest : Bytes) (rows : List MergedRow)
      → Ascends latest (user_keys settings rows)
      → StrictlyAscends latest (found_keys (distinct settings latest rows))
  distinct-StrictlyAscends latest [] = λ ordered. tt
  distinct-StrictlyAscends latest (row ∷ rows) =
      elim (Option-cases (settings.parse_internal_key row.key)) [
        | inl bad ↦ rw bad (distinct-StrictlyAscends latest rows)
        | inr (ikey, parsed) ↦ rw parsed (λ ordered.
            elim (Bool-cases (same_bytes ikey.user_key latest)) [
              | inl old ↦ rw old (
                  distinct-StrictlyAscends latest rows (
                    subst (λ k. Ascends k (user_keys settings rows))
                      (same_key ikey.user_key latest old) ordered.1))
              | inr new ↦ rw new (
                after_other ikey.user_key latest new ordered.0,
                distinct-StrictlyAscends ikey.user_key rows ordered.1,
              )
            ])
      ]

  -- Every key of the rows is found, but for the latest.
  distinct-finds :
      (latest : Bytes) (rows : List MergedRow) (k : Bytes)
      → Memᴰ k (user_keys settings rows)
      → (k ≡ latest) ⊎ Memᴰ k (found_keys (distinct settings latest rows))
  distinct-finds latest [] k = λ at. elim at [ ]
  distinct-finds latest (row ∷ rows) k = elim (Option-cases (settings.parse_internal_key row.key)) [
    | inl bad ↦ rw bad (distinct-finds latest rows k)
    | inr (ikey, parsed) ↦ rw parsed (λ at. elim (Bool-cases (same_bytes ikey.user_key latest)) [
      | inl old ↦ rw old (
          finds_old ikey.user_key latest k _ _ (same_key ikey.user_key latest old)
            (distinct-finds latest rows k) at)
      | inr new ↦
          rw new (inr (finds_new ikey.user_key k _ _ (distinct-finds ikey.user_key rows k) at))
    ])
  ]

  -- Nothing else is found.
  pub distinct-found :
      (latest : Bytes) (rows : List MergedRow) (k : Bytes)
      → Memᴰ k (found_keys (distinct settings latest rows))
      → Memᴰ k (user_keys settings rows)
  distinct-found latest [] k = λ at. elim at [ ]
  distinct-found latest (row ∷ rows) k = elim (Option-cases (settings.parse_internal_key row.key)) [
    | inl bad ↦ rw bad (distinct-found latest rows k)
    | inr (ikey, parsed) ↦ rw parsed (elim (Bool-cases (same_bytes ikey.user_key latest)) [
      | inl old ↦ rw old (λ at. Memᴰ.tail (distinct-found latest rows k at))
      | inr new ↦ rw new (found_new ikey.user_key k _ _ (distinct-found ikey.user_key rows k))
    ])
  ]

-- Of rows in the order of their keys, none of them empty, each key is found once, in order.
pub distinct-keys :
    (settings : Settings) (rows : List MergedRow) (k : Bytes)
    → NonEmpty (user_keys settings rows)
    → Memᴰ k (user_keys settings rows)
    → Memᴰ k (found_keys (distinct settings [] rows))
distinct-keys settings rows k filled at = elim (distinct-finds settings [] rows k at) [
  | inl empty ↦ absurd (no_empty (user_keys settings rows) k filled empty at)
  | inr found ↦ found
]
