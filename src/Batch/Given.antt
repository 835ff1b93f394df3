-- ===== src/Batch/Given.antt =====
-- The rows of a scan of src/include/bit_lsm_iterator.cpp over a merge in the order of its user keys, described without
-- the scan's own test for repeated keys.
use mathlib.Core.List.{Memᴰ}
use bit_lsm.Base.{
  ℕ, ◌<◌, ◌≡◌, refl, sym, ap, ◌∙◌, inl, inr, Bool, true, Bool-cases, Option, none, some,
  Option-cases, List, [], ◌∷◌, length,
}
use bit_lsm.Bytes.{Bytes}
use bit_lsm.Status.{ok}
use bit_lsm.Scan.{InternalIterator, Yields}
use bit_lsm.Batch.{MergedRow, Settings, verified, candidate, passes}
use bit_lsm.Batch.Fetch.{batch_iterator, seek_to_first, new_batch_iterator}
use bit_lsm.Batch.Verdicts.{Found, Fetches, AllJudged, answers, bare_keys}
use bit_lsm.Batch.Candidates.{distinct}
use bit_lsm.Batch.Answers.{seek_to_first-results, seek_to_first-keys}
use bit_lsm.Batch.Repeats.{
  Ascends, StrictlyAscends, NonEmpty, user_keys, found_keys, StrictlyAscends-from,
  distinct-StrictlyAscends, distinct-found, distinct-keys,
}

abbrev pub given_keys : List (Bytes × Option Bytes) → List Bytes
given_keys [] = []
given_keys ((k, v) ∷ given) = k ∷ given_keys given

-- The rows that are given: each key once, in order, those of the merge's rows whose newest visible value the query
-- accepts, with that value.
pub record GivenAnswers (settings : Settings) (newest : Bytes → Option Bytes)
    (rows : List MergedRow) (given : List (Bytes × Option Bytes)) : Type 0 where
  pub once_in_order : StrictlyAscends [] (given_keys given)
  pub sound :
      (k : Bytes) (v : Option Bytes)
      → Memᴰ (k, v) given
      → Memᴰ k (user_keys settings rows)
        × ((value : Bytes) × ((v ≡ some value)
              × ((newest k ≡ some value) × (passes settings value ≡ true))))
  pub complete :
      (k value : Bytes)
      → Memᴰ k (user_keys settings rows)
      → newest k ≡ some value
      → passes settings value ≡ true
      → Memᴰ (k, some value) given

-- The same where only the keys are given.
pub record GivenKeys (settings : Settings) (rows : List MergedRow)
    (given : List (Bytes × Option Bytes)) : Type 0 where
  pub once_in_order : StrictlyAscends [] (given_keys given)
  pub sound :
      (k : Bytes) (v : Option Bytes)
      → Memᴰ (k, v) given
      → Memᴰ k (user_keys settings rows) × (v ≡ none)
  pub complete : (k : Bytes) → Memᴰ k (user_keys settings rows) → Memᴰ (k, none) given

module _ (settings : Settings) (newest : Bytes → Option Bytes) where
  answers-StrictlyAscends :
      (latest : Bytes) (found : List Found)
      → StrictlyAscends latest (found_keys found)
      → StrictlyAscends latest (given_keys (answers settings newest found))
  answers-StrictlyAscends latest [] up = tt
  answers-StrictlyAscends latest ((row, ikey) ∷ found) (first, rest) =
      let skipped =
        answers-StrictlyAscends latest found
          (StrictlyAscends-from latest ikey.user_key (found_keys found) first rest) in
      elim (Option-cases (newest ikey.user_key)) [
        | inl gone ↦ rw gone skipped
        | inr (v, seen) ↦ elim (Bool-cases (passes settings v)) [
          | inl pass ↦ rw (seen, pass) (first, answers-StrictlyAscends ikey.user_key found rest)
          | inr fail ↦ rw (seen, fail) skipped
        ]
      ]

  -- Why a row is given.
  abbrev IsAnswer : List Bytes → Bytes → Option Bytes → Type 0
  IsAnswer keys k v =
      Memᴰ k keys
      × ((value : Bytes) × ((v ≡ some value)
            × ((newest k ≡ some value) × (passes settings value ≡ true))))

  IsAnswer-cons :
      (u : Bytes) (keys : List Bytes) (k : Bytes) (v : Option Bytes)
      → IsAnswer keys k v
      → IsAnswer (u ∷ keys) k v
  IsAnswer-cons u keys k v (at, why) = (Memᴰ.tail at, why)

  value-IsAnswer :
      (u value : Bytes) (keys : List Bytes) (rest : List (Bytes × Option Bytes)) (k : Bytes)
      (v : Option Bytes)
      → newest u ≡ some value
      → passes settings value ≡ true
      → (Memᴰ (k, v) rest → IsAnswer keys k v)
      → Memᴰ (k, v) ((u, some value) ∷ rest)
      → IsAnswer (u ∷ keys) k v
  value-IsAnswer u value keys rest k v seen pass later (Memᴰ.head e) =
      let key : k ≡ u = ap (λ (p : Bytes × Option Bytes). p.0) e in
      (
        Memᴰ.head key,
        (value, (ap (λ (p : Bytes × Option Bytes). p.1) e, (ap newest key ∙ seen, pass))),
      )
  value-IsAnswer u value keys rest k v seen pass later (Memᴰ.tail m) =
      IsAnswer-cons u keys k v (later m)

  answers-IsAnswer :
      (found : List Found) (k : Bytes) (v : Option Bytes)
      → Memᴰ (k, v) (answers settings newest found)
      → IsAnswer (found_keys found) k v
  answers-IsAnswer [] k v = λ at. elim at [ ]
  answers-IsAnswer ((row, ikey) ∷ found) k v = elim (Option-cases (newest ikey.user_key)) [
    | inl gone ↦
        rw gone
          (λ at. IsAnswer-cons ikey.user_key (found_keys found) k v (answers-IsAnswer found k v at))
    | inr (value, seen) ↦ elim (Bool-cases (passes settings value)) [
      | inl pass ↦
          rw (seen, pass)
            (value-IsAnswer ikey.user_key value (found_keys found) _ k v seen pass
              (answers-IsAnswer found k v))
      | inr fail ↦
          rw (seen, fail)
            (λ at.
              IsAnswer-cons ikey.user_key (found_keys found) k v (answers-IsAnswer found k v at))
    ]
  ]

  answers_complete :
      (found : List Found) (k value : Bytes)
      → newest k ≡ some value
      → passes settings value ≡ true
      → Memᴰ k (found_keys found)
      → Memᴰ (k, some value) (answers settings newest found)
  answers_complete [] k value seen pass at = elim at [ ]
  answers_complete ((row, ikey) ∷ found) k value seen pass (Memᴰ.head e) =
      let newest_of : newest ikey.user_key ≡ some value = ap newest (sym e) ∙ seen in
      rw (newest_of, pass) (Memᴰ.head (ap (λ u. (u, some value)) e))
  answers_complete ((row, ikey) ∷ found) k value seen pass (Memᴰ.tail m) =
      let later = answers_complete found k value seen pass m in
      elim (Option-cases (newest ikey.user_key)) [
        | inl gone ↦ rw gone later
        | inr (v, other) ↦ elim (Bool-cases (passes settings v)) [
          | inl accepted ↦ rw (other, accepted) (Memᴰ.tail later)
          | inr refused ↦ rw (other, refused) later
        ]
      ]

  given_keys-bare_keys :
      (found : List Found) → given_keys (bare_keys settings newest found) ≡ found_keys found
  given_keys-bare_keys [] = refl
  given_keys-bare_keys ((row, ikey) ∷ found) =
      ap (λ l. ikey.user_key ∷ l) (given_keys-bare_keys found)

  bare_keys_sound :
      (found : List Found) (k : Bytes) (v : Option Bytes)
      → Memᴰ (k, v) (bare_keys settings newest found)
      → Memᴰ k (found_keys found) × (v ≡ none)
  bare_keys_sound [] k v at = elim at [ ]
  bare_keys_sound ((row, ikey) ∷ found) k v (Memᴰ.head e) = (
    Memᴰ.head (ap (λ (p : Bytes × Option Bytes). p.0) e),
    ap (λ (p : Bytes × Option Bytes). p.1) e,
  )
  bare_keys_sound ((row, ikey) ∷ found) k v (Memᴰ.tail m) =
      let (at, bare) = bare_keys_sound found k v m in (Memᴰ.tail at, bare)

  bare_keys_complete :
      (found : List Found) (k : Bytes)
      → Memᴰ k (found_keys found)
      → Memᴰ (k, none) (bare_keys settings newest found)
  bare_keys_complete [] k at = elim at [ ]
  bare_keys_complete ((row, ikey) ∷ found) k (Memᴰ.head e) = Memᴰ.head (ap (λ u. (u, none)) e)
  bare_keys_complete ((row, ikey) ∷ found) k (Memᴰ.tail m) =
      Memᴰ.tail (bare_keys_complete found k m)

  module _ {It : Type 0} (merge : InternalIterator It MergedRow) (fuel : ℕ) (smi : It)
      (check_enabled : Bool) (rows : List MergedRow)
      (ordered : Ascends [] (user_keys settings rows)) (filled : NonEmpty (user_keys settings rows))
      (merges : Yields merge (merge.seek_to_first smi) rows ok) (enough : length rows < fuel) where
    -- A scan in verified mode over a merge that ends with OK, of fewer rows than the fuel, in memcmp order of
    -- their user keys, as far as these parse, none of them empty, where a read of a key answers its newest
    -- visible value or that there is none, and each row that is the first of its key and is not found to have a
    -- newer version (any first one, in an authoritative scan) is the newest of its key and passes the query: the
    -- scan ends with OK and gives each parsed key of the rows at most once, in ascending order, and exactly
    -- those whose newest visible value passes the query, with that value.
    pub seek_to_first-answers :
        settings.result_mode ≡ verified
        → ((key : Bytes) → Fetches settings newest (settings.get key) (newest key))
        → AllJudged settings newest (distinct settings [] rows)
        → (given : List (Bytes × Option Bytes)) × (GivenAnswers settings newest rows given
            × Yields
                (batch_iterator settings merge fuel)
                (seek_to_first settings merge fuel (new_batch_iterator smi check_enabled))
                given
                ok)
    seek_to_first-answers mode reads judged =
        let found : List Found = distinct settings [] rows in
        (
          answers settings newest found,
          (
            record {
              once_in_order =
                  answers-StrictlyAscends [] found
                    (distinct-StrictlyAscends settings [] rows ordered);
              sound = λ k v at.
                  let (inside, why) = answers-IsAnswer found k v at in
                  (distinct-found settings [] rows k inside, why);
              complete = λ k value at seen pass.
                  answers_complete found k value seen pass
                    (distinct-keys settings rows k filled at);
            },
            seek_to_first-results settings newest merge fuel smi check_enabled rows mode reads
                judged merges enough,
          ),
        )

    -- A scan in candidate mode over a merge that ends with OK, of fewer rows than the fuel, in memcmp order of
    -- their user keys, as far as these parse, none of them empty: the scan ends with OK and gives exactly the
    -- parsed keys of the rows, each once, in ascending order and without a value; nothing is asked of the check
    -- or of reads.
    pub seek_to_first-bare_keys :
        settings.result_mode ≡ candidate
        → (given : List (Bytes × Option Bytes)) × (GivenKeys settings rows given
            × Yields
                (batch_iterator settings merge fuel)
                (seek_to_first settings merge fuel (new_batch_iterator smi check_enabled))
                given
                ok)
    seek_to_first-bare_keys mode =
        let found : List Found = distinct settings [] rows in
        (
          bare_keys settings newest found,
          (
            record {
              once_in_order =
                  rw (given_keys-bare_keys found)
                    (distinct-StrictlyAscends settings [] rows ordered);
              sound = λ k v at.
                  let (inside, bare) = bare_keys_sound found k v at in
                  (distinct-found settings [] rows k inside, bare);
              complete =
                  λ k at. bare_keys_complete found k (distinct-keys settings rows k filled at);
            },
            seek_to_first-keys settings newest merge fuel smi check_enabled rows mode merges enough,
          ),
        )
