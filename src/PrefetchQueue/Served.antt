-- ===== src/PrefetchQueue/Served.antt =====
-- What the queue hands out: `BlockPrefetchQueue` of src/include/block_prefetch_queue.cpp, used in any order and between
-- any changes that others make to what it shares.
use bit_lsm.Base.{
  ℕ, zero, suc, ◌+◌, ◌≡◌, ◌⊎◌, refl, inl, inr, true, Bool-cases, ◌||◌, Option, none, some, List, [],
  ◌∷◌, length, get_elem?, get_or, set, replicate, leb, ◌==◌, arith, ==→eq,
}
use mathlib.Core.Path.{subst}
use bit_lsm.PrefetchQueue.{
  AsyncStatus, done, try_again, not_supported, refused, AsyncReads, is_submitted, Slot,
  BlockPrefetchQueue, Shared, new_slot, new_queue, targets_or_none, in_block_cache, submit_slot,
  submit_target, submit_next, top_up, prepare, serve_slot, buffer_for, issue_read, buffer_of,
}

module _ {Buffer Handle : Type 0} (Holds : Buffer → Handle → Type 0) where
  -- The buffer is there and holds the bytes of the target.
  abbrev pub HoldsTarget : Option Buffer → Option (ℕ × Handle) → Type 0
  HoldsTarget (some b) (some (block, handle)) = Holds b handle
  HoldsTarget _ _ = ⊥

  abbrev pub SlotFits : List (ℕ × Handle) → Slot Buffer → Type 0
  SlotFits targets s = s.submitted ≡ true → HoldsTarget s.buf (get_elem? targets s.target)

  abbrev pub AllFit : List (ℕ × Handle) → List (Slot Buffer) → Type 0
  AllFit targets [] = Unit {0}
  AllFit targets (s ∷ slots) = SlotFits targets s × AllFit targets slots

  set-AllFit :
      (targets : List (ℕ × Handle)) (slots : List (Slot Buffer)) (i : ℕ) (s : Slot Buffer)
      → SlotFits targets s
      → AllFit targets slots
      → AllFit targets (set slots i s)
  set-AllFit targets [] i s fits all = tt
  set-AllFit targets (t ∷ slots) zero s fits all = (fits, all.1)
  set-AllFit targets (t ∷ slots) (suc i) s fits all =
      (all.0, set-AllFit targets slots i s fits all.1)

  get_or-AllFit :
      (targets : List (ℕ × Handle)) (slots : List (Slot Buffer)) (i : ℕ)
      → AllFit targets slots
      → SlotFits targets (get_or slots i new_slot)
  get_or-AllFit targets [] i all = λ e. absurd (ground arith)
  get_or-AllFit targets (s ∷ slots) zero all = all.0
  get_or-AllFit targets (s ∷ slots) (suc i) all = get_or-AllFit targets slots i all.1

  replicate-AllFit :
      (targets : List (ℕ × Handle)) (depth : ℕ) → AllFit targets (replicate depth new_slot)
  replicate-AllFit targets zero = tt
  replicate-AllFit targets (suc depth) =
      ((λ e. absurd (ground arith)), replicate-AllFit targets depth)

  module _ {World : Type 0} (rocksdb : AsyncReads World Buffer Handle)
      (reads : (w : World) (b : Buffer) (handle : Handle)
        → is_submitted (rocksdb.prefetch_async w b handle).1 ≡ true
        → Holds (rocksdb.prefetch_async w b handle).0.0 handle)
      (targets : List (ℕ × Handle)) where
    issue_read-SlotFits :
        (t block : ℕ) (handle : Handle) (shared : Shared World) (bw : Buffer × World)
        → get_elem? targets t ≡ some (block, handle)
        → SlotFits targets (issue_read rocksdb t handle shared bw).0
    issue_read-SlotFits t block handle shared (b, w) e =
        elim (Bool-cases (rocksdb.prepare_io_options w)) [
          | inl ready ↦ rw ready (λ s. rw e (reads w b handle s))
          | inr failed ↦ rw failed (λ s. absurd (ground arith))
        ]

    submit_slot-SlotFits :
        (slot : Slot Buffer) (t block : ℕ) (handle : Handle) (shared : Shared World)
        → get_elem? targets t ≡ some (block, handle)
        → SlotFits targets (submit_slot rocksdb slot t handle shared).0
    unfolding submit_slot
    submit_slot-SlotFits slot t block handle shared e =
        elim (Bool-cases (shared.async_unavailable || in_block_cache rocksdb shared.world handle)) [
          | inl skipped ↦ rw skipped (λ s. absurd (ground arith))
          | inr issued ↦ rw issued (
              issue_read-SlotFits t block handle shared (buffer_of rocksdb slot.buf shared.world) e)
        ]

    submit_target-AllFit :
        (slots : List (Slot Buffer)) (t : ℕ) (target : Option (ℕ × Handle)) (shared : Shared World)
        → get_elem? targets t ≡ target
        → AllFit targets slots
        → AllFit targets (submit_target rocksdb slots t target shared).0
    submit_target-AllFit slots t none shared e all = all
    submit_target-AllFit slots t (some (block, handle)) shared e all =
        set-AllFit targets slots _ _ (submit_slot-SlotFits _ t block handle shared e) all

    submit_next-AllFit :
        (count : ℕ) (slots : List (Slot Buffer)) (next : ℕ) (shared : Shared World)
        → AllFit targets slots
        → AllFit targets (submit_next rocksdb targets count slots next shared).0.0
    unfolding submit_next
    submit_next-AllFit zero slots next shared all = all
    submit_next-AllFit (suc count) slots next shared all =
        let step = submit_target rocksdb slots next (get_elem? targets next) shared in
        submit_next-AllFit count step.0 (next + 1) step.1
          (submit_target-AllFit slots next (get_elem? targets next) shared refl all)

    -- Bound to the targets, every slot that is submitted with the bytes of its target.
    abbrev pub Fits : BlockPrefetchQueue Buffer Handle → Type 0
    Fits q = (q.targets ≡ some targets) × AllFit targets q.slots

    top_up-Fits :
        (idx : ℕ) (q : BlockPrefetchQueue Buffer Handle) (shared : Shared World)
        → Fits q
        → Fits (top_up rocksdb idx q shared).0
    unfolding top_up
    top_up-Fits idx q shared fits = elim (Bool-cases (length q.slots == 0)) [
      | inl off ↦ rw off fits
      | inr on ↦ simp (on, fits.0) (refl, submit_next-AllFit _ q.slots q.next_submit shared fits.1)
    ]

    pub prepare-Fits :
        (depth : ℕ) (shared : Shared World)
        → Fits (prepare rocksdb targets (new_queue depth) shared).0
    unfolding prepare new_queue
    prepare-Fits depth shared = top_up-Fits 0 _ shared (refl, replicate-AllFit targets depth)

    pub buffer_for-Fits :
        (idx : ℕ) (q : BlockPrefetchQueue Buffer Handle) (shared : Shared World)
        → Fits q
        → Fits (buffer_for rocksdb idx q shared).1.0
    unfolding buffer_for
    buffer_for-Fits idx q shared fits =
        elim (Bool-cases (length q.slots == 0 || leb (length (targets_or_none q.targets)) idx)) [
          | inl out ↦ rw out fits
          | inr inside ↦ rw inside (top_up-Fits idx q shared fits)
        ]

    serve_slot-HoldsTarget :
        (idx : ℕ) (slot : Slot Buffer) (shared : Shared World) (b : Buffer)
        → SlotFits targets slot
        → (serve_slot rocksdb idx slot shared).0 ≡ some b
        → HoldsTarget (some b) (get_elem? targets idx)
    serve_slot-HoldsTarget idx slot shared b fits served = elim (Bool-cases (slot.target == idx)) [
      | inr other ↦ absurd (ground (arith, served, other))
      | inl same ↦ elim (Bool-cases slot.submitted) [
        | inr skipped ↦ absurd (ground (arith, served, same, skipped))
        | inl submitted ↦
            let at : slot.target ≡ idx = ==→eq slot.target idx same in
            let buf : slot.buf ≡ some b = ground (arith, served, same, submitted) in
            let held : HoldsTarget slot.buf (get_elem? targets slot.target) = fits submitted in
            subst (λ t. HoldsTarget (some b) (get_elem? targets t)) at
              (subst (λ o. HoldsTarget o (get_elem? targets slot.target)) buf held)
      ]
    ]

    buffer_for-HoldsTarget :
        (idx : ℕ) (q : BlockPrefetchQueue Buffer Handle) (shared : Shared World) (b : Buffer)
        → Fits q
        → (buffer_for rocksdb idx q shared).0 ≡ some b
        → HoldsTarget (some b) (get_elem? targets idx)
    unfolding buffer_for
    buffer_for-HoldsTarget idx q shared b fits =
        elim (Bool-cases (length q.slots == 0 || leb (length (targets_or_none q.targets)) idx)) [
          | inl out ↦ rw out (λ s. absurd (ground arith))
          | inr inside ↦ rw inside (
              serve_slot-HoldsTarget idx _ _ b
                (get_or-AllFit targets _ _ (top_up-Fits idx q shared fits).1))
        ]

    -- How the queue and what it shares come about: it is bound once, asked for blocks in any order, and in between
    -- others change what it shares.
    pub data Reached (depth : ℕ) : BlockPrefetchQueue Buffer Handle → Shared World → Type 0 where
      bound :
          (shared : Shared World)
          → Reached depth
              (prepare rocksdb targets (new_queue depth) shared).0
              (prepare rocksdb targets (new_queue depth) shared).1
      asked :
          {q : BlockPrefetchQueue Buffer Handle} {shared : Shared World}
          → Reached depth q shared
          → (idx : ℕ)
          → Reached depth
              (buffer_for rocksdb idx q shared).1.0
              (buffer_for rocksdb idx q shared).1.1
      elsewhere :
          {q : BlockPrefetchQueue Buffer Handle} {shared : Shared World}
          → Reached depth q shared
          → (changed : Shared World) → Reached depth q changed

    Reached-Fits :
        {depth : ℕ} {q : BlockPrefetchQueue Buffer Handle} {shared : Shared World}
        → Reached depth q shared
        → Fits q
    Reached-Fits {depth} (bound shared) = prepare-Fits depth shared
    Reached-Fits (asked {q} {shared} r idx) = buffer_for-Fits idx q shared (Reached-Fits r)
    Reached-Fits (elsewhere r changed) = Reached-Fits r

    buffer_for-Held :
        {depth : ℕ} {q : BlockPrefetchQueue Buffer Handle} {shared : Shared World}
        → Reached depth q shared
        → (idx : ℕ) (b : Buffer) → (buffer_for rocksdb idx q shared).0 ≡ some b
        → HoldsTarget (some b) (get_elem? targets idx)
    buffer_for-Held {depth} {q} {shared} r idx b =
        buffer_for-HoldsTarget idx q shared b (Reached-Fits r)

-- What the two answers that count as submitted mean, by what a buffer holds and what is being read into it: with
-- `done` the bytes are there, and with `try_again` the read of them is under way.
pub record AsyncMeans {World Buffer Handle : Type 0} (rocksdb : AsyncReads World Buffer Handle)
    (Holds InFlight : Buffer → Handle → Type 0) : Type 0 where
  pub done_holds :
      (w : World) (b : Buffer) (handle : Handle)
      → (rocksdb.prefetch_async w b handle).1 ≡ done
      → Holds (rocksdb.prefetch_async w b handle).0.0 handle
  pub try_again_in_flight :
      (w : World) (b : Buffer) (handle : Handle)
      → (rocksdb.prefetch_async w b handle).1 ≡ try_again
      → InFlight (rocksdb.prefetch_async w b handle).0.0 handle

module _ {World Buffer Handle : Type 0} (rocksdb : AsyncReads World Buffer Handle)
    (Holds InFlight : Buffer → Handle → Type 0) (means : AsyncMeans rocksdb Holds InFlight)
    (targets : List (ℕ × Handle)) where
  -- The bytes are in the buffer, or the read of them into it is under way.
  abbrev pub Serves : Buffer → Handle → Type 0
  Serves b handle = Holds b handle ⊎ InFlight b handle

  submitted-Serves :
      (w : World) (b : Buffer) (handle : Handle) (s : AsyncStatus)
      → (rocksdb.prefetch_async w b handle).1 ≡ s
      → is_submitted s ≡ true
      → Serves (rocksdb.prefetch_async w b handle).0.0 handle
  submitted-Serves w b handle done e h = inl (means.done_holds w b handle e)
  submitted-Serves w b handle try_again e h = inr (means.try_again_in_flight w b handle e)
  submitted-Serves w b handle not_supported e h = absurd (ground (arith, h))
  submitted-Serves w b handle refused e h = absurd (ground (arith, h))

  pub reads-Serve :
      (w : World) (b : Buffer) (handle : Handle)
      → is_submitted (rocksdb.prefetch_async w b handle).1 ≡ true
      → Serves (rocksdb.prefetch_async w b handle).0.0 handle
  reads-Serve w b handle h = submitted-Serves w b handle _ refl h

  -- Where an asynchronous read that answers OK has left the bytes of its handle in the buffer, and one that
  -- answers TryAgain is under way into it, a queue that was bound once and then asked for blocks in any order,
  -- with any changes by others to what it shares in between, hands out for a target only a buffer that holds the
  -- bytes of that target or into which the read of that target is under way.
  pub buffer_for-Reached :
      {depth : ℕ} {q : BlockPrefetchQueue Buffer Handle} {shared : Shared World}
      → Reached Serves rocksdb reads-Serve targets depth q shared
      → (idx : ℕ) (b : Buffer) → (buffer_for rocksdb idx q shared).0 ≡ some b
      → HoldsTarget Serves (some b) (get_elem? targets idx)
  buffer_for-Reached r idx b = buffer_for-Held Serves rocksdb reads-Serve targets r idx b
