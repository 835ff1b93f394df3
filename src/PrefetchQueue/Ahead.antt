-- ===== src/PrefetchQueue/Ahead.antt =====
-- A scan through the blocks in file order: `BlockPrefetchQueue` of src/include/block_prefetch_queue.cpp.
use bit_lsm.Base.{
  ℕ, zero, suc, ◌+◌, ◌-◌, ◌%◌, ◌≤◌, ◌<◌, ◌≡◌, ◌≢◌, refl, Bool, true, false, ◌&&◌, ◌||◌, Option,
  none, some, List, [], ◌∷◌, length, get_elem?, get_or, set, replicate, leb, ◌==◌, arith,
  length-set, get_or-set_self, get_or-set_ne, ap, sym, ◌∙◌, eq→==,
}
use Prim.Native.Nat.{min}
use mathlib.Core.Path.{subst}
use native.Mathlib.Nat.{mod-add-mod, mod-eq_of_lt, mod-eq-sub-mod, mod-lt}
use native.Mathlib.Decide.{dec_lt}
use bit_lsm.PrefetchQueue.{
  AsyncReads, AsyncStatus, is_submitted, Slot, BlockPrefetchQueue, Shared, new_slot, new_queue,
  targets_or_none, in_block_cache, submit_slot, submit_target, submit_next, top_up, prepare,
  serve_slot, buffer_for, issue_read, buffer_of, is_not_supported,
}

-- Numbers less than `d` apart differ in their remainders.
mod-apart : (a b d : ℕ) → a < b → b < a + d → a % d ≢ b % d
mod-apart a b d above near =
    let low : a % d < d = mod-lt a (omega arith) in
    let k : ℕ = b - a in
    let moved : (a % d + k) % d ≡ b % d = mod-add-mod a d k ∙ ap (λ (n : ℕ). n % d) (omega arith) in
    elim (dec_lt (a % d + k) d) [
      | yes p ↦ omega (arith, mod-eq_of_lt p)
      | no p ↦ omega (
        arith,
        mod-eq-sub-mod {n = a % d + k} {m = d} (omega arith),
        mod-eq_of_lt {n = a % d + k - d} {m = d} (omega arith),
      )
    ]

length-replicate : {A : Type 0} (n : ℕ) (x : A) → length (replicate n x) ≡ n
length-replicate zero x = refl
length-replicate (suc n) x = ap suc (length-replicate n x)

abbrev is_some : {A : Type 0} → Option A → Bool
is_some none = false
is_some (some x) = true

in-range : {A : Type 0} (xs : List A) (i : ℕ) → i < length xs → is_some (get_elem? xs i) ≡ true
in-range [] i h = absurd (omega arith)
in-range (x ∷ xs) zero h = refl
in-range (x ∷ xs) (suc i) h = in-range xs i (omega arith)

module _ {Buffer : Type 0} where
  -- The slot has a read of the target in flight.
  abbrev Ready : ℕ → Slot Buffer → Type 0
  Ready t s = (s.target ≡ t) × ((s.submitted ≡ true) × ((b : Buffer) × (s.buf ≡ some b)))

  -- Of the targets submitted, the last ones are in their slots, as many as there are slots.
  abbrev Window : List (Slot Buffer) → ℕ → Type 0
  Window slots next =
      (t : ℕ)
      → t < next
      → next ≤ t + length slots
      → Ready t (get_or slots (t % length slots) new_slot)

  Window-set :
      (slots : List (Slot Buffer)) (next : ℕ) (s : Slot Buffer)
      → 0 < length slots
      → Ready next s
      → Window slots next
      → Window (set slots (next % length slots) s) (next + 1)
  Window-set slots next s on ready w t below near =
      let len : length (set slots (next % length slots) s) ≡ length slots =
        length-set slots (next % length slots) s in
      let at : ℕ → Slot Buffer = λ n. get_or (set slots (next % length slots) s) (t % n) new_slot in
      elim (dec_lt t next) [
        | yes older ↦
            let apart = mod-apart t next (length slots) older (omega (arith, len)) in
            let kept : at (length (set slots (next % length slots) s))
                ≡ get_or slots (t % length slots) new_slot =
              ap at len ∙ get_or-set_ne slots _ _ s new_slot (λ e. apart (sym e)) in
            subst (Ready t) (sym kept) (w t older (omega (arith, len)))
        | no newest ↦
            let same : next ≡ t = omega arith in
            let written : at (length (set slots (next % length slots) s)) ≡ s =
              ap at len
              ∙ ap
                  (λ (n : ℕ).
                    get_or (set slots (next % length slots) s) (n % length slots) new_slot)
                  (sym same)
              ∙ get_or-set_self slots _ s new_slot (mod-lt next on) in
            subst (Ready t) (sym written) (subst (λ n. Ready n s) same ready)
      ]

-- The queue's consumer, which asks for so many blocks from `idx` on.
abbrev pub scan :
    {World Buffer Handle : Type 0}
    → AsyncReads World Buffer Handle
    → ℕ
    → ℕ
    → BlockPrefetchQueue Buffer Handle
    → Shared World
    → List (Option Buffer)
scan rocksdb zero idx q shared = []
scan rocksdb (suc count) idx q shared =
    let (buf, (q', after)) = buffer_for rocksdb idx q shared in
    buf ∷ scan rocksdb count (idx + 1) q' after

abbrev pub is_served : {Buffer : Type 0} → Option Buffer → Bool
is_served none = false
is_served (some b) = true

abbrev pub all_served : {Buffer : Type 0} → List (Option Buffer) → Bool
all_served [] = true
all_served (o ∷ os) = is_served o && all_served os

-- Nothing is cached, and RocksDB takes every read.
pub record Accepts {World Buffer Handle : Type 0} (rocksdb : AsyncReads World Buffer Handle)
    : Type 0 where
  pub nothing_cached : (w : World) (handle : Handle) → in_block_cache rocksdb w handle ≡ false
  pub options_ready : (w : World) → rocksdb.prepare_io_options w ≡ true
  pub read_submitted :
      (w : World) (b : Buffer) (handle : Handle)
      → is_submitted (rocksdb.prefetch_async w b handle).1 ≡ true

submitted-supported : (s : AsyncStatus) → is_submitted s ≡ true → is_not_supported s ≡ false
submitted-supported s h = ground arith

module _ {World Buffer Handle : Type 0} (rocksdb : AsyncReads World Buffer Handle)
    (accepts : Accepts rocksdb) where
  -- A submission readies its slot and leaves asynchronous reads available.
  abbrev Submits : ℕ → Slot Buffer × Shared World → Type 0
  Submits t (s, shared) = Ready t s × (shared.async_unavailable ≡ false)

  issue_read-Submits :
      (t : ℕ) (handle : Handle) (shared : Shared World) (bw : Buffer × World)
      → shared.async_unavailable ≡ false
      → Submits t (issue_read rocksdb t handle shared bw)
  issue_read-Submits t handle shared (b, w) on = rw (accepts.options_ready w) (
    (refl, (accepts.read_submitted w b handle, (_, refl))),
    rw (on, submitted-supported _ (accepts.read_submitted w b handle)) refl,
  )

  submit_slot-Submits :
      (slot : Slot Buffer) (t : ℕ) (handle : Handle) (shared : Shared World)
      → shared.async_unavailable ≡ false
      → Submits t (submit_slot rocksdb slot t handle shared)
  unfolding submit_slot
  submit_slot-Submits slot t handle shared on =
      let issued : (shared.async_unavailable || in_block_cache rocksdb shared.world handle)
          ≡ false =
        rw (on, accepts.nothing_cached shared.world handle) refl in
      rw issued (issue_read-Submits t handle shared (buffer_of rocksdb slot.buf shared.world) on)

  -- The slots, the next target and what is shared, in the middle of a scan.
  abbrev Running : List (Slot Buffer) → ℕ → Shared World → Type 0
  Running slots next shared = Window slots next × (shared.async_unavailable ≡ false)

  submit_target-Running :
      (slots : List (Slot Buffer)) (next : ℕ) (target : Option (ℕ × Handle)) (shared : Shared World)
      → is_some target ≡ true
      → 0 < length slots
      → Running slots next shared
      → let (slots', after) = submit_target rocksdb slots next target shared in
        (length slots' ≡ length slots) × Running slots' (next + 1) after
  submit_target-Running slots next none shared there on run = absurd (ground arith)
  submit_target-Running slots next (some (block, handle)) shared there on (w, available) =
      let slot : Slot Buffer = get_or slots (next % length slots) new_slot in
      let done = submit_slot-Submits slot next handle shared available in
      (length-set slots (next % length slots) _, (Window-set slots next _ on done.0 w, done.1))

  -- So many submissions, whose targets exist.
  submit_next-Running :
      (targets : List (ℕ × Handle)) (count : ℕ) (slots : List (Slot Buffer)) (next : ℕ)
      (shared : Shared World)
      → 0 < length slots
      → next + count ≤ length targets
      → Running slots next shared
      → let ((slots', next'), after) = submit_next rocksdb targets count slots next shared in
        ((length slots' ≡ length slots) × (next' ≡ next + count)) × Running slots' next' after
  unfolding submit_next
  submit_next-Running targets zero slots next shared on fit run = ((refl, omega arith), run)
  submit_next-Running targets (suc count) slots next shared on fit run =
      let first = submit_target rocksdb slots next (get_elem? targets next) shared in
      let (len, run') =
        submit_target-Running slots next (get_elem? targets next) shared
          (in-range targets next (omega arith)) on run in
      let rest =
        submit_next-Running targets count first.0 (next + 1) first.1 (omega (arith, len))
          (omega arith) run' in
      ((rest.0.0 ∙ len, rest.0.1 ∙ omega arith), rest.1)

  -- Bound to the targets and on, `idx` being the next block that the consumer asks for.
  abbrev InScan : List (ℕ × Handle) → ℕ → BlockPrefetchQueue Buffer Handle × Shared World → Type 0
  InScan targets idx (q, shared) =
      ((q.targets ≡ some targets) × (0 < length q.slots))
      × (((q.next_submit ≤ length targets) × (q.next_submit ≤ idx + length q.slots))
          × Running q.slots q.next_submit shared)

  top_up-InScan :
      (targets : List (ℕ × Handle)) (idx : ℕ) (q : BlockPrefetchQueue Buffer Handle)
      (shared : Shared World)
      → InScan targets idx (q, shared)
      → let (q', after) = top_up rocksdb idx q shared in
        InScan targets idx (q', after)
        × ((length q'.slots ≡ length q.slots) × (idx < length targets → idx < q'.next_submit))
  unfolding top_up
  top_up-InScan targets idx q shared ((bound, on), ((short, near), run)) =
      let count : ℕ = min (idx + length q.slots) (length targets) - q.next_submit in
      let off : (length q.slots == 0) ≡ false = ground arith in
      let ((len, next), run') =
        submit_next-Running targets count q.slots q.next_submit shared on (omega arith) run in
      simp (off, bound)
        (
          ((refl, omega (arith, len)), ((omega (arith, next), omega (arith, next, len)), run')),
          (len, λ inside. omega (arith, next)),
        )

  serve_slot-Ready :
      (idx : ℕ) (slot : Slot Buffer) (shared : Shared World)
      → Ready idx slot
      → let (buf, after) = serve_slot rocksdb idx slot shared in
        (is_served buf ≡ true) × (after.async_unavailable ≡ shared.async_unavailable)
  serve_slot-Ready idx slot shared (target, (submitted, (b, buf))) =
      let same : (slot.target == idx) ≡ true = eq→== slot.target idx target in
      simp (same, submitted, buf) (refl, refl)

  -- The consumer asks for the next block and gets it.
  buffer_for-InScan :
      (targets : List (ℕ × Handle)) (idx : ℕ) (q : BlockPrefetchQueue Buffer Handle)
      (shared : Shared World)
      → idx < length targets
      → InScan targets idx (q, shared)
      → let (buf, (q', after)) = buffer_for rocksdb idx q shared in
        (is_served buf ≡ true) × InScan targets (idx + 1) (q', after)
  unfolding buffer_for
  buffer_for-InScan targets idx q shared inside s =
      let here : (length q.slots == 0 || leb (length (targets_or_none q.targets)) idx) ≡ false =
        rw s.0.0 (ground (arith, s)) in
      let top = top_up rocksdb idx q shared in
      let (t, (len, ahead)) = top_up-InScan targets idx q shared s in
      let slot : Slot Buffer = get_or top.0.slots (idx % length top.0.slots) new_slot in
      let served = serve_slot-Ready idx slot top.1 (t.1.1.0 idx (ahead inside) t.1.0.1) in
      rw here (
        served.0,
        ((t.0.0, t.0.1), ((t.1.0.0, omega (arith, t.1.0.1)), (t.1.1.0, served.1 ∙ t.1.1.1))),
      )

  scan-all_served :
      (targets : List (ℕ × Handle)) (count idx : ℕ) (q : BlockPrefetchQueue Buffer Handle)
      (shared : Shared World)
      → idx + count ≤ length targets
      → InScan targets idx (q, shared)
      → all_served (scan rocksdb count idx q shared) ≡ true
  scan-all_served targets zero idx q shared fit s = refl
  scan-all_served targets (suc count) idx q shared fit s =
      let (first, s') = buffer_for-InScan targets idx q shared (omega arith) s in
      let (buf, (q', after)) = buffer_for rocksdb idx q shared in
      rw first (scan-all_served targets count (idx + 1) q' after (omega arith) s')

  -- Where nothing is cached and RocksDB takes every read, a queue of at least one slot that is bound to its
  -- targets serves every block of a scan in file order.
  pub prepare-all_served :
      (targets : List (ℕ × Handle)) (depth : ℕ) (shared : Shared World)
      → 0 < depth
      → shared.async_unavailable ≡ false
      → let (q, after) = prepare rocksdb targets (new_queue depth) shared in
        all_served (scan rocksdb (length targets) 0 q after) ≡ true
  unfolding prepare new_queue
  prepare-all_served targets depth shared on available =
      let len = length-replicate depth (new_slot {Buffer = Buffer}) in
      let start =
        top_up-InScan targets 0
          (record { targets = some targets; slots = replicate depth new_slot; next_submit = 0 })
          shared
          (
            (refl, omega (arith, len)),
            ((omega arith, omega arith), ((λ t below near. absurd (omega arith)), available)),
          ) in
      scan-all_served targets (length targets) 0 _ _ (omega arith) start.0
