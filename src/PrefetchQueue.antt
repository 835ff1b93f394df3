-- ===== src/PrefetchQueue.antt =====
-- The queue of blocks read ahead: src/include/block_prefetch_queue.h and block_prefetch_queue.cpp. RocksDB's block
-- cache and its asynchronous reads into a `FilePrefetchBuffer` are a parameter, with a state of their own.
pub mod Served
pub mod Ahead
use bit_lsm.Base.{
  ℕ, zero, suc, ◌+◌, ◌-◌, ◌^◌, ◌%◌, Bool, true, false, not, ◌&&◌, ◌||◌, Option, none, some, List,
  [], ◌∷◌, length, get_elem?, get_or, set, replicate, leb, ◌==◌, if◌then◌else◌,
}
use Prim.Native.Nat.{min}

-- What `PrefetchAsync` answers: the buffer already held the bytes, the read is in flight, or neither.
pub data AsyncStatus : Type 0 where
  done try_again not_supported refused : AsyncStatus

abbrev pub is_submitted : AsyncStatus → Bool
is_submitted done = true
is_submitted try_again = true
is_submitted _ = false

abbrev pub is_not_supported : AsyncStatus → Bool
is_not_supported not_supported = true
is_not_supported _ = false

-- RocksDB's part; a handle names the bytes of a block.
pub record AsyncReads (World Buffer Handle : Type 0) : Type 0 where
  pub has_block_cache : World → Bool
  pub basic_lookup : World → Handle → Bool
  pub create_buffer : World → Buffer × World
  pub prepare_io_options : World → Bool
  pub prefetch_async : World → Buffer → Handle → (Buffer × World) × AsyncStatus

-- `kNoTarget`, the greatest size_t.
abbrev pub no_target : ℕ
no_target = 2 ^ 64 - 1

pub record Slot (Buffer : Type 0) : Type 0 where
  pub buf : Option Buffer
  pub target : ℕ
  pub submitted : Bool

pub record BlockPrefetchQueue (Buffer Handle : Type 0) : Type 0 where
  pub targets : Option (List (ℕ × Handle))
  pub slots : List (Slot Buffer)
  pub next_submit : ℕ

-- What the queue shares with the rest of the process: the two atomic flags of the file and RocksDB's state.
pub record Shared (World : Type 0) : Type 0 where
  pub served : ℕ
  pub async_unavailable : Bool
  pub world : World

abbrev pub new_slot : {Buffer : Type 0} → Slot Buffer
new_slot = record { buf = none; target = no_target; submitted = false }

-- The constructor.
unfoldable pub new_queue : {Buffer Handle : Type 0} → ℕ → BlockPrefetchQueue Buffer Handle
new_queue depth = record { targets = none; slots = replicate depth new_slot; next_submit = 0 }

abbrev pub targets_or_none : {Handle : Type 0} → Option (List (ℕ × Handle)) → List (ℕ × Handle)
targets_or_none none = []
targets_or_none (some targets) = targets

module _ {World Buffer Handle : Type 0} (rocksdb : AsyncReads World Buffer Handle) where
  abbrev pub in_block_cache : World → Handle → Bool
  in_block_cache w handle = rocksdb.has_block_cache w && rocksdb.basic_lookup w handle

  -- `slot.buf`, created on the first use.
  abbrev pub buffer_of : Option Buffer → World → Buffer × World
  buffer_of none w = rocksdb.create_buffer w
  buffer_of (some b) w = (b, w)

  -- The end of `Submit`: what the answer of the read leaves in the slot and in the flag.
  abbrev pub note_read :
      ℕ → Shared World → (Buffer × World) × AsyncStatus → Slot Buffer × Shared World
  note_read target_idx shared ((b, w), s) = (
    record { buf = some b; target = target_idx; submitted = is_submitted s },
    record {
      served = shared.served;
      async_unavailable = shared.async_unavailable || is_not_supported s;
      world = w;
    },
  )

  abbrev pub issue_read : ℕ → Handle → Shared World → Buffer × World → Slot Buffer × Shared World
  issue_read target_idx handle shared (b, w) =
      if rocksdb.prepare_io_options w
      then note_read target_idx shared (rocksdb.prefetch_async w b handle)
      else (
        record { buf = some b; target = target_idx; submitted = false },
        record { served = shared.served; async_unavailable = shared.async_unavailable; world = w },
      )

  -- `Submit`, on its slot.
  unfoldable pub submit_slot : Slot Buffer → ℕ → Handle → Shared World → Slot Buffer × Shared World
  submit_slot slot target_idx handle shared =
      let kept : Slot Buffer = record { buf = slot.buf; target = target_idx; submitted = false } in
      if shared.async_unavailable || in_block_cache shared.world handle
      then (kept, shared)
      else issue_read target_idx handle shared (buffer_of slot.buf shared.world)

  abbrev pub submit_target :
      List (Slot Buffer)
      → ℕ
      → Option (ℕ × Handle)
      → Shared World
      → List (Slot Buffer) × Shared World
  submit_target slots target_idx none shared = (slots, shared)
  submit_target slots target_idx (some (block, handle)) shared =
      let i : ℕ = target_idx % length slots in
      let (slot, after) = submit_slot (get_or slots i new_slot) target_idx handle shared in
      (set slots i slot, after)

  -- The loop of `TopUp`, so many times.
  unfoldable pub submit_next :
      List (ℕ × Handle)
      → ℕ
      → List (Slot Buffer)
      → ℕ
      → Shared World
      → (List (Slot Buffer) × ℕ) × Shared World
  submit_next targets zero slots next_submit shared = ((slots, next_submit), shared)
  submit_next targets (suc count) slots next_submit shared =
      let (slots', after) =
        submit_target slots next_submit (get_elem? targets next_submit) shared in
      submit_next targets count slots' (next_submit + 1) after

  unfoldable pub top_up :
      ℕ
      → BlockPrefetchQueue Buffer Handle
      → Shared World
      → BlockPrefetchQueue Buffer Handle × Shared World
  top_up idx q shared =
      let targets : List (ℕ × Handle) = targets_or_none q.targets in
      let limit : ℕ = min (idx + length q.slots) (length targets) in
      let ((slots, next), after) =
        submit_next targets (limit - q.next_submit) q.slots q.next_submit shared in
      if length q.slots == 0
      then (q, shared)
      else (record { targets = q.targets; slots = slots; next_submit = next }, after)

  unfoldable pub prepare :
      List (ℕ × Handle)
      → BlockPrefetchQueue Buffer Handle
      → Shared World
      → BlockPrefetchQueue Buffer Handle × Shared World
  prepare targets q shared =
      top_up 0 (record { targets = some targets; slots = q.slots; next_submit = 0 }) shared

  abbrev pub serve_slot : ℕ → Slot Buffer → Shared World → Option Buffer × Shared World
  serve_slot idx slot shared =
      if not (slot.target == idx) || not slot.submitted then (none, shared) else (
        slot.buf,
        record {
          served = (shared.served + 1) % 2 ^ 64;
          async_unavailable = shared.async_unavailable;
          world = shared.world;
        },
      )

  unfoldable pub buffer_for :
      ℕ
      → BlockPrefetchQueue Buffer Handle
      → Shared World
      → Option Buffer × (BlockPrefetchQueue Buffer Handle × Shared World)
  buffer_for idx q shared =
      let (q', after) = top_up idx q shared in
      let (buf, end) = serve_slot idx (get_or q'.slots (idx % length q'.slots) new_slot) after in
      if length q.slots == 0 || leb (length (targets_or_none q.targets)) idx
      then (none, (q, shared))
      else (buf, (q', end))
