-- ===== src/Examples/Prefetch.antt =====
-- The prefetch queue over a file of numbered blocks, whose buffers hold the handle last read.
use bit_lsm.Base.{ℕ, ◌+◌, ◌≡◌, refl, true, false, some, List, [], ◌∷◌, get_elem?, arith}
use bit_lsm.PrefetchQueue.{
  AsyncReads, try_again, Shared, BlockPrefetchQueue, new_queue, prepare, buffer_for, top_up,
  submit_next, submit_slot,
}
use bit_lsm.PrefetchQueue.Served.{
  HoldsTarget, AsyncMeans, Serves, reads-Serve, Reached, bound, asked, elsewhere,
  buffer_for-Reached,
}
use bit_lsm.PrefetchQueue.Ahead.{Accepts, scan, all_served, prepare-all_served}

abbrev reads : AsyncReads ℕ ℕ ℕ
reads = record {
  has_block_cache = λ w. false;
  basic_lookup = λ w handle. true;
  create_buffer = λ w. (0, w + 1);
  prepare_io_options = λ w. true;
  prefetch_async = λ w b handle. ((handle, w + 1), try_again);
}

abbrev blocks : List (ℕ × ℕ)
blocks = (3, 300) ∷ (4, 400) ∷ (7, 700) ∷ (9, 900) ∷ (12, 1200) ∷ []

abbrev fresh : Shared ℕ
fresh = record { served = 0; async_unavailable = false; world = 0 }

abbrev reads-Accepts : Accepts reads
reads-Accepts = record {
  nothing_cached = λ w handle. refl;
  options_ready = λ w. refl;
  read_submitted = λ w b handle. refl;
}

prepare-all_served_example :
    all_served (
      scan reads 5 0
        (prepare reads blocks (new_queue 2) fresh).0
        (prepare reads blocks (new_queue 2) fresh).1)
    ≡ true
prepare-all_served_example =
    prepare-all_served reads reads-Accepts blocks 2 fresh (omega arith) refl

-- Bound with two slots, then asked for the first block; the flag and the world change before the next call.
abbrev shared_later : Shared ℕ
shared_later = record { served = 9; async_unavailable = true; world = 50 }

abbrev q0 : BlockPrefetchQueue ℕ ℕ × Shared ℕ
q0 = prepare reads blocks (new_queue 2) fresh

abbrev q1 : BlockPrefetchQueue ℕ ℕ × Shared ℕ
q1 = (buffer_for reads 0 q0.0 q0.1).1

-- A buffer that holds nothing, and is read into.
abbrev Never : ℕ → ℕ → Type 0
Never b handle = ⊥

abbrev Same : ℕ → ℕ → Type 0
Same b handle = b ≡ handle

means : AsyncMeans reads Never Same
means = record {
  done_holds = λ w b handle e. absurd (ground (arith, e));
  try_again_in_flight = λ w b handle e. refl;
}

reached :
    Reached
      (Serves reads Never Same means blocks)
      reads
      (reads-Serve reads Never Same means blocks)
      blocks
      2
      q1.0
      shared_later
reached = elsewhere (asked (bound fresh) 0) shared_later

served_block : (buffer_for reads 1 q1.0 shared_later).0 ≡ some 400
unfolding prepare new_queue buffer_for top_up submit_next submit_slot
served_block = refl

buffer_for-Reached_example :
    HoldsTarget (Serves reads Never Same means blocks) (some 400) (get_elem? blocks 1)
buffer_for-Reached_example =
    buffer_for-Reached reads Never Same means blocks reached 1 400 served_block
