-- ===== src/Status.antt =====
-- The `rocksdb::Status` values that the program makes or tells apart; the message texts are left out.
use bit_lsm.Base.{ℕ, Bool, true, false}

pub data Status : Type 0 where
  ok invalid_argument corruption not_found : Status
  -- any other code that RocksDB reports
  failed : ℕ → Status

abbrev pub is_ok : Status → Bool
is_ok ok = true
is_ok _ = false

abbrev pub is_not_found : Status → Bool
is_not_found not_found = true
is_not_found _ = false
