-- ===== src/BytesList.antt =====
-- src/include/bytes_list.h: a packed list of byte strings, its binary searches and its wire form.
pub mod Search
pub mod Wire
use bit_lsm.Base.{
  ℕ, zero, suc, ◌+◌, ◌-◌, ◌*◌, ◌/◌, ◌%◌, ◌<◌, Bool, true, false, List, [], ◌∷◌, ◌++◌, length,
  get_or, take, drop, Ordering, ltb, ◌==◌, if◌then◌else◌,
}
use bit_lsm.Bytes.{Bytes, compare_bytes}
use bit_lsm.Memory.{le_bytes, of_le_bytes, read}
use bit_lsm.Scalar.{u32_mod}

pub record BytesList : Type 0 where
  pub arena : Bytes
  pub ends : List ℕ

abbrev pub no_bytes : BytesList
no_bytes = record { arena = []; ends = [] }

abbrev pub size : BytesList → ℕ
size l = length l.ends

-- `ends[i - 1]`, or 0 for the first.
abbrev pub start_of : List ℕ → ℕ → ℕ
start_of ends zero = 0
start_of ends (suc i) = get_or ends i 0

-- `operator[]`.
unfoldable pub at : BytesList → ℕ → Bytes
at l i = read l.arena (start_of l.ends i) (get_or l.ends i 0 - start_of l.ends i)

unfoldable pub back : BytesList → Bytes
back l = at l (size l - 1)

-- The new end offset is narrowed to 32 bits.
unfoldable pub push_back : BytesList → Bytes → BytesList
push_back l v = record {
  arena = l.arena ++ v;
  ends = l.ends ++ (length (l.arena ++ v) % u32_mod) ∷ [];
}

abbrev pub is_le : Ordering → Bool
is_le Ordering.gt = false
is_le _ = true

abbrev pub is_lt : Ordering → Bool
is_lt Ordering.lt = true
is_lt _ = false

-- The loop of both searches, `go_right` being its test on the middle element; `fuel` bounds the rounds.
unfoldable pub search_loop : (Bytes → Bool) → BytesList → ℕ → ℕ → ℕ → ℕ
search_loop go_right l zero lo hi = lo
search_loop go_right l (suc fuel) lo hi =
    let mid : ℕ = lo + (hi - lo) / 2 in
    let right = search_loop go_right l fuel (mid + 1) hi in
    let left = search_loop go_right l fuel lo mid in
    if ltb lo hi then (if go_right (at l mid) then right else left) else lo

-- The first element above `v`, and the first one not below it; the size when there is none. The size is narrowed to
-- 32 bits. The interval at least halves in a round, so `size` rounds and one more are enough.
unfoldable pub upper_bound : BytesList → Bytes → ℕ
upper_bound l v = search_loop (λ x. is_le (compare_bytes x v)) l (suc (size l)) 0 (size l % u32_mod)

unfoldable pub lower_bound : BytesList → Bytes → ℕ
lower_bound l v = search_loop (λ x. is_lt (compare_bytes x v)) l (suc (size l)) 0 (size l % u32_mod)

unfoldable pub put_ends : List ℕ → Bytes
put_ends [] = []
put_ends (e ∷ ends) = le_bytes 4 e ++ put_ends ends

-- [count u32][end u32 x count][arena], appended to `out`.
unfoldable pub serialize : BytesList → Bytes → Bytes
serialize l out = out ++ (le_bytes 4 (size l) ++ (put_ends l.ends ++ l.arena))

unfoldable pub get_ends : ℕ → Bytes → List ℕ
get_ends zero p = []
get_ends (suc count) p = of_le_bytes (take 4 p) ∷ get_ends count (drop 4 p)

abbrev pub last_end : ℕ → List ℕ → ℕ
last_end zero ends = 0
last_end (suc count) ends = get_or ends count 0

-- The list at `p`, and the bytes consumed.
unfoldable pub parse : Bytes → BytesList × ℕ
parse p =
    let count : ℕ = of_le_bytes (take 4 p) in
    let ends : List ℕ = get_ends count (drop 4 p) in
    let bytes : ℕ = last_end count ends in
    (
      record { arena = take bytes (drop (count * 4) (drop 4 p)); ends = ends },
      4 + count * 4 + bytes,
    )
