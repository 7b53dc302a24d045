-- ===== src/Logstream/Ring.antt =====
-- internal/logstream/ring.go: the bounded byte buffer from which a late subscriber is served. The
-- mutex makes each method one step, so a method is a function of the buffer.
use kubetest_alt.Base.{
  ℕ, ◌+◌, ◌-◌, ◌%◌, Bool, true, false, [], ◌∷◌, ◌++◌, length, set, take, drop, Str, ◌==◌,
  if◌then◌else◌,
}

-- `buf` has `capacity` bytes once `full`. `totalWritten` is an int64, which no log reaches.
pub record RingBuffer : Type 0 where
  pub capacity : ℕ
  pub buf : Str
  pub tail : ℕ
  pub full : Bool
  pub total_written : ℕ
  pub overflowed : Bool

-- `newRingBuffer`; a capacity that is not positive is the 0 of the model.
unfoldable pub new_ring_buffer : ℕ → RingBuffer
new_ring_buffer capacity = record {
  capacity = if capacity == 0 then 1 else capacity;
  buf = [];
  tail = 0;
  full = false;
  total_written = 0;
  overflowed = false;
}

unfoldable pub append_byte : RingBuffer → ℕ → RingBuffer
append_byte r b =
    if r.full
    then record r { buf = set r.buf r.tail b; tail = (r.tail + 1) % r.capacity; overflowed = true }
    else let grown = r.buf ++ b ∷ [] in
      if length grown == r.capacity
      then record r { buf = grown; full = true; tail = 0 }
      else record r { buf = grown }

unfoldable pub append_bytes : RingBuffer → Str → RingBuffer
unfolding append_byte
append_bytes r [] = r
append_bytes r (b ∷ p) = append_bytes (append_byte r b) p

-- `Append`: the new buffer and the returned total.
unfoldable pub append : RingBuffer → Str → RingBuffer × ℕ
unfolding append_bytes
append r p =
    let s = append_bytes r p in
    let total = s.total_written + length p in (record s { total_written = total }, total)

-- `Snapshot`: the bytes, the offset of the first of them, and whether any were dropped.
unfoldable pub snapshot : RingBuffer → Str × ℕ × Bool
snapshot r =
    let n = length r.buf in
    if n == 0
    then ([], r.total_written, r.overflowed)
    else if r.full
    then (drop r.tail r.buf ++ take r.tail r.buf, r.total_written - n, r.overflowed)
    else (r.buf, r.total_written - n, r.overflowed)
