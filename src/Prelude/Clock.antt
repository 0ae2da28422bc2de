-- ===== src/Prelude/Clock.antt =====
-- Time is counted in microseconds, the resolution of `time.time()` that the code relies on.
use Prim.Native.Nat.{ℕ}

abbrev pub second : ℕ
second = 1000000
