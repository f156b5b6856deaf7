-- ===== src/Client/Elapsed.antt =====
-- client.c: the time between two readings of the clock, in milliseconds.
use tinyfile.Common.{ℕ, ◌+◌, ◌-◌, ◌*◌, ◌/◌, ◌<◌, arith}
use tinyfile.Client.{Millis}

-- `struct timespec`
pub record Timespec : Type 0 where
  pub tv_sec : ℕ
  pub tv_nsec : ℕ

-- `diff_msec` from `ts1` to `ts2`: the difference of the nanoseconds, which may be negative, is divided
-- towards 0.
pub elapsed : Timespec → Timespec → Millis
elapsed ts1 ts2 = record {
  plus = ts2.tv_sec * 1000 + (ts2.tv_nsec - ts1.tv_nsec) / 1000000;
  minus = ts1.tv_sec * 1000 + (ts1.tv_nsec - ts2.tv_nsec) / 1000000;
}

-- A reading in nanoseconds.
abbrev pub nanos : Timespec → ℕ
nanos t = t.tv_sec * 1000000000 + t.tv_nsec

-- The milliseconds that the client prints differ from the time between the two readings of the clock by
-- less than one millisecond, whichever reading is the later one.
pub elapsed-nanos :
    (ts1 ts2 : Timespec)
    → ((elapsed ts1 ts2).plus * 1000000 + nanos ts1
        < (elapsed ts1 ts2).minus * 1000000 + nanos ts2 + 1000000)
      × ((elapsed ts1 ts2).minus * 1000000 + nanos ts2
          < (elapsed ts1 ts2).plus * 1000000 + nanos ts1 + 1000000)
unfolding elapsed
elapsed-nanos ts1 ts2 = (omega arith, omega arith)
