-- ===== src/Common/Clock.antt =====
-- `struct timespec` and `timespecsub` of src/common.h.
use nvshare.Prelude.{ℕ, ◌+◌, ◌-◌, ◌*◌, ◌≤◌, ◌<◌, ◌≡◌, arith, ltb, if◌then◌else◌}

pub record Timespec : Type 0 where
  pub tv_sec : ℕ
  pub tv_nsec : ℕ

-- A negative difference of nanoseconds borrows a second. The source subtracts signed numbers; here
-- the borrow is tested before the subtraction. The start is not after the end on the one clock
-- (CLOCK_MONOTONIC) that both times come from.
unfoldable pub timespecsub : Timespec → Timespec → Timespec
timespecsub tsp usp =
    if ltb tsp.tv_nsec usp.tv_nsec
    then record {
      tv_sec = tsp.tv_sec - usp.tv_sec - 1;
      tv_nsec = tsp.tv_nsec + 1_000_000_000 - usp.tv_nsec;
    }
    else record { tv_sec = tsp.tv_sec - usp.tv_sec; tv_nsec = tsp.tv_nsec - usp.tv_nsec }

abbrev pub nanoseconds : Timespec → ℕ
nanoseconds t = t.tv_sec * 1_000_000_000 + t.tv_nsec

-- For two times with nanoseconds below a second, the first not before the second, `timespecsub`
-- gives the exact number of nanoseconds between them, with its nanoseconds below a second.
pub nanoseconds-timespecsub :
    (tsp usp : Timespec)
    → tsp.tv_nsec < 1_000_000_000
    → usp.tv_nsec < 1_000_000_000
    → nanoseconds usp ≤ nanoseconds tsp
    → (nanoseconds (timespecsub tsp usp) + nanoseconds usp ≡ nanoseconds tsp)
      × ((timespecsub tsp usp).tv_nsec < 1_000_000_000)
unfolding timespecsub
nanoseconds-timespecsub tsp usp h k le = ground arith
