-- ===== src/Kvfs/Time.antt =====
-- The time stamps of key-value-fs/src/kvfs_util.c: nanoseconds since the epoch in a `uint64_t`.
use embedded_operating_syste.Base.{ℕ, ◌+◌, ◌-◌, ◌*◌, ◌/◌, ◌%◌, ◌^◌, ◌<◌, ◌≡◌, arith}

abbrev pub ns_per_sec : ℕ
ns_per_sec = 1_000_000_000

-- `struct timespec`; times before the epoch are left out.
pub record Timespec : Type 0 where
  pub tv_sec : ℕ
  pub tv_nsec : ℕ

unfoldable pub uint64_to_timespec : ℕ → Timespec
uint64_to_timespec packed = record {
  tv_sec = packed / ns_per_sec;
  tv_nsec = packed - packed / ns_per_sec * ns_per_sec;
}

unfoldable pub timespec_to_uint64 : Timespec → ℕ
timespec_to_uint64 ts = (ts.tv_sec * ns_per_sec + ts.tv_nsec) % 2 ^ 64

-- Unpacking a time stamp of 64 bits gives less than a second of nanoseconds, and packing it again
-- gives the same time stamp.
pub timespec_to_uint64-uint64_to_timespec :
    (packed : ℕ)
    → packed < 2 ^ 64
    → ((uint64_to_timespec packed).tv_nsec < ns_per_sec)
      × (timespec_to_uint64 (uint64_to_timespec packed) ≡ packed)
unfolding uint64_to_timespec timespec_to_uint64
timespec_to_uint64-uint64_to_timespec packed h = omega arith

-- A time with less than a second of nanoseconds is unchanged by packing and unpacking, if its
-- nanoseconds fit into 64 bits.
pub uint64_to_timespec-timespec_to_uint64 :
    (ts : Timespec)
    → ts.tv_nsec < ns_per_sec
    → ts.tv_sec * ns_per_sec + ts.tv_nsec < 2 ^ 64
    → uint64_to_timespec (timespec_to_uint64 ts) ≡ ts
unfolding uint64_to_timespec timespec_to_uint64
uint64_to_timespec-timespec_to_uint64 ts h fits = ground arith
