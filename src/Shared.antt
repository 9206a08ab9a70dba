-- ===== src/Shared.antt =====
-- The data that faketime-spawned processes share: struct ft_shared_s of src/faketime_common.h, and
-- its conversions and checks in src/libfaketime.c.
pub mod Names
pub mod Laws
use libfaketime.Base.{ℕ, ◌*◌, Bool, ◌&&◌, ◌||◌, ◌==◌, if◌then◌else◌}
use libfaketime.Base.Int.{ℤ, pos, negsuc, ltb_ℤ, leb_ℤ, eqb_ℤ}
use libfaketime.TimeOps.{Time, time}

-- struct system_time_s, with CLOCK_BOOTTIME.
pub record SystemTime : Type 0 where
  pub real : Time
  pub mon : Time
  pub mon_raw : Time
  pub boot : Time

-- struct ft_shared_time_s is a `Time` too: both fields are int64_t.
pub record Shared : Type 0 where
  pub magic : ℕ
  pub version : ℕ
  pub size : ℕ
  pub ticks : ℕ
  pub file_idx : ℕ
  pub start_time_real : Time
  pub start_time_mon : Time
  pub start_time_mon_raw : Time
  pub start_time_boot : Time

abbrev pub shared_magic : ℕ
shared_magic = 0x46544c42

abbrev pub shared_version : ℕ
shared_version = 1

-- sizeof(struct ft_shared_s): 4 + 2 + 2 + 8 + 8 + 4 * 16 bytes, with no padding.
abbrev pub sizeof_shared : ℕ
sizeof_shared = 88

pub shared_time_valid : Time → Bool
shared_time_valid t =
    eqb_ℤ t.sub (negsuc 0) || (leb_ℤ (pos 0) t.sub && ltb_ℤ t.sub (pos 1000000000))

pub shared_header_valid : Shared → Bool
unfolding shared_time_valid
shared_header_valid s =
    s.magic == shared_magic
    && (s.version == shared_version
        && (s.size == sizeof_shared
            && (shared_time_valid s.start_time_real
                && (shared_time_valid s.start_time_mon
                    && (shared_time_valid s.start_time_mon_raw
                        && shared_time_valid s.start_time_boot)))))

-- What ft_shm_create writes into the new mapping.
unfoldable pub created : Shared
created = record {
  magic = shared_magic;
  version = shared_version;
  size = sizeof_shared;
  ticks = 0;
  file_idx = 0;
  start_time_real = time (pos 0) (negsuc 0);
  start_time_mon = time (pos 0) (negsuc 0);
  start_time_mon_raw = time (pos 0) (negsuc 0);
  start_time_boot = time (pos 0) (negsuc 0);
}

unfoldable pub system_time_to_shared : SystemTime → Shared → Shared
system_time_to_shared src dst = record dst {
  start_time_real = src.real;
  start_time_mon = src.mon;
  start_time_mon_raw = src.mon_raw;
  start_time_boot = src.boot;
}

unfoldable pub shared_to_system_time : Shared → SystemTime
shared_to_system_time src = record {
  real = src.start_time_real;
  mon = src.start_time_mon;
  mon_raw = src.start_time_mon_raw;
  boot = src.start_time_boot;
}
