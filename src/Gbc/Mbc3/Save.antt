-- ===== src/Gbc/Mbc3/Save.antt =====
-- The battery image of gbc/mbc3.rs: `save_sram` and `load_sram`. The file system is a parameter of
-- both: the image that is written, and what reading the file gives.
use emulator_app.Base.{
  ℕ, ◌+◌, ◌-◌, ◌%◌, Bool, true, false, ◌&&◌, not, List, ◌++◌, ltb, leb, ◌!=◌, if◌then◌else◌,
  bit_and, bit_or, length, take, drop, u32_le, u64_le, from_le_bytes, slice,
}
use emulator_app.Gbc.Rtc.{RealTimeClock, advance_seconds}
use emulator_app.Gbc.Mbc3.{Mbc3}

unfoldable pub flags : RealTimeClock → ℕ
flags r =
    let low = if r.halt then bit_or 0 0x01 else 0 in if r.day_overflow then bit_or low 0x02 else low

unfoldable pub footer : RealTimeClock → ℕ → List ℕ
unfolding flags
footer r now =
    u32_le r.seconds
    ++ (u32_le r.minutes ++ (u32_le r.hours ++ (u32_le r.days ++ (u32_le (flags r) ++ u64_le now))))

-- The bytes that `save_sram` hands to `write_battery_file` at Unix time `now`.
unfoldable pub save_sram : Mbc3 → ℕ → List ℕ
save_sram m now = m.ram ++ footer m.rtc now

-- What `battery_path`, `exists`, `open` and `read_to_end` give.
pub data SaveFile : Type 0 where
  refused missing unreadable : SaveFile
  present : List ℕ → SaveFile

pub data LoadResult : Type 0 where
  ok : Bool → LoadResult
  bad_path read_failed truncated : LoadResult

abbrev pub ram_bytes : ℕ
ram_bytes = 32768

-- The clock that the footer holds, in the place of the machine's own.
unfoldable pub parse_clock : RealTimeClock → List ℕ → RealTimeClock
parse_clock r bytes =
    let flag_bits = from_le_bytes (slice bytes 16 20) in
    record r {
      seconds = from_le_bytes (slice bytes 0 4) % 256;
      minutes = from_le_bytes (slice bytes 4 8) % 256;
      hours = from_le_bytes (slice bytes 8 12) % 256;
      days = from_le_bytes (slice bytes 12 16) % 65536;
      halt = bit_and flag_bits 0x01 != 0;
      day_overflow = bit_and flag_bits 0x02 != 0;
    }

-- Brought up to `now` where it ran on.
unfoldable pub catch_up : RealTimeClock → ℕ → ℕ → RealTimeClock
catch_up r saved_timestamp now =
    if not r.halt && ltb 0 saved_timestamp && ltb saved_timestamp now
    then advance_seconds r (now - saved_timestamp)
    else r

unfoldable pub load_clock : RealTimeClock → List ℕ → ℕ → RealTimeClock
load_clock r bytes now = catch_up (parse_clock r bytes) (from_le_bytes (slice bytes 20 28)) now

unfoldable pub load_image : Mbc3 → List ℕ → ℕ → LoadResult × Mbc3
load_image m save_data now =
    let loaded : Mbc3 = record m { ram = take ram_bytes save_data } in
    if ltb (length save_data) ram_bytes then (truncated, m) else (
      ok true,
      if leb (ram_bytes + 28) (length save_data)
          then record loaded { rtc = load_clock m.rtc (drop ram_bytes save_data) now }
          else loaded,
    )

unfoldable pub load_sram : Mbc3 → SaveFile → ℕ → LoadResult × Mbc3
load_sram m refused now = (bad_path, m)
load_sram m missing now = (ok false, m)
load_sram m unreadable now = (read_failed, m)
load_sram m (present contents) now = load_image m (take (ram_bytes + 28) contents) now
