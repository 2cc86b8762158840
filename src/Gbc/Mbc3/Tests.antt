-- ===== src/Gbc/Mbc3/Tests.antt =====
-- Witnesses and tests of the bank controller.
use emulator_app.Base.{
  ◌≡◌, ◌-◌, ◌==◌, if◌then◌else◌, true, false, [], ◌∷◌, none, arith, replicate, length-replicate,
}
use emulator_app.Gbc.Rtc
use emulator_app.Gbc.Rtc.Advance.{seconds_later}
use emulator_app.Gbc.Mbc3.{Mbc3, new}
use emulator_app.Gbc.Mbc3.Save.{save_sram, load_sram, present, ok}
use emulator_app.Gbc.Mbc3.RoundTrip.{restored, load_sram-save_sram}

abbrev blank : Mbc3
blank = new (1 ∷ 2 ∷ []) none

abbrev enabled : Mbc3
enabled = record {
  rom = [];
  ram = replicate 32768 0;
  rom_bank = 1;
  ram_bank_or_rtc_reg = 2;
  ram_rtc_enabled = true;
  rtc = Rtc.new;
  latch_state = 0xFF;
  is_dirty = false;
}

load_sram-save_sram_example :
    let clock = restored blank.rtc Rtc.new in
    load_sram blank (present (save_sram enabled 1000)) 1600 ≡ (
      ok true,
      record blank {
        ram = enabled.ram;
        rtc =
            if Rtc.new.halt
            then clock
            else if 1000 == 0
            then clock
            else seconds_later (1600 - 1000) clock;
      },
    )
load_sram-save_sram_example =
    load_sram-save_sram enabled blank 1000 1600 (length-replicate 32768 0)
      (unfold Rtc.new in ground arith) (λ running. unfold Rtc.new in ground arith) (omega arith)
