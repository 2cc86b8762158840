-- ===== src/Gba/Dma/Tests.antt =====
-- Witnesses and tests of the DMA registers.
use emulator_app.Base.{◌≡◌, refl, arith}
use emulator_app.Gba.Dma.{new, put_byte, reload, write_control}
use emulator_app.Gba.Dma.Registers.{IsRunning}

new-IsRunning : IsRunning new
unfolding new
new-IsRunning = ground arith

starts_with_default_count : (write_control new 1 0x80).cur_count ≡ 0x4000
unfolding write_control new put_byte reload
starts_with_default_count = refl
