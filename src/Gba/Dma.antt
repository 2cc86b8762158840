-- ===== src/Gba/Dma.antt =====
-- core/src/gba/dma.rs: the register file of one DMA channel. The transfers that the MMU runs from
-- these registers are in gba/mmu.rs and are not modelled here.
pub mod Registers
mod Tests
use emulator_app.Base.{
  ℕ, ◌+◌, ◌-◌, ◌*◌, ◌/◌, ◌%◌, ◌^◌, Bool, true, false, not, ◌&&◌, List, [], ◌∷◌, ◌==◌, ◌!=◌,
  if◌then◌else◌, bit_and, bit_or, u16, u32, ◌<<◌,
}

pub record DmaChannel : Type 0 where
  pub sad : ℕ
  pub dad : ℕ
  pub count : ℕ
  pub control : ℕ
  pub cur_src : ℕ
  pub cur_dest : ℕ
  pub cur_count : ℕ
  pub active : Bool

unfoldable pub new : DmaChannel
new = record {
  sad = 0;
  dad = 0;
  count = 0;
  control = 0;
  cur_src = 0;
  cur_dest = 0;
  cur_count = 0;
  active = false;
}

-- `(reg & !(0xFF << shift)) | (value << shift)` on a word of the given mask.
unfoldable pub put_byte : ℕ → ℕ → ℕ → ℕ → ℕ
put_byte ones reg shift value =
    bit_or (bit_and reg (ones - bit_and (0xFF << shift) ones)) (bit_and (value << shift) ones)

abbrev pub u32_ones : ℕ
u32_ones = 0xFFFF_FFFF

abbrev pub u16_ones : ℕ
u16_ones = 0xFFFF

abbrev pub shift32 : ℕ → ℕ
shift32 byte_offset = bit_and byte_offset 3 * 8

unfoldable pub write_sad : DmaChannel → ℕ → ℕ → DmaChannel
write_sad c byte_offset value = record c {
  sad = put_byte u32_ones c.sad (shift32 byte_offset) value;
}

unfoldable pub write_dad : DmaChannel → ℕ → ℕ → DmaChannel
write_dad c byte_offset value = record c {
  dad = put_byte u32_ones c.dad (shift32 byte_offset) value;
}

unfoldable pub write_count : DmaChannel → ℕ → ℕ → DmaChannel
write_count c byte_offset value = record c {
  count = put_byte u32_ones c.count (shift32 byte_offset) value;
}

abbrev pub enabled : ℕ → Bool
enabled control = bit_and control 0x8000 != 0

-- Enabling a channel that was off reloads the working registers.
unfoldable pub reload : DmaChannel → DmaChannel
reload c = record c {
  cur_src = c.sad;
  cur_dest = c.dad;
  cur_count = if c.count == 0 then 0x4000 else c.count;
  active = true;
}

unfoldable pub write_control : DmaChannel → ℕ → ℕ → DmaChannel
write_control c byte_offset value =
    let new_ctrl = put_byte u16_ones c.control (bit_and byte_offset 1 * 8) value in
    let was_enabled = enabled c.control in
    let is_enabled = enabled new_ctrl in
    let d : DmaChannel = record c { control = new_ctrl } in
    if is_enabled && not was_enabled
    then reload d
    else if not is_enabled
    then record d { active = false }
    else d
