-- ===== src/Gbc/Mmu/Joypad.antt =====
-- The joypad register of gbc/mmu.rs.
use emulator_app.Base.{ℕ, ◌+◌, ◌≡◌, Bool, ◌||◌, arith, if◌then◌else◌, length, get_or-set}
use emulator_app.Gbc.Mmu.{
  Mmu, ButtonState, read_joypad, read_register, read_direct, read_byte, write_register,
  write_direct, write_byte,
}

-- A line that reads low when its key is down.
abbrev pub line : Bool → ℕ → ℕ
line pressed weight = if pressed then 0 else weight

-- The four lines of each half of the keys.
abbrev pub action_lines : ButtonState → ℕ
action_lines k = line k.a 1 + line k.b 2 + line k.select 4 + line k.start 8

abbrev pub direction_lines : ButtonState → ℕ
direction_lines k = line k.right 1 + line k.left 2 + line k.up 4 + line k.down 8

-- With both halves selected, a line is low when either of its keys is down.
abbrev pub shared_lines : ButtonState → ℕ
shared_lines k =
    line (k.a || k.right) 1
    + line (k.b || k.left) 2
    + line (k.select || k.up) 4
    + line (k.start || k.down) 8

-- Writing 0x10 to the joypad register selects the action keys, 0x20 the direction keys, 0x00
-- both, and 0x30 neither: the low four bits then read a 0 on each line that has a selected key which
-- is pressed and a 1 on every other line, under the two select bits that were written and two set
-- bits.
pub write_byte-read_joypad :
    (m : Mmu)
    → length m.io ≡ 128
    → (read_byte (write_byte m 0xFF00 0x10) 0xFF00 ≡ 0xD0 + action_lines m.buttons)
      × (read_byte (write_byte m 0xFF00 0x20) 0xFF00 ≡ 0xE0 + direction_lines m.buttons)
      × (read_byte (write_byte m 0xFF00 0x00) 0xFF00 ≡ 0xC0 + shared_lines m.buttons)
      × (read_byte (write_byte m 0xFF00 0x30) 0xFF00 ≡ 0xFF)
unfolding read_byte read_direct read_register read_joypad write_byte write_direct write_register
write_byte-read_joypad m size = (
  ground (arith, get_or-set m.io 0 0 0x10 0),
  ground (arith, get_or-set m.io 0 0 0x20 0),
  ground (arith, get_or-set m.io 0 0 0x00 0),
  ground (arith, get_or-set m.io 0 0 0x30 0),
)
