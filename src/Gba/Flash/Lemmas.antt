-- ===== src/Gba/Flash/Lemmas.antt =====
-- What erasing and programming do to each cell, and the state that a well-formed chip keeps.
use emulator_app.Base.{
  ℕ, zero, suc, ◌+◌, ◌*◌, ◌/◌, ◌≤◌, ◌<◌, ◌≡◌, refl, ◌&&◌, List, [], ◌∷◌, arith, ltb, leb,
  if◌then◌else◌, bit_and, bit_and-le, bit_and_low, bit_and_field, length, get_or, u64, Bool-cases,
  inl, inr, ◌∙◌, set, length-set, get_or-set, length-replicate, IsBytes, IsBytes-set,
  IsBytes-replicate,
}
use emulator_app.Gba.Flash.{
  FlashState, ready, write, bank_select, erase_seq2, Flash128, new, global_offset, low_offset,
  program, erase_cells, erase_sector, erase_chip, erase, write_in, write_byte,
}

pub length-erase_cells : (n start : ℕ) (xs : List ℕ) → length (erase_cells n start xs) ≡ length xs
unfolding erase_cells
length-erase_cells zero start xs = refl
length-erase_cells (suc n) start xs =
    omega (arith, length-erase_cells n (start + 1) (set xs start 0xFF), length-set xs start 0xFF)

pub get_or-erase_cells :
    (n start : ℕ) (xs : List ℕ) (j : ℕ)
    → get_or (erase_cells n start xs) j 0xFF
      ≡ (if leb start j && ltb j (start + n) then 0xFF else get_or xs j 0xFF)
unfolding erase_cells
get_or-erase_cells zero start xs j = ground arith
get_or-erase_cells (suc n) start xs j = ground (
  arith,
  get_or-erase_cells n (start + 1) (set xs start 0xFF) j,
  get_or-set xs start j 0xFF 0xFF,
  get_or_outside xs j,
)
  where
    get_or_outside : (ys : List ℕ) (i : ℕ) → length ys ≤ i → get_or ys i 0xFF ≡ 0xFF
    get_or_outside [] i h = refl
    get_or_outside (y ∷ ys) zero h = absurd (omega arith)
    get_or_outside (y ∷ ys) (suc i) h = get_or_outside ys i (omega arith)

-- A chip as `new` makes it: two banks of 64 KiB, each cell a byte.
pub record IsValid (f : Flash128) : Type 0 where
  pub size : length f.cells ≡ 131072
  pub in_bank : f.bank < 2
  pub in_cells : IsBytes f.cells
  pub byte_manufacturer : f.manufacturer_id < 256
  pub byte_device : f.device_id < 256

pub new-IsValid : IsValid new
unfolding new
new-IsValid = record {
  size = length-replicate 131072 0xFF;
  in_bank = omega arith;
  in_cells = IsBytes-replicate 131072 0xFF (omega arith);
  byte_manufacturer = omega arith;
  byte_device = omega arith;
}

pub low_offset-lt : (address : ℕ) → low_offset address < 65536
low_offset-lt address = omega (arith, bit_and_low 16 address)

pub global_offset_valid :
    (f : Flash128) (offset : ℕ)
    → f.bank < 2
    → offset < 65536
    → global_offset f offset ≡ f.bank * 65536 + offset
unfolding global_offset
global_offset_valid f offset h k = omega arith

pub sector_start : (offset : ℕ) → offset < 65536 → bit_and offset 0xF000 ≡ offset / 4096 * 4096
sector_start offset h = omega (arith, bit_and_field 12 4 offset)

IsBytes-erase_cells : (n start : ℕ) (xs : List ℕ) → IsBytes xs → IsBytes (erase_cells n start xs)
IsBytes-erase_cells n start xs h = λ j. ground (arith, get_or-erase_cells n start xs j, h j)

pub program-IsValid :
    (f : Flash128) (offset value : ℕ) → IsValid f → IsValid (program f offset value)
unfolding program
program-IsValid f offset value h =
    elim (Bool-cases (ltb (global_offset f offset) (length f.cells))) [
      | inl fits ↦ rw fits record {
        size = length-set f.cells _ _ ∙ h.size;
        in_bank = h.in_bank;
        in_cells = IsBytes-set f.cells _ _ h.in_cells (
            omega (
              arith,
              bit_and-le (get_or f.cells (global_offset f offset) 0xFF) value,
              h.in_cells (global_offset f offset),
            ));
        byte_manufacturer = h.byte_manufacturer;
        byte_device = h.byte_device;
      }
      | inr past ↦ rw past h
    ]

pub erase_sector-IsValid : (f : Flash128) (offset : ℕ) → IsValid f → IsValid (erase_sector f offset)
unfolding erase_sector
erase_sector-IsValid f offset h =
    elim (Bool-cases (
      leb (u64 (u64 (u64 (u64 (f.bank * 64) * 1024) + bit_and offset 0xF000) + 4096))
        (length f.cells))) [
          | inl fits ↦ rw fits record {
            size = length-erase_cells 4096 _ f.cells ∙ h.size;
            in_bank = h.in_bank;
            in_cells = IsBytes-erase_cells 4096 _ f.cells h.in_cells;
            byte_manufacturer = h.byte_manufacturer;
            byte_device = h.byte_device;
          }
          | inr past ↦ rw past h
        ]

pub erase_chip-IsValid : (f : Flash128) → IsValid f → IsValid (erase_chip f)
unfolding erase_chip
erase_chip-IsValid f h = record {
  size = length-replicate (length f.cells) 0xFF ∙ h.size;
  in_bank = h.in_bank;
  in_cells = IsBytes-replicate (length f.cells) 0xFF (omega arith);
  byte_manufacturer = h.byte_manufacturer;
  byte_device = h.byte_device;
}

erase-IsValid : (f : Flash128) (offset value : ℕ) → IsValid f → IsValid (erase f offset value)
unfolding erase
erase-IsValid f offset value h =
    ground (arith, erase_chip-IsValid f h, erase_sector-IsValid f offset h)

write_in-IsValid :
    (s : FlashState) (f : Flash128) (offset value : ℕ)
    → IsValid f
    → IsValid (write_in s f offset value)
unfolding write_in
write_in-IsValid ready f offset value h = ground arith
write_in-IsValid write f offset value h = ground (arith, program-IsValid f offset value h)
write_in-IsValid erase_seq2 f offset value h = ground (arith, erase-IsValid f offset value h)
write_in-IsValid bank_select f offset value h = ground (arith, bit_and-le value 1)
write_in-IsValid _ f offset value h = ground arith

-- Every bus write, in every state of the command sequence, keeps the chip well formed.
pub write_byte-IsValid :
    (f : Flash128) (address value : ℕ) → IsValid f → IsValid (write_byte f address value)
unfolding write_byte
write_byte-IsValid f address value h = write_in-IsValid f.state f (low_offset address) value h
