-- ===== src/Gba/Dma/Registers.antt =====
-- Byte-wide writes of gba/dma.rs assemble the registers, and the enable bit starts a channel.
use emulator_app.Base.{
  ℕ, zero, suc, ◌+◌, ◌*◌, ◌/◌, ◌%◌, ◌^◌, ◌<◌, ◌≡◌, ◌∙◌, ap, true, false, arith, ◌==◌, if◌then◌else◌,
  bit_and, bit_or, bit_and_cut, bit_and_low, bit_and-zero, bit_or_add, bit_or-zero, bit_or_split,
}
use native.Mathlib.Nat.{one-le-pow}
use emulator_app.Gba.Dma.{
  DmaChannel, put_byte, u32_ones, shift32, write_sad, write_dad, write_count, enabled, reload,
  write_control,
}

-- A byte put over a cleared place, as a sum.
or_byte :
    (k hi lo v : ℕ)
    → lo < 2 ^ k
    → v < 256
    → bit_or (hi * 256 * 2 ^ k + lo) (v * 2 ^ k) ≡ (hi * 256 + v) * 2 ^ k + lo
or_byte k hi lo v small byte =
    let e : v * 2 ^ k ≡ v * 2 ^ k + 0 = omega arith in
    ap (λ x. bit_or (hi * 256 * 2 ^ k + lo) x) e
    ∙ bit_or_split k (hi * 256) v lo 0 small (one-le-pow k 2 (omega arith))
    ∙ omega (
      arith,
      ap (λ (t : ℕ). t * 2 ^ k) (bit_or_add 8 (hi * 256) v (omega arith) byte),
      bit_or-zero lo,
    )

-- The place `k` of a register set to a byte.
abbrev replaced : ℕ → ℕ → ℕ → ℕ
replaced r place v = r / (place * 256) * (place * 256) + v * place + r % place

put_byte32 :
    (i r v : ℕ)
    → i < 4
    → r < 2 ^ 32
    → v < 256
    → put_byte u32_ones r (i * 8) v ≡ replaced r (2 ^ (i * 8)) v
unfolding put_byte
put_byte32 zero r v hi hr hv =
    let keep : bit_and r 0xFFFFFF00 ≡ r / 256 * 256 * 2 ^ 0 + 0 =
      ground
        (arith, bit_and_cut 8 r 0xFFFFFF00, bit_and_low 24 (r / 256), bit_and-zero (r % 256)) in
    let given : bit_and (v * 2 ^ 0) 0xFFFFFFFF ≡ v * 2 ^ 0 =
      omega (arith, bit_and_low 32 (v * 2 ^ 0)) in
    rw (keep, given, or_byte 0 (r / 256) 0 v (omega arith) hv) (omega arith)
put_byte32 (suc zero) r v hi hr hv =
    let keep : bit_and r 0xFFFF00FF ≡ r / 65536 * 256 * 2 ^ 8 + r % 256 =
      ground (
        arith,
        bit_and_cut 16 r 0xFFFF00FF,
        bit_and_low 16 (r / 65536),
        bit_and_low 8 (r % 65536),
      ) in
    let given : bit_and (v * 2 ^ 8) 0xFFFFFFFF ≡ v * 2 ^ 8 =
      omega (arith, bit_and_low 32 (v * 2 ^ 8)) in
    rw (keep, given, or_byte 8 (r / 65536) (r % 256) v (omega arith) hv) (omega arith)
put_byte32 (suc (suc zero)) r v hi hr hv =
    let keep : bit_and r 0xFF00FFFF ≡ r / 16777216 * 256 * 2 ^ 16 + r % 65536 = ground (
      arith,
      bit_and_cut 24 r 0xFF00FFFF,
      bit_and_low 8 (r / 16777216),
      bit_and_low 16 (r % 16777216),
    ) in
    let given : bit_and (v * 2 ^ 16) 0xFFFFFFFF ≡ v * 2 ^ 16 =
      omega (arith, bit_and_low 32 (v * 2 ^ 16)) in
    rw (keep, given, or_byte 16 (r / 16777216) (r % 65536) v (omega arith) hv) (omega arith)
put_byte32 (suc (suc (suc zero))) r v hi hr hv =
    let keep : bit_and r 0x00FFFFFF ≡ 0 * 256 * 2 ^ 24 + r % 16777216 =
      omega (arith, bit_and_low 24 r) in
    let given : bit_and (v * 2 ^ 24) 0xFFFFFFFF ≡ v * 2 ^ 24 =
      omega (arith, bit_and_low 32 (v * 2 ^ 24)) in
    rw (keep, given, or_byte 24 0 (r % 16777216) v (omega arith) hv) (omega arith)
put_byte32 (suc (suc (suc (suc i)))) r v hi hr hv = absurd (omega arith)

abbrev pub byte_of : ℕ → ℕ → ℕ
byte_of r j = r / 2 ^ (j * 8) % 256

replaced_byte :
    (i j r v : ℕ)
    → i < 4
    → j < 4
    → v < 256
    → byte_of (replaced r (2 ^ (i * 8)) v) j ≡ (if i == j then v else byte_of r j)
replaced_byte zero zero r v hi hj hv = omega arith
replaced_byte zero (suc zero) r v hi hj hv = omega arith
replaced_byte zero (suc (suc zero)) r v hi hj hv = omega arith
replaced_byte zero (suc (suc (suc zero))) r v hi hj hv = omega arith
replaced_byte zero (suc (suc (suc (suc j)))) r v hi hj hv = absurd (omega arith)
replaced_byte (suc zero) zero r v hi hj hv = omega arith
replaced_byte (suc zero) (suc zero) r v hi hj hv = omega arith
replaced_byte (suc zero) (suc (suc zero)) r v hi hj hv = omega arith
replaced_byte (suc zero) (suc (suc (suc zero))) r v hi hj hv = omega arith
replaced_byte (suc zero) (suc (suc (suc (suc j)))) r v hi hj hv = absurd (omega arith)
replaced_byte (suc (suc zero)) zero r v hi hj hv = omega arith
replaced_byte (suc (suc zero)) (suc zero) r v hi hj hv = omega arith
replaced_byte (suc (suc zero)) (suc (suc zero)) r v hi hj hv = omega arith
replaced_byte (suc (suc zero)) (suc (suc (suc zero))) r v hi hj hv = omega arith
replaced_byte (suc (suc zero)) (suc (suc (suc (suc j)))) r v hi hj hv = absurd (omega arith)
replaced_byte (suc (suc (suc zero))) zero r v hi hj hv = omega arith
replaced_byte (suc (suc (suc zero))) (suc zero) r v hi hj hv = omega arith
replaced_byte (suc (suc (suc zero))) (suc (suc zero)) r v hi hj hv = omega arith
replaced_byte (suc (suc (suc zero))) (suc (suc (suc zero))) r v hi hj hv = omega arith
replaced_byte (suc (suc (suc zero))) (suc (suc (suc (suc j)))) r v hi hj hv = absurd (omega arith)
replaced_byte (suc (suc (suc (suc i)))) j r v hi hj hv = absurd (omega arith)

shift32_lem : (byte_offset : ℕ) → shift32 byte_offset ≡ byte_offset % 4 * 8
shift32_lem byte_offset = omega (arith, bit_and_low 2 byte_offset)

put_byte-byte_of :
    (r o v j : ℕ)
    → r < 2 ^ 32
    → v < 256
    → j < 4
    → byte_of (put_byte u32_ones r (shift32 o) v) j ≡ (if o % 4 == j then v else byte_of r j)
put_byte-byte_of r o v j hr hv hj =
    rw (shift32_lem o) rw (put_byte32 (o % 4) r v (omega arith) hr hv)
      (replaced_byte (o % 4) j r v (omega arith) hj hv)

-- Byte writes to the source, destination and count registers: the addressed byte, by the low two
-- bits of the offset, is the value, and each other byte of the register is as before.
pub write_byte_of :
    (c : DmaChannel) (o v j : ℕ)
    → c.sad < 2 ^ 32
    → c.dad < 2 ^ 32
    → c.count < 2 ^ 32
    → v < 256
    → j < 4
    → (byte_of (write_sad c o v).sad j ≡ (if o % 4 == j then v else byte_of c.sad j))
      × (byte_of (write_dad c o v).dad j ≡ (if o % 4 == j then v else byte_of c.dad j))
      × (byte_of (write_count c o v).count j ≡ (if o % 4 == j then v else byte_of c.count j))
unfolding write_sad write_dad write_count
write_byte_of c o v j hs hd hc hv hj = (
  put_byte-byte_of c.sad o v j hs hv hj,
  put_byte-byte_of c.dad o v j hd hv hj,
  put_byte-byte_of c.count o v j hc hv hj,
)

-- A running channel has its enable bit set and something left to move.
pub record IsRunning (c : DmaChannel) : Type 0 where
  pub on : c.active ≡ true → enabled c.control ≡ true
  pub some_left : c.active ≡ true → 0 < c.cur_count

-- No write to the control register leaves an active channel whose enable bit is clear or whose
-- working count is zero; a write that clears the enable bit stops the channel, and one that sets it
-- on a stopped channel starts it from the source and destination registers.
pub write_control-IsRunning :
    (c : DmaChannel) (o v : ℕ)
    → IsRunning c
    → let d = write_control c o v in
      IsRunning d
      × (enabled d.control ≡ false → d.active ≡ false)
      × (enabled c.control ≡ false
          → enabled d.control ≡ true
          → (d.active ≡ true) × (d.cur_src ≡ c.sad) × (d.cur_dest ≡ c.dad))
unfolding write_control reload
write_control-IsRunning c o v h = (ground arith, ground arith, ground arith)
