-- ===== src/Board/Pico/Bootloader.antt =====
-- kernel/raspberry_pi_pico/src/flash_bootloader.rs: the table, which stands at the beginning of the flash,
-- and what the boot ROM of the RP2040 asks of it before it runs it.
use Prim.Native.Nat.{bit_xor}
use micro_morse_chat.Prelude.{
  ℕ, ◌+◌, ◌*◌, ◌%◌, ◌^◌, ◌≡◌, refl, List, [], ◌∷◌, ltb, if◌then◌else◌, length, take, drop,
}

abbrev pub flash_bootloader : List ℕ
flash_bootloader =
    0x00 ∷ 0xb5 ∷ 0x32 ∷ 0x4b ∷ 0x21 ∷ 0x20 ∷ 0x58 ∷ 0x60 ∷ 0x98 ∷ 0x68 ∷ 0x02 ∷ 0x21 ∷ 0x88 ∷ 0x43
    ∷ 0x98 ∷ 0x60 ∷ 0xd8 ∷ 0x60 ∷ 0x18 ∷ 0x61 ∷ 0x58 ∷ 0x61 ∷ 0x2e ∷ 0x4b ∷ 0x00 ∷ 0x21 ∷ 0x99
    ∷ 0x60 ∷ 0x02 ∷ 0x21 ∷ 0x59 ∷ 0x61 ∷ 0x01 ∷ 0x21 ∷ 0xf0 ∷ 0x22 ∷ 0x99 ∷ 0x50 ∷ 0x2b ∷ 0x49
    ∷ 0x19 ∷ 0x60 ∷ 0x01 ∷ 0x21 ∷ 0x99 ∷ 0x60 ∷ 0x35 ∷ 0x20 ∷ 0x00 ∷ 0xf0 ∷ 0x44 ∷ 0xf8 ∷ 0x02
    ∷ 0x22 ∷ 0x90 ∷ 0x42 ∷ 0x14 ∷ 0xd0 ∷ 0x06 ∷ 0x21 ∷ 0x19 ∷ 0x66 ∷ 0x00 ∷ 0xf0 ∷ 0x34 ∷ 0xf8
    ∷ 0x19 ∷ 0x6e ∷ 0x01 ∷ 0x21 ∷ 0x19 ∷ 0x66 ∷ 0x00 ∷ 0x20 ∷ 0x18 ∷ 0x66 ∷ 0x1a ∷ 0x66 ∷ 0x00
    ∷ 0xf0 ∷ 0x2c ∷ 0xf8 ∷ 0x19 ∷ 0x6e ∷ 0x19 ∷ 0x6e ∷ 0x19 ∷ 0x6e ∷ 0x05 ∷ 0x20 ∷ 0x00 ∷ 0xf0
    ∷ 0x2f ∷ 0xf8 ∷ 0x01 ∷ 0x21 ∷ 0x08 ∷ 0x42 ∷ 0xf9 ∷ 0xd1 ∷ 0x00 ∷ 0x21 ∷ 0x99 ∷ 0x60 ∷ 0x1b
    ∷ 0x49 ∷ 0x19 ∷ 0x60 ∷ 0x00 ∷ 0x21 ∷ 0x59 ∷ 0x60 ∷ 0x1a ∷ 0x49 ∷ 0x1b ∷ 0x48 ∷ 0x01 ∷ 0x60
    ∷ 0x01 ∷ 0x21 ∷ 0x99 ∷ 0x60 ∷ 0xeb ∷ 0x21 ∷ 0x19 ∷ 0x66 ∷ 0xa0 ∷ 0x21 ∷ 0x19 ∷ 0x66 ∷ 0x00
    ∷ 0xf0 ∷ 0x12 ∷ 0xf8 ∷ 0x00 ∷ 0x21 ∷ 0x99 ∷ 0x60 ∷ 0x16 ∷ 0x49 ∷ 0x14 ∷ 0x48 ∷ 0x01 ∷ 0x60
    ∷ 0x01 ∷ 0x21 ∷ 0x99 ∷ 0x60 ∷ 0x01 ∷ 0xbc ∷ 0x00 ∷ 0x28 ∷ 0x00 ∷ 0xd0 ∷ 0x00 ∷ 0x47 ∷ 0x12
    ∷ 0x48 ∷ 0x13 ∷ 0x49 ∷ 0x08 ∷ 0x60 ∷ 0x03 ∷ 0xc8 ∷ 0x80 ∷ 0xf3 ∷ 0x08 ∷ 0x88 ∷ 0x08 ∷ 0x47
    ∷ 0x03 ∷ 0xb5 ∷ 0x99 ∷ 0x6a ∷ 0x04 ∷ 0x20 ∷ 0x01 ∷ 0x42 ∷ 0xfb ∷ 0xd0 ∷ 0x01 ∷ 0x20 ∷ 0x01
    ∷ 0x42 ∷ 0xf8 ∷ 0xd1 ∷ 0x03 ∷ 0xbd ∷ 0x02 ∷ 0xb5 ∷ 0x18 ∷ 0x66 ∷ 0x18 ∷ 0x66 ∷ 0xff ∷ 0xf7
    ∷ 0xf2 ∷ 0xff ∷ 0x18 ∷ 0x6e ∷ 0x18 ∷ 0x6e ∷ 0x02 ∷ 0xbd ∷ 0x00 ∷ 0x00 ∷ 0x02 ∷ 0x40 ∷ 0x00
    ∷ 0x00 ∷ 0x00 ∷ 0x18 ∷ 0x00 ∷ 0x00 ∷ 0x07 ∷ 0x00 ∷ 0x00 ∷ 0x03 ∷ 0x5f ∷ 0x00 ∷ 0x21 ∷ 0x22
    ∷ 0x00 ∷ 0x00 ∷ 0xf4 ∷ 0x00 ∷ 0x00 ∷ 0x18 ∷ 0x22 ∷ 0x20 ∷ 0x00 ∷ 0xa0 ∷ 0x00 ∷ 0x01 ∷ 0x00
    ∷ 0x10 ∷ 0x08 ∷ 0xed ∷ 0x00 ∷ 0xe0 ∷ 0x00 ∷ 0x00 ∷ 0x00 ∷ 0x00 ∷ 0x00 ∷ 0x00 ∷ 0x00 ∷ 0x00
    ∷ 0x00 ∷ 0x00 ∷ 0x00 ∷ 0x00 ∷ 0x74 ∷ 0xb2 ∷ 0x4e ∷ 0x7a ∷ []

-- CRC-32 with the polynomial 0x04c11db7, the highest bit first.
crc_bit : ℕ → ℕ
crc_bit c = if ltb c (2 ^ 31) then c * 2 else bit_xor (c * 2 % 2 ^ 32) 0x04c11db7

crc_byte : ℕ → ℕ → ℕ
unfolding crc_bit
crc_byte c x =
    crc_bit
      (crc_bit (crc_bit (crc_bit (crc_bit (crc_bit (crc_bit (crc_bit (bit_xor c (x * 2 ^ 24)))))))))

crc : ℕ → List ℕ → ℕ
unfolding crc_byte
crc c [] = c
crc c (x ∷ xs) = crc (crc_byte c x) xs

abbrev little_endian : List ℕ → ℕ
little_endian [] = 0
little_endian (x ∷ xs) = x + 256 * little_endian xs

-- The sum of the first 252 bytes stands in the last four.
flash_bootloader_signed :
    (length flash_bootloader ≡ 256)
    × (little_endian (drop 252 flash_bootloader) ≡ crc 0xffffffff (take 252 flash_bootloader))
unfolding crc
flash_bootloader_signed = (refl, refl)
