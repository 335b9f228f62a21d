-- ===== src/Ddfs/Blockmap.antt =====
-- deduplicating-fs/src/ddfs_subr.c: a block in the map of free fragments, `fs_frag` bits of it.
-- Another `fs_frag` than 1, 2, 4 and 8 is the `default` of the switches outside the kernel, where
-- they change nothing.
pub mod Laws
use Prim.Native.Nat.{bit_and}
use embedded_operating_syste.Base.{
  ℕ, ◌*◌, ◌/◌, ◌%◌, ◌^◌, ◌-◌, Bool, false, ◌==◌, if◌then◌else◌, Bytes, update, bit_or,
}

-- `ones << ((h & (n - 1)) * w)`, for the `n` blocks of a byte with `w` bits each
abbrev pub mask : ℕ → ℕ → ℕ → ℕ
mask ones w o = ones * 2 ^ (o * w)

unfoldable pub ffs_isblock : ℕ → Bytes → ℕ → Bool
ffs_isblock fs_frag cp h =
    if fs_frag == 8
    then cp h == 0xff
    else if fs_frag == 4
    then bit_and (cp (h / 2)) (mask 0x0f 4 (h % 2)) == mask 0x0f 4 (h % 2)
    else if fs_frag == 2
    then bit_and (cp (h / 4)) (mask 0x03 2 (h % 4)) == mask 0x03 2 (h % 4)
    else if fs_frag == 1
    then bit_and (cp (h / 8)) (mask 0x01 1 (h % 8)) == mask 0x01 1 (h % 8)
    else false

unfoldable pub ffs_isfreeblock : ℕ → Bytes → ℕ → Bool
ffs_isfreeblock fs_frag cp h =
    if fs_frag == 8
    then cp h == 0
    else if fs_frag == 4
    then bit_and (cp (h / 2)) (mask 0x0f 4 (h % 2)) == 0
    else if fs_frag == 2
    then bit_and (cp (h / 4)) (mask 0x03 2 (h % 4)) == 0
    else if fs_frag == 1
    then bit_and (cp (h / 8)) (mask 0x01 1 (h % 8)) == 0
    else false

-- `cp[i] &= ~m` on a byte
abbrev pub clear_mask : Bytes → ℕ → ℕ → Bytes
clear_mask cp i m = update cp i (bit_and (cp i) (255 - m))

-- `cp[i] |= m`
abbrev pub set_mask : Bytes → ℕ → ℕ → Bytes
set_mask cp i m = update cp i (bit_or (cp i) m)

unfoldable pub ffs_clrblock : ℕ → Bytes → ℕ → Bytes
ffs_clrblock fs_frag cp h =
    if fs_frag == 8
    then update cp h 0
    else if fs_frag == 4
    then clear_mask cp (h / 2) (mask 0x0f 4 (h % 2))
    else if fs_frag == 2
    then clear_mask cp (h / 4) (mask 0x03 2 (h % 4))
    else if fs_frag == 1
    then clear_mask cp (h / 8) (mask 0x01 1 (h % 8))
    else cp

unfoldable pub ffs_setblock : ℕ → Bytes → ℕ → Bytes
ffs_setblock fs_frag cp h =
    if fs_frag == 8
    then update cp h 0xff
    else if fs_frag == 4
    then set_mask cp (h / 2) (mask 0x0f 4 (h % 2))
    else if fs_frag == 2
    then set_mask cp (h / 4) (mask 0x03 2 (h % 4))
    else if fs_frag == 1
    then set_mask cp (h / 8) (mask 0x01 1 (h % 8))
    else cp
