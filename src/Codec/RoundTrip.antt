-- ===== src/Codec/RoundTrip.antt =====
-- `str_to_key` after `key_to_str`, for the codecs of kvfs_util.c and ddfs_util.c.
use embedded_operating_syste.Base.{
  ℕ, ◌/◌, ◌%◌, ◌<◌, ◌≡◌, refl, true, ◌&&◌, not, ◌==◌, Bytes, arith, all_below, all_below_sound,
}
use embedded_operating_syste.Codec.{hexdigit_kvfs, hexdigit_ddfs, digithex, str_to_key, key_to_str}
use embedded_operating_syste.Codec.Decode.{pair}
use embedded_operating_syste.Codec.Encode.{ReadsBack, read_back}

kvfs_table :
    all_below 256 (λ b.
      not (hexdigit_kvfs (digithex (b / 16)) == 255)
      && (not (hexdigit_kvfs (digithex (b % 16)) == 255)
          && (pair (hexdigit_kvfs (digithex (b / 16))) (hexdigit_kvfs (digithex (b % 16))) == b)))
    ≡ true
unfolding all_below hexdigit_kvfs digithex
kvfs_table = refl

ddfs_table :
    all_below 256 (λ b.
      not (hexdigit_ddfs (digithex (b / 16)) == 255)
      && (not (hexdigit_ddfs (digithex (b % 16)) == 255)
          && (pair (hexdigit_ddfs (digithex (b / 16))) (hexdigit_ddfs (digithex (b % 16))) == b)))
    ≡ true
unfolding all_below hexdigit_ddfs digithex
ddfs_table = refl

hexdigit_kvfs-ReadsBack : (b : ℕ) → b < 256 → ReadsBack hexdigit_kvfs b
hexdigit_kvfs-ReadsBack b h = ground (arith, all_below_sound 256 _ b kvfs_table h)

hexdigit_ddfs-ReadsBack : (b : ℕ) → b < 256 → ReadsBack hexdigit_ddfs b
hexdigit_ddfs-ReadsBack b h = ground (arith, all_below_sound 256 _ b ddfs_table h)

abbrev SameKey : Bytes → ℕ × Bytes → Type 0
SameKey key (error, key') = (error ≡ 0) × ((i : ℕ) → i < 20 → key' i ≡ key i)

-- For every key of 20 bytes, `str_to_key` of either file system returns 0 on the text that
-- `key_to_str` writes for the key, and gives back each of the 20 bytes.
pub str_to_key-key_to_str :
    (key out_str : Bytes)
    → ((i : ℕ) → i < 20 → key i < 256)
    → SameKey key (str_to_key hexdigit_kvfs (key_to_str key out_str))
      × SameKey key (str_to_key hexdigit_ddfs (key_to_str key out_str))
str_to_key-key_to_str key out_str bytes = (
  read_back hexdigit_kvfs key hexdigit_kvfs-ReadsBack bytes out_str,
  read_back hexdigit_ddfs key hexdigit_ddfs-ReadsBack bytes out_str,
)
