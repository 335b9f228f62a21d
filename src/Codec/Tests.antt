-- ===== src/Codec/Tests.antt =====
-- The key codec on concrete names and keys.
use embedded_operating_syste.Base.{
  ◌+◌, ◌*◌, ◌%◌, ◌≡◌, refl, if◌then◌else◌, Bytes, zeroes, arith, ◌==◌,
}
use embedded_operating_syste.Codec.{hexdigit_kvfs, hexdigit_ddfs, str_to_key, key_to_str}
use embedded_operating_syste.Codec.RoundTrip.{str_to_key-key_to_str}
use embedded_operating_syste.Codec.Values.{str_to_key_error, kvfs_str_to_key_value}

-- The bytes 0x07, 0x0a, ..., and the digits "1A1A...", with a "G" at 39 in the second.
abbrev key : Bytes
key i = (i * 3 + 7) % 256

abbrev upper : Bytes
upper i = if i % 2 == 0 then 49 else 65

abbrev no_digit : Bytes
no_digit i = if i == 39 then 71 else 49

str_to_key-key_to_str_example :
    ((str_to_key hexdigit_kvfs (key_to_str key zeroes)).0 ≡ 0)
    × ((str_to_key hexdigit_ddfs (key_to_str key zeroes)).0 ≡ 0)
str_to_key-key_to_str_example =
    let both = str_to_key-key_to_str key zeroes (λ i lt. omega arith) in (both.0.0, both.1.0)

str_to_key_error_example :
    ((str_to_key hexdigit_kvfs no_digit).0 ≡ 1) × ((str_to_key hexdigit_ddfs no_digit).0 ≡ 1)
str_to_key_error_example = str_to_key_error no_digit

kvfs_str_to_key_value_example : (str_to_key hexdigit_kvfs upper).1 3 ≡ 0xfa
kvfs_str_to_key_value_example = kvfs_str_to_key_value upper 3 refl (omega arith)
