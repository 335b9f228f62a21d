-- ===== src/Codec.antt =====
-- The key codec. key-value-fs/src/kvfs_util.c and deduplicating-fs/src/ddfs_util.c hold the same
-- loops over 40 hexadecimal characters and 20 bytes, with a `hexdigit` each: the loops take it as
-- an argument. An `int8_t` is its bit pattern, so that -1 is 255.
pub mod Decode
pub mod Encode
pub mod RoundTrip
mod Tests
pub mod Values
use Prim.Native.Nat.{bit_or}
use embedded_operating_syste.Base.{
  ℕ, zero, suc, ◌+◌, ◌-◌, ◌*◌, ◌/◌, ◌%◌, ◌^◌, ltb, leb, ◌==◌, if◌then◌else◌, Bytes, zeroes, update,
  ◌&&◌, ◌||◌,
}

-- kvfs: one test for both cases of letter, and `c - 'a' + 10` for either.
unfoldable pub hexdigit_kvfs : ℕ → ℕ
hexdigit_kvfs c =
    if leb b'0' c && leb c b'9'
    then c - b'0'
    else if (leb b'a' c && leb c b'f') || (leb b'A' c && leb c b'F')
    then (c + 256 - b'a' + 10) % 256
    else 255

-- ddfs: upper and lower case apart.
unfoldable pub hexdigit_ddfs : ℕ → ℕ
hexdigit_ddfs c =
    if leb b'0' c && leb c b'9'
    then c - b'0'
    else if leb b'a' c && leb c b'f'
    then c - b'a' + 10
    else if leb b'A' c && leb c b'F'
    then c - b'A' + 10
    else 255

unfoldable pub digithex : ℕ → ℕ
digithex digit = if leb digit 9 then b'0' + digit else b'a' + digit - 10

-- `uint8_t shift`
abbrev pub shift_of : ℕ → ℕ
shift_of i = if i % 2 == 0 then 4 else 0

module _ (hexdigit : ℕ → ℕ) where
  -- The loop from `i` with `n` rounds left; a character that is no digit returns 1.
  unfoldable pub str_to_key_loop : ℕ → ℕ → Bytes → Bytes → ℕ × Bytes
  str_to_key_loop zero i str out_key = (0, out_key)
  str_to_key_loop (suc n) i str out_key =
      let d = hexdigit (str i) in
      let byte = bit_or (out_key (i / 2)) (d * 2 ^ shift_of i % 256) in
      let rest = str_to_key_loop n (i + 1) str (update out_key (i / 2) byte) in
      if d == 255 then (1, out_key) else rest

  unfoldable pub str_to_key : Bytes → ℕ × Bytes
  unfolding str_to_key_loop
  str_to_key str = str_to_key_loop 40 0 str zeroes

-- `key` and `out_str` move on by one and by two; the loop ends by the terminating NUL.
unfoldable pub key_to_str_loop : ℕ → ℕ → ℕ → Bytes → Bytes → Bytes
key_to_str_loop zero k o key out_str = update out_str o 0
key_to_str_loop (suc len) k o key out_str =
    key_to_str_loop len (k + 1) (o + 2) key
      (update (update out_str o (digithex (key k / 16))) (o + 1) (digithex (key k % 16)))

unfoldable pub key_to_str : Bytes → Bytes → Bytes
unfolding key_to_str_loop digithex
key_to_str key out_str = key_to_str_loop 20 0 0 key out_str
