-- ===== src/Codec/Values.antt =====
-- Which key a name stands for: `str_to_key` against the value of hexadecimal digits.
use Prim.Native.Nat.{bit_or}
use embedded_operating_syste.Base.{
  ℕ, zero, suc, ◌+◌, ◌-◌, ◌*◌, ◌/◌, ◌%◌, ◌≤◌, ◌<◌, ◌≡◌, refl, Bool, true, ◌&&◌, ◌||◌, not, leb,
  ◌==◌, if◌then◌else◌, Bytes, zeroes, arith, all_below, all_below_sound, lt→ltb, le→leb, ==→eq,
  Bool-cases, inl, inr, ◌∙◌, ap,
}
use embedded_operating_syste.Codec.{hexdigit_kvfs, hexdigit_ddfs, str_to_key}
use embedded_operating_syste.Codec.Decode.{pair, pairs, IsPair, all_digits, str_to_key_loop_error}

abbrev pub is_upper : ℕ → Bool
is_upper c = leb b'A' c && leb c b'F'

-- A hexadecimal digit of either case.
abbrev pub is_hex : ℕ → Bool
is_hex c = (leb b'0' c && leb c b'9') || ((leb b'a' c && leb c b'f') || is_upper c)

-- Its value.
abbrev pub hex_value : ℕ → ℕ
hex_value c = if leb c b'9' then c - b'0' else if leb b'a' c then c - b'a' + 10 else c - b'A' + 10

hexdigit_is_hex :
    (c : ℕ) → (not (hexdigit_kvfs c == 255) ≡ is_hex c) × (not (hexdigit_ddfs c == 255) ≡ is_hex c)
unfolding hexdigit_kvfs hexdigit_ddfs
hexdigit_is_hex c = (ground arith, ground arith)

-- All of `n` characters from `i` on are hexadecimal digits.
abbrev pub all_hex : ℕ → ℕ → Bytes → Bool
all_hex zero i str = true
all_hex (suc n) i str = is_hex (str i) && all_hex n (i + 1) str

all_digits-all_hex :
    (n i : ℕ) (str : Bytes)
    → (all_digits hexdigit_kvfs str n i ≡ all_hex n i str)
      × (all_digits hexdigit_ddfs str n i ≡ all_hex n i str)
all_digits-all_hex zero i str = (refl, refl)
all_digits-all_hex (suc n) i str =
    let (kvfs, ddfs) = hexdigit_is_hex (str i) in
    let (kvfs', ddfs') = all_digits-all_hex n (i + 1) str in
    (rw (kvfs, kvfs') refl, rw (ddfs, ddfs') refl)

-- `str_to_key` of either file system returns 0 exactly if all of the 40 characters are
-- hexadecimal digits, of either case, and 1 otherwise.
pub str_to_key_error :
    (str : Bytes)
    → ((str_to_key hexdigit_kvfs str).0 ≡ (if all_hex 40 0 str then 0 else 1))
      × ((str_to_key hexdigit_ddfs str).0 ≡ (if all_hex 40 0 str then 0 else 1))
unfolding str_to_key
str_to_key_error str =
    let (kvfs, ddfs) = all_digits-all_hex 40 0 str in
    (
      str_to_key_loop_error hexdigit_kvfs str 40 0 zeroes ∙ ap (λ b. if b then 0 else 1) kvfs,
      str_to_key_loop_error hexdigit_ddfs str 40 0 zeroes ∙ ap (λ b. if b then 0 else 1) ddfs,
    )

all_hex_at :
    (n i : ℕ) (str : Bytes)
    → all_hex n i str ≡ true
    → (j : ℕ) → i ≤ j
    → j < i + n
    → is_hex (str j) ≡ true
all_hex_at zero i str h j a b = absurd (omega arith)
all_hex_at (suc n) i str h j a b = elim (Bool-cases (i == j)) [
  | inl e ↦ let at : i ≡ j = ==→eq i j e in ground (arith, ap str at)
  | inr e ↦ all_hex_at n (i + 1) str (ground arith) j (ground arith) (ground arith)
]

digits_at :
    (str : Bytes)
    → all_hex 40 0 str ≡ true
    → (j : ℕ) → j < 20
    → IsPair hexdigit_kvfs str j × IsPair hexdigit_ddfs str j
digits_at str h j lt =
    let high = all_hex_at 40 0 str h (j * 2) (omega arith) (omega arith) in
    let low = all_hex_at 40 0 str h (j * 2 + 1) (omega arith) (omega arith) in
    let dh = hexdigit_is_hex (str (j * 2)) in
    let dl = hexdigit_is_hex (str (j * 2 + 1)) in
    ((ground arith, ground arith), (ground arith, ground arith))

byte_kvfs :
    (str : Bytes)
    → all_hex 40 0 str ≡ true
    → (j : ℕ) → j < 20
    → (str_to_key hexdigit_kvfs str).1 j
      ≡ pair (hexdigit_kvfs (str (j * 2))) (hexdigit_kvfs (str (j * 2 + 1)))
unfolding str_to_key
byte_kvfs str h j lt =
    pairs hexdigit_kvfs str 20 0 zeroes (λ i a b. (digits_at str h i b).0) (λ i a. refl) j
    ∙ rw (le→leb 0 j (omega arith), lt→ltb j 20 lt) refl

byte_ddfs :
    (str : Bytes)
    → all_hex 40 0 str ≡ true
    → (j : ℕ) → j < 20
    → (str_to_key hexdigit_ddfs str).1 j
      ≡ pair (hexdigit_ddfs (str (j * 2))) (hexdigit_ddfs (str (j * 2 + 1)))
unfolding str_to_key
byte_ddfs str h j lt =
    pairs hexdigit_ddfs str 20 0 zeroes (λ i a b. (digits_at str h i b).1) (λ i a. refl) j
    ∙ rw (le→leb 0 j (omega arith), lt→ltb j 20 lt) refl

nibbles_table : all_below 256 (λ b. pair (b / 16) (b % 16) == b) ≡ true
unfolding all_below
nibbles_table = refl

nibbles : (h l : ℕ) → h < 16 → l < 16 → pair h l ≡ h * 16 + l
nibbles h l hh hl =
    let b = h * 16 + l in
    let e =
      ==→eq (pair (b / 16) (b % 16)) b (all_below_sound 256 _ b nibbles_table (omega arith)) in
    let p : b / 16 ≡ h = omega arith in let q : b % 16 ≡ l = omega arith in rw (p, q) at e

-- The values of the digits: right in ddfs, and in kvfs but for an upper case letter, which
-- becomes its value and 224, so that only its low four bits are right.
hexdigit_ddfs_value : (c : ℕ) → is_hex c ≡ true → hexdigit_ddfs c ≡ hex_value c
unfolding hexdigit_ddfs
hexdigit_ddfs_value c h = ground arith

hexdigit_kvfs_value :
    (c : ℕ) → is_hex c ≡ true → hexdigit_kvfs c ≡ hex_value c + (if is_upper c then 224 else 0)
unfolding hexdigit_kvfs
hexdigit_kvfs_value c h = ground arith

hex_value-lt : (c : ℕ) → is_hex c ≡ true → hex_value c < 16
hex_value-lt c h = ground arith

-- On 40 hexadecimal digits, each of the 20 bytes that `str_to_key` of ddfs_util.c gives is the
-- value of its two characters, whatever their case.
pub ddfs_str_to_key_value :
    (str : Bytes) (j : ℕ)
    → all_hex 40 0 str ≡ true
    → j < 20
    → (str_to_key hexdigit_ddfs str).1 j
      ≡ hex_value (str (j * 2)) * 16 + hex_value (str (j * 2 + 1))
ddfs_str_to_key_value str j h lt =
    let high = all_hex_at 40 0 str h (j * 2) (omega arith) (omega arith) in
    let low = all_hex_at 40 0 str h (j * 2 + 1) (omega arith) (omega arith) in
    let a = str (j * 2) in
    let b = str (j * 2 + 1) in
    rw (byte_ddfs str h j lt, hexdigit_ddfs_value a high, hexdigit_ddfs_value b low)
      (nibbles (hex_value a) (hex_value b) (hex_value-lt a high) (hex_value-lt b low))

upper_table :
    all_below 256 (λ b. pair (b / 16) (b % 16 + 224) == bit_or (b / 16) 14 * 16 + b % 16) ≡ true
unfolding all_below
upper_table = refl

upper_nibble : (h l : ℕ) → h < 16 → l < 16 → pair h (l + 224) ≡ bit_or h 14 * 16 + l
upper_nibble h l hh hl =
    let b = h * 16 + l in
    let e =
      ==→eq (pair (b / 16) (b % 16 + 224)) (bit_or (b / 16) 14 * 16 + b % 16)
        (all_below_sound 256 _ b upper_table (omega arith)) in
    let p : b / 16 ≡ h = omega arith in let q : b % 16 ≡ l = omega arith in rw (p, q) at e

-- The shift drops what the upper case letter adds to the high digit.
pair-high : (h l : ℕ) (upper : Bool) → pair (h + (if upper then 224 else 0)) l ≡ pair h l
pair-high h l upper = ap (λ n. bit_or (bit_or 0 n) (l * 1 % 256)) (ground arith)

-- On 40 hexadecimal digits, each of the 20 bytes that `str_to_key` of kvfs_util.c gives is the
-- value of its two characters, but for an upper case second character: then bits 1, 2 and 3 of
-- the high digit are set whatever the first character is.
pub kvfs_str_to_key_value :
    (str : Bytes) (j : ℕ)
    → all_hex 40 0 str ≡ true
    → j < 20
    → let high = hex_value (str (j * 2)) in
      (str_to_key hexdigit_kvfs str).1 j
      ≡ (if is_upper (str (j * 2 + 1)) then bit_or high 14 else high) * 16
        + hex_value (str (j * 2 + 1))
kvfs_str_to_key_value str j h lt =
    let high = all_hex_at 40 0 str h (j * 2) (omega arith) (omega arith) in
    let low = all_hex_at 40 0 str h (j * 2 + 1) (omega arith) (omega arith) in
    let a = str (j * 2) in
    let b = str (j * 2 + 1) in
    let v = hex_value a in
    let w = hex_value b in
    let lv = hex_value-lt a high in
    let lw = hex_value-lt b low in
    rw (byte_kvfs str h j lt, hexdigit_kvfs_value a high, hexdigit_kvfs_value b low)
      (rw (pair-high v (w + (if is_upper b then 224 else 0)) (is_upper a))
        (elim (Bool-cases (is_upper b)) [
          | inl e ↦ rw e (upper_nibble v w lv lw)
          | inr e ↦ rw e (ap (λ n. pair v n) (omega arith) ∙ nibbles v w lv lw)
        ]))
