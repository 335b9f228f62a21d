-- ===== src/Codec/Encode.antt =====
-- What `key_to_str` writes, and that `str_to_key` reads it back.
use embedded_operating_syste.Base.{
  ℕ, zero, suc, ◌+◌, ◌*◌, ◌/◌, ◌%◌, ◌≤◌, ◌<◌, ◌≡◌, ◌≢◌, refl, true, Bytes, update, arith, lt→ltb,
  ◌∙◌, zeroes,
}
use embedded_operating_syste.Codec.{digithex, str_to_key, key_to_str_loop, key_to_str}
use embedded_operating_syste.Codec.Decode.{
  pair, twice, IsPair, pairs, all_digits, str_to_key_loop_error,
}

module _ (key : Bytes) where
  -- The rounds leave the characters before their position alone.
  before :
      (n k o : ℕ) (out_str : Bytes) (j : ℕ)
      → j < o
      → key_to_str_loop n k o key out_str j ≡ out_str j
  unfolding key_to_str_loop update
  before zero k o out_str j h = ground arith
  before (suc n) k o out_str j h = ground (
    arith,
    before n (k + 1) (o + 2)
        (update (update out_str o (digithex (key k / 16))) (o + 1) (digithex (key k % 16))) j,
  )

  high :
      (n k o : ℕ) (out_str : Bytes) (m j i : ℕ)
      → m < n
      → j ≡ o + m * 2
      → i ≡ k + m
      → key_to_str_loop n k o key out_str j ≡ digithex (key i / 16)
  unfolding key_to_str_loop update
  high zero k o out_str m j i h e f = absurd (omega arith)
  high (suc n) k o out_str zero j i h e f =
      let e' : j ≡ o = omega arith in
      let f' : i ≡ k = omega arith in
      rw (f', before n (k + 1) (o + 2) _ j (omega arith)) (ground arith)
  high (suc n) k o out_str (suc m) j i h e f =
      high n (k + 1) (o + 2) _ m j i (omega arith) (omega arith) (omega arith)

  low :
      (n k o : ℕ) (out_str : Bytes) (m j i : ℕ)
      → m < n
      → j ≡ o + m * 2 + 1
      → i ≡ k + m
      → key_to_str_loop n k o key out_str j ≡ digithex (key i % 16)
  unfolding key_to_str_loop update
  low zero k o out_str m j i h e f = absurd (omega arith)
  low (suc n) k o out_str zero j i h e f =
      let e' : j ≡ o + 1 = omega arith in
      let f' : i ≡ k = omega arith in
      rw (f', before n (k + 1) (o + 2) _ j (omega arith)) (ground arith)
  low (suc n) k o out_str (suc m) j i h e f =
      low n (k + 1) (o + 2) _ m j i (omega arith) (omega arith) (omega arith)

  -- The characters of byte `m`.
  pub key_to_str_digits :
      (out_str : Bytes) (m : ℕ)
      → m < 20
      → (key_to_str key out_str (m * 2) ≡ digithex (key m / 16))
        × (key_to_str key out_str (m * 2 + 1) ≡ digithex (key m % 16))
  unfolding key_to_str
  key_to_str_digits out_str m h = (
    high 20 0 0 out_str m (m * 2) m h (omega arith) (omega arith),
    low 20 0 0 out_str m (m * 2 + 1) m h (omega arith) (omega arith),
  )

-- Reading back the two characters of a byte: the whole of it, by its 256 values.
abbrev pub ReadsBack : (ℕ → ℕ) → ℕ → Type 0
ReadsBack hexdigit b =
    (hexdigit (digithex (b / 16)) ≢ 255)
    × (hexdigit (digithex (b % 16)) ≢ 255)
    × (pair (hexdigit (digithex (b / 16))) (hexdigit (digithex (b % 16))) ≡ b)

module _ (hexdigit : ℕ → ℕ) (key : Bytes) where
  all_digits_of_pairs :
      (n m : ℕ) (str : Bytes)
      → ((j : ℕ) → m ≤ j → j < m + n → IsPair hexdigit str j)
      → all_digits hexdigit str (twice n) (m * 2) ≡ true
  all_digits_of_pairs zero m str d = refl
  all_digits_of_pairs (suc n) m str d =
      let tail : all_digits hexdigit str (twice n) ((m + 1) * 2) ≡ true =
        all_digits_of_pairs n (m + 1) str (λ i a b. d i (omega arith) (omega arith)) in
      let next : (m + 1) * 2 ≡ m * 2 + 1 + 1 = omega arith in
      let here = d m (omega arith) (omega arith) in ground (arith, rw next at tail)

  pub read_back :
      ((b : ℕ) → b < 256 → ReadsBack hexdigit b)
      → ((i : ℕ) → i < 20 → key i < 256)
      → (out_str : Bytes)
      → let (error, key') = str_to_key hexdigit (key_to_str key out_str) in
        (error ≡ 0) × ((i : ℕ) → i < 20 → key' i ≡ key i)
  unfolding str_to_key
  read_back back bytes out_str =
      let str : Bytes = key_to_str key out_str in
      let d : (j : ℕ) → 0 ≤ j → j < 0 + 20 → IsPair hexdigit str j = λ j a h. (
        rw (key_to_str_digits key out_str j (omega arith)).0
            (back (key j) (bytes j (omega arith))).0,
        rw (key_to_str_digits key out_str j (omega arith)).1
            (back (key j) (bytes j (omega arith))).1,
      ) in
      (
        rw (str_to_key_loop_error hexdigit str 40 0 zeroes, all_digits_of_pairs 20 0 str d) refl,
        λ i h.
            pairs hexdigit str 20 0 zeroes d (λ j a. refl) i
            ∙ rw
                (
                  lt→ltb i 20 h,
                  (key_to_str_digits key out_str i h).0,
                  (key_to_str_digits key out_str i h).1,
                )
                (ground (arith, (back (key i) (bytes i h)).2)),
      )
