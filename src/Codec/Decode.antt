-- ===== src/Codec/Decode.antt =====
-- What `str_to_key` does: when it fails, and which byte each pair of characters becomes.
use Prim.Native.Nat.{bit_or}
use embedded_operating_syste.Base.{
  ℕ, zero, suc, ◌+◌, ◌*◌, ◌/◌, ◌%◌, ◌^◌, ◌≤◌, ◌<◌, ◌≡◌, ◌≢◌, refl, Bool, true, ◌&&◌, not, ltb, leb,
  ◌==◌, if◌then◌else◌, Bytes, update, arith, inl, inr, Bool-cases, ◌∙◌, ap, update_self, update_ne,
  update_twice, ==→eq, ne→==, eq→==,
}
use embedded_operating_syste.Codec.{shift_of, str_to_key_loop}

-- `2 * n` rounds are `n` pairs.
abbrev pub twice : ℕ → ℕ
twice zero = 0
twice (suc n) = suc (suc (twice n))

-- The byte that two digits leave behind.
abbrev pub pair : ℕ → ℕ → ℕ
pair h l = bit_or (bit_or 0 (h * 16 % 256)) (l * 1 % 256)

module _ (hexdigit : ℕ → ℕ) (str : Bytes) where
  -- One round at a digit.
  one_round :
      (n i m s : ℕ) (key : Bytes)
      → hexdigit (str i) ≢ 255
      → i / 2 ≡ m
      → shift_of i ≡ s
      → str_to_key_loop hexdigit (suc n) i str key
        ≡ str_to_key_loop hexdigit n
            (i + 1)
            str
            (update key m (bit_or (key m) (hexdigit (str i) * 2 ^ s % 256)))
  unfolding str_to_key_loop
  one_round n i m s key h e f = rw (ne→== _ _ h, e, f)

  -- One round at any other character.
  one_round_bad :
      (n i : ℕ) (key : Bytes)
      → hexdigit (str i) ≡ 255
      → str_to_key_loop hexdigit (suc n) i str key ≡ (1, key)
  unfolding str_to_key_loop
  one_round_bad n i key h = rw (eq→== _ _ h)

  -- Whether the rounds from `i` on meet digits only.
  abbrev pub all_digits : ℕ → ℕ → Bool
  all_digits zero i = true
  all_digits (suc n) i = not (hexdigit (str i) == 255) && all_digits n (i + 1)

  -- The error is 1 as soon as one of the characters is no digit, and 0 otherwise.
  pub str_to_key_loop_error :
      (n i : ℕ) (key : Bytes)
      → (str_to_key_loop hexdigit n i str key).0 ≡ (if all_digits n i then 0 else 1)
  str_to_key_loop_error zero i key = unfold str_to_key_loop in refl
  str_to_key_loop_error (suc n) i key = elim (Bool-cases (hexdigit (str i) == 255)) [
    | inl e ↦ rw (one_round_bad n i key (==→eq _ _ e), e)
    | inr e ↦
        rw (one_round n i (i / 2) (shift_of i) key (ground arith) refl refl, e)
          (str_to_key_loop_error n (i + 1) _)
  ]

  -- Pair `j` of characters has digits.
  abbrev pub IsPair : ℕ → Type 0
  IsPair j = (hexdigit (str (j * 2)) ≢ 255) × (hexdigit (str (j * 2 + 1)) ≢ 255)

  two_rounds :
      (n m : ℕ) (key : Bytes)
      → IsPair m
      → key m ≡ 0
      → str_to_key_loop hexdigit (suc (suc n)) (m * 2) str key
        ≡ str_to_key_loop hexdigit n
            ((m + 1) * 2)
            str
            (update key m (pair (hexdigit (str (m * 2))) (hexdigit (str (m * 2 + 1)))))
  two_rounds n m key (h, l) z =
      let high = bit_or 0 (hexdigit (str (m * 2)) * 16 % 256) in
      rw
        (
          one_round (suc n) (m * 2) m 4 key h (omega arith) (ground arith),
          z,
          one_round n (m * 2 + 1) m 0 (update key m high) l (omega arith) (ground arith),
          update_self key m high,
          update_twice key m high,
        )
        (ap
          (λ i.
            str_to_key_loop hexdigit n i str
              (update key m (pair (hexdigit (str (m * 2))) (hexdigit (str (m * 2 + 1))))))
          (omega arith))

  pub pairs :
      (n m : ℕ) (key : Bytes)
      → ((j : ℕ) → m ≤ j → j < m + n → IsPair j)
      → ((j : ℕ) → m ≤ j → key j ≡ 0)
      → (j : ℕ)
      → (str_to_key_loop hexdigit (twice n) (m * 2) str key).1 j ≡ (
          if leb m j && ltb j (m + n)
          then pair (hexdigit (str (j * 2))) (hexdigit (str (j * 2 + 1)))
          else key j)
  pairs zero m key d z j = unfold str_to_key_loop in ground arith
  pairs (suc n) m key d z j =
      let byte = pair (hexdigit (str (m * 2))) (hexdigit (str (m * 2 + 1))) in
      rw (two_rounds (twice n) m key (d m (omega arith) (omega arith)) (z m (omega arith))) (
        rw
          (pairs n (m + 1) (update key m byte) (λ i a b. d i (omega arith) (omega arith))
            (λ i a. update_ne key m byte i (omega arith) ∙ z i (omega arith)) j)
          (unfold update in ground arith))
