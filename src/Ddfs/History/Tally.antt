-- ===== src/Ddfs/History/Tally.antt =====
-- The users of the blocks, and the counts that the store keeps of them.
use native.Mathlib.Decide.{ℕ_discrete}
use embedded_operating_syste.Base.{
  ℕ, suc, ◌-◌, ◌<◌, ◌≡◌, ◌≢◌, refl, true, false, Option, none, some, List, [], ◌∷◌, Bytes,
  if◌then◌else◌, ◌==◌, memcmp, memcmp_refl, memcmp_left, memcmp_sym, arith, ap, ◌∙◌, sym, eq→==,
  ne→==, Bool-cases, inl, inr,
}
use embedded_operating_syste.Ddfs.Table.Store.{Store, put}
use embedded_operating_syste.Ddfs.Table.Unref.{block_of, count_of}

-- How many users a block has, and the users without one of them.
abbrev pub occurrences : ℕ → List ℕ → ℕ
occurrences b [] = 0
occurrences b (x ∷ xs) = if b == x then suc (occurrences b xs) else occurrences b xs

abbrev pub remove_one : ℕ → List ℕ → List ℕ
remove_one b [] = []
remove_one b (x ∷ xs) = if b == x then xs else x ∷ remove_one b xs

pub occurrences-remove_one :
    (b : ℕ) (users : List ℕ) → occurrences b (remove_one b users) ≡ occurrences b users - 1
occurrences-remove_one b [] = omega arith
occurrences-remove_one b (x ∷ xs) = elim (ℕ_discrete b x) [
  | yes e ↦ rw (eq→== b x e) (omega arith)
  | no ne ↦ rw (ne→== b x ne) (rw (ne→== b x ne) (occurrences-remove_one b xs))
]

pub occurrences-remove_other :
    (b b' : ℕ) (users : List ℕ)
    → b' ≢ b
    → occurrences b' (remove_one b users) ≡ occurrences b' users
occurrences-remove_other b b' [] ne = refl
occurrences-remove_other b b' (x ∷ xs) ne = elim (ℕ_discrete b x) [
  | yes e ↦ rw (eq→== b x e, ne→== b' x (λ q. ne (q ∙ sym e))) refl
  | no other ↦ rw (ne→== b x other, occurrences-remove_other b b' xs ne) refl
]

-- Each key of the store has a block with as many users as are counted, which is not none; each
-- block with a user has a key; and no two keys have one block.
pub record IsTally (store : Store) (users : List ℕ) : Type 0 where
  pub counted :
      (key : Bytes) (block count : ℕ)
      → store key ≡ some (block, count)
      → (count ≡ occurrences block users) × (0 < count)
  pub known :
      (block : ℕ)
      → 0 < occurrences block users
      → (key : Bytes) × (store key ≡ some (block, occurrences block users))
  pub apart :
      (key key' : Bytes) (block count count' : ℕ)
      → store key ≡ some (block, count)
      → store key' ≡ some (block, count')
      → memcmp key' key 20 ≡ true

-- The users of one block change, which is that of one key.
module _ (store : Store) (users users' : List ℕ) (key : Bytes) (block : ℕ)
    (tally : IsTally store users)
    (others : (b : ℕ) → b ≢ block → occurrences b users' ≡ occurrences b users)
    (mine : (key' : Bytes) (count : ℕ)
      → store key' ≡ some (block, count)
      → memcmp key' key 20 ≡ true)
    (theirs : (key' : Bytes) (b count : ℕ)
      → memcmp key' key 20 ≡ true
      → store key' ≡ some (b, count)
      → b ≡ block) where
  other_block :
      (key' : Bytes) (b count : ℕ)
      → memcmp key' key 20 ≡ false
      → store key' ≡ some (b, count)
      → b ≢ block
  other_block key' b count differs e q =
      let same = mine key' count (e ∙ ap (λ x. some (x, count)) q) in cc

  other_key :
      (key' : Bytes) (b count : ℕ)
      → b ≢ block
      → store key' ≡ some (b, count)
      → memcmp key' key 20 ≡ false
  other_key key' b count ne e = elim (Bool-cases (memcmp key' key 20)) [
    | inl same ↦ absurd (ne (theirs key' b count same e))
    | inr differs ↦ differs
  ]

  -- What the changed store says of a key, for a new value.
  put_same :
      (value : Option (ℕ × ℕ)) (key' : Bytes)
      → memcmp key' key 20 ≡ true
      → put store key value key' ≡ value
  put_same value key' same = rw same refl

  put_differs :
      (value : Option (ℕ × ℕ)) (key' : Bytes)
      → memcmp key' key 20 ≡ false
      → put store key value key' ≡ store key'
  put_differs value key' differs = rw differs refl

  same_key : (a b : Bytes) → memcmp a key 20 ≡ true → memcmp b key 20 ≡ true → memcmp b a 20 ≡ true
  same_key a b p q = memcmp_sym 20 b a ∙ memcmp_left 20 a key b p ∙ memcmp_sym 20 key b ∙ q

  pub put-IsTally :
      (count : ℕ)
      → occurrences block users' ≡ count
      → 0 < count
      → IsTally (put store key (some (block, count))) users'
  put-IsTally count at pos = record {
    counted = λ key' b c e. elim (Bool-cases (memcmp key' key 20)) [
      | inl same ↦
          let q = sym (put_same (some (block, count)) key' same) ∙ e in
          let on : block ≡ b = ap block_of q in
          let number : count ≡ c = ap count_of q in
          (rw (← number, ← on) (sym at), rw (← number) pos)
      | inr differs ↦
          let before = sym (put_differs (some (block, count)) key' differs) ∙ e in
          let (number, more) = tally.counted key' b c before in
          (number ∙ sym (others b (other_block key' b c differs before)), more)
    ];
    known = λ b some_user. elim (ℕ_discrete b block) [
      | yes e ↦ (key, put_same (some (block, count)) key (memcmp_refl 20 key) ∙ rw (e, at) refl)
      | no ne ↦
          let (key', e) = tally.known b (rw (← (others b ne)) some_user) in
          (
            key',
            put_differs (some (block, count)) key' (other_key key' b (occurrences b users) ne e)
                ∙ e
                ∙ ap (λ c. some (b, c)) (sym (others b ne)),
          )
    ];
    apart = λ a a' b c c' e e'. elim (Bool-cases (memcmp a key 20)) [
      | inl same ↦ elim (Bool-cases (memcmp a' key 20)) [
        | inl same' ↦ same_key a a' same same'
        | inr differs' ↦
            let on : block ≡ b = ap block_of (sym (put_same (some (block, count)) a same) ∙ e) in
            absurd (
              other_block a' b c' differs'
                (sym (put_differs (some (block, count)) a' differs') ∙ e') (sym on))
      ]
      | inr differs ↦ elim (Bool-cases (memcmp a' key 20)) [
        | inl same' ↦
            let on : block ≡ b = ap block_of (sym (put_same (some (block, count)) a' same') ∙ e') in
            absurd (
              other_block a b c differs (sym (put_differs (some (block, count)) a differs) ∙ e)
                (sym on))
        | inr differs' ↦
            tally.apart a a' b c c' (sym (put_differs (some (block, count)) a differs) ∙ e)
              (sym (put_differs (some (block, count)) a' differs') ∙ e')
      ]
    ];
  }

  pub gone-IsTally : occurrences block users' ≡ 0 → IsTally (put store key none) users'
  gone-IsTally at =
      let before : (key' : Bytes) (b c : ℕ)
          → put store key none key' ≡ some (b, c)
          → (memcmp key' key 20 ≡ false) × (store key' ≡ some (b, c)) =
        λ key' b c e. elim (Bool-cases (memcmp key' key 20)) [
          | inl same ↦ let wrong = sym (put_same none key' same) ∙ e in cc
          | inr differs ↦ (differs, sym (put_differs none key' differs) ∙ e)
        ] in
      record {
        counted = λ key' b c e.
            let (differs, e') = before key' b c e in
            let (number, more) = tally.counted key' b c e' in
            (number ∙ sym (others b (other_block key' b c differs e')), more);
        known = λ b some_user. elim (ℕ_discrete b block) [
          | yes e ↦ absurd (omega (arith, rw e at some_user, at))
          | no ne ↦
              let (key', e) = tally.known b (rw (← (others b ne)) some_user) in
              (
                key',
                put_differs none key' (other_key key' b (occurrences b users) ne e)
                    ∙ e
                    ∙ ap (λ c. some (b, c)) (sym (others b ne)),
              )
        ];
        apart =
            λ a a' b c c' e e'. tally.apart a a' b c c' (before a b c e).1 (before a' b c' e').1;
      }
