-- ===== src/Ddfs/Table/Store.antt =====
-- The dedup table as a map from the keys of blocks to the block and the number of its users, and
-- how the writing of one entry shows in it.
use native.Mathlib.Decide.{ℕ_discrete}
use embedded_operating_syste.Base.{
  ℕ, ◌<◌, ◌≡◌, ◌≢◌, refl, true, false, Option, none, some, Bytes, if◌then◌else◌, memcmp,
  memcmp_left, arith, ◌∙◌, sym, ap, ap₂, Bool-cases, inl, inr, not, ◌&&◌, has_bit, ◌⊎◌,
}
use embedded_operating_syste.Kvfs.Kernel.{Kernel}
use embedded_operating_syste.Ddfs.Table.{DedupFs, ddfs_dedup_free, num_blocks, entries_per_block}
use embedded_operating_syste.Ddfs.Table.Entries.{Agrees, entry_of, is_live, Agrees-is_live}

-- The block of a key, and how many users it has.
abbrev pub Store : Type 0
Store = Bytes → Option (ℕ × ℕ)

-- `key` and the keys that are the same 20 bytes.
abbrev pub put : Store → Bytes → Option (ℕ × ℕ) → Store
put store key value key' = if memcmp key' key 20 then value else store key'

-- A place in the table, and the places that are others.
abbrev pub IsPlace : DedupFs → ℕ → ℕ → Type 0
IsPlace fs i k = (i < num_blocks fs) × (k < entries_per_block fs)

abbrev pub IsOther : ℕ → ℕ → ℕ → ℕ → Type 0
IsOther i k i' k' = i' ≡ i → k' ≢ k

pub same_or_IsOther : (i k i' k' : ℕ) → ((i' ≡ i) × (k' ≡ k)) ⊎ IsOther i k i' k'
same_or_IsOther i k i' k' = elim (ℕ_discrete i' i) [
  | no ne ↦ inr (λ e. absurd (ne e))
  | yes e ↦ elim (ℕ_discrete k' k) [ yes e' ↦ inl (e, e') | no ne ↦ inr (λ q. ne) ]
]

module _ (K : Kernel) (fs : DedupFs) where
  -- One entry in use has the key, or none has.
  pub data At (dev : K.Dev) (key : Bytes) : Option (ℕ × ℕ) → Type 0 where
    here :
        (i k : ℕ)
        → IsPlace fs i k
        → is_live K fs dev i k key ≡ true
        → ((i' k' : ℕ) → IsPlace fs i' k' → IsOther i k i' k' → is_live K fs dev i' k' key ≡ false)
        → At dev key (some ((entry_of K fs dev i k).blockptr, (entry_of K fs dev i k).ref_count))
    nowhere : ((i k : ℕ) → IsPlace fs i k → is_live K fs dev i k key ≡ false) → At dev key none

  -- The table on the device holds the keys of the store, and no other.
  abbrev pub Holds : K.Dev → Store → Type 0
  Holds dev store = (key : Bytes) → At dev key (store key)

  At-value :
      (dev dev' : K.Dev) (key : Bytes) (i k : ℕ)
      → IsPlace fs i k
      → is_live K fs dev' i k key ≡ true
      → ((i' k' : ℕ) → IsPlace fs i' k' → IsOther i k i' k' → is_live K fs dev' i' k' key ≡ false)
      → (block count : ℕ) → (entry_of K fs dev' i k).blockptr ≡ block
      → (entry_of K fs dev' i k).ref_count ≡ count
      → At dev' key (some (block, count))
  At-value dev dev' key i k place found others block count at_block at_count =
      rw (← at_block, ← at_count) (here i k place found others)

  -- Equal keys are found alike.
  pub is_live_same :
      (dev : K.Dev) (i k : ℕ) (key key' : Bytes)
      → memcmp key' key 20 ≡ true
      → is_live K fs dev i k key' ≡ is_live K fs dev i k key
  is_live_same dev i k key key' same =
      ap (λ found. not (has_bit (entry_of K fs dev i k).flags ddfs_dedup_free) && found)
        (memcmp_left 20 key' key (entry_of K fs dev i k).key same)

  module _ (dev dev' : K.Dev) (i k : ℕ) (place : IsPlace fs i k)
      (elsewhere : (i' k' : ℕ)
        → IsPlace fs i' k'
        → IsOther i k i' k'
        → Agrees (entry_of K fs dev' i' k') (entry_of K fs dev i' k')) where
    same_elsewhere :
        (key : Bytes) (i' k' : ℕ)
        → IsPlace fs i' k'
        → IsOther i k i' k'
        → is_live K fs dev' i' k' key ≡ is_live K fs dev i' k' key
    same_elsewhere key i' k' inside other =
        Agrees-is_live K fs dev' dev i' k' i' k' key (elsewhere i' k' inside other)

    same_everywhere :
        (key : Bytes)
        → is_live K fs dev i k key ≡ false
        → is_live K fs dev' i k key ≡ false
        → (i' k' : ℕ) → IsPlace fs i' k'
        → is_live K fs dev' i' k' key ≡ is_live K fs dev i' k' key
    same_everywhere key before after i' k' inside = elim (same_or_IsOther i k i' k') [
      | inl (e, e') ↦
          ap₂ (λ a b. is_live K fs dev' a b key) e e'
          ∙ after
          ∙ sym before
          ∙ sym (ap₂ (λ a b. is_live K fs dev a b key) e e')
      | inr other ↦ same_elsewhere key i' k' inside other
    ]

    -- A key that the entry did not have, and does not have now.
    At-kept :
        (key : Bytes) {value : Option (ℕ × ℕ)}
        → is_live K fs dev i k key ≡ false
        → is_live K fs dev' i k key ≡ false
        → At dev key value
        → At dev' key value
    At-kept key before after (nowhere none_of) =
        nowhere
          (λ i' k' inside. same_everywhere key before after i' k' inside ∙ none_of i' k' inside)
    At-kept key before after (here i' k' inside found others) = elim (same_or_IsOther i k i' k') [
      | inl (e, e') ↦
          let q : is_live K fs dev i' k' key ≡ is_live K fs dev i k key =
            ap₂ (λ a b. is_live K fs dev a b key) e e' in
          let wrong : true ≡ false = sym found ∙ q ∙ before in cc
      | inr other ↦
          let agrees = elsewhere i' k' inside other in
          At-value dev dev' key i' k' inside (same_everywhere key before after i' k' inside ∙ found)
            (λ a b inside' other'.
              same_everywhere key before after a b inside' ∙ others a b inside' other')
            (entry_of K fs dev i' k').blockptr (entry_of K fs dev i' k').ref_count agrees.blockptr
            agrees.ref_count
    ]

    -- The entry now has the key, which no other had, and what it was in use for was that key.
    pub Holds-put :
        (store : Store) (key : Bytes) (block count : ℕ)
        → Holds dev store
        → ((key' : Bytes) → is_live K fs dev' i k key' ≡ memcmp key' key 20)
        → (entry_of K fs dev' i k).blockptr ≡ block
        → (entry_of K fs dev' i k).ref_count ≡ count
        → ((i' k' : ℕ) → IsPlace fs i' k' → IsOther i k i' k' → is_live K fs dev i' k' key ≡ false)
        → ((key' : Bytes) → memcmp key' key 20 ≡ false → is_live K fs dev i k key' ≡ false)
        → Holds dev' (put store key (some (block, count)))
    Holds-put store key block count holds now at_block at_count alone mine key' =
        elim (Bool-cases (memcmp key' key 20)) [
          | inl same ↦ rw same (
              At-value dev dev' key' i k place (now key' ∙ same)
                (λ i' k' inside other.
                  same_elsewhere key' i' k' inside other
                  ∙ is_live_same dev i' k' key key' same
                  ∙ alone i' k' inside other)
                block count at_block at_count)
          | inr differs ↦
              rw differs (At-kept key' (mine key' differs) (now key' ∙ differs) (holds key'))
        ]

    -- The entry is not in use any more.
    pub Holds-gone :
        (store : Store) (key : Bytes)
        → Holds dev store
        → ((key' : Bytes) → is_live K fs dev' i k key' ≡ false)
        → ((i' k' : ℕ) → IsPlace fs i' k' → IsOther i k i' k' → is_live K fs dev i' k' key ≡ false)
        → ((key' : Bytes) → memcmp key' key 20 ≡ false → is_live K fs dev i k key' ≡ false)
        → Holds dev' (put store key none)
    Holds-gone store key holds now alone mine key' = elim (Bool-cases (memcmp key' key 20)) [
      | inl same ↦ rw same (
          nowhere (λ i' k' inside. elim (same_or_IsOther i k i' k') [
            | inl (e, e') ↦ ap₂ (λ a b. is_live K fs dev' a b key') e e' ∙ now key'
            | inr other ↦
                same_elsewhere key' i' k' inside other
                ∙ is_live_same dev i' k' key key' same
                ∙ alone i' k' inside other
          ]))
      | inr differs ↦ rw differs (At-kept key' (mine key' differs) (now key') (holds key'))
    ]

  -- The one place of a key that an entry in use has.
  pub At-found :
      (dev : K.Dev) (key : Bytes) (i k : ℕ) {value : Option (ℕ × ℕ)}
      → IsPlace fs i k
      → is_live K fs dev i k key ≡ true
      → At dev key value
      → (value ≡ some ((entry_of K fs dev i k).blockptr, (entry_of K fs dev i k).ref_count))
        × ((i' k' : ℕ) → IsPlace fs i' k' → IsOther i k i' k' → is_live K fs dev i' k' key ≡ false)
  At-found dev key i k place found (nowhere none_of) =
      absurd (ground (arith, found, none_of i k place))
  At-found dev key i k place found (here i' k' inside found' others) =
      elim (same_or_IsOther i' k' i k) [
        | inl (e, e') ↦ rw (e, e') (refl, others)
        | inr other ↦ absurd (ground (arith, found, others i k place other))
      ]

  -- What the store says of a key that no entry has.
  pub At-missing :
      (dev : K.Dev) (key : Bytes) {value : Option (ℕ × ℕ)}
      → ((i k : ℕ) → IsPlace fs i k → is_live K fs dev i k key ≡ false)
      → At dev key value
      → value ≡ none
  At-missing dev key none_of (nowhere _) = refl
  At-missing dev key none_of (here i k place found others) =
      absurd (ground (arith, found, none_of i k place))
