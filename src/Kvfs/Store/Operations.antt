-- ===== src/Kvfs/Store/Operations.antt =====
-- Tables of inodes that hold a store: the search in one, and the changes of one slot.
use native.Mathlib.Decide.{ℕ_discrete}
use embedded_operating_syste.Base.{
  ◌^◌, ◌≤◌, ℕ, ◌*◌, ◌<◌, ◌≡◌, ◌≢◌, refl, true, false, not, ◌&&◌, Option, none, some, Bytes,
  if◌then◌else◌, ◌==◌, memcmp, memcmp_left, memcmp_sym, arith, Bool-cases, inl, inr, eq→==, ne→==,
  ◌∙◌, ap, sym, offset, has_bit,
}
use embedded_operating_syste.Kvfs.Layout.{sizeof_inode, kvfs_inode_free, decode_inode}
use embedded_operating_syste.Kvfs.Store.{Store, put, At, here, nowhere, Holds}
use embedded_operating_syste.Kvfs.Vnops.{lookup_loop}
use embedded_operating_syste.Kvfs.Vnops.Lookup.{matches, first_match, no_match}

-- Equal keys match alike.
matches_same :
    (table key key' : Bytes) (m : ℕ)
    → memcmp key' key 20 ≡ true
    → matches table key' m ≡ matches table key m
matches_same table key key' m same =
    let inode = decode_inode (offset table (m * sizeof_inode)) in
    ap (λ b. not (has_bit inode.flags kvfs_inode_free) && b)
      (memcmp_left 20 key' key inode.key same)

-- Keys that match one slot are equal.
same_of_matches :
    (table key key' : Bytes) (m : ℕ)
    → matches table key m ≡ true
    → matches table key' m ≡ true
    → memcmp key' key 20 ≡ true
same_of_matches table key key' m h h' =
    let inode = decode_inode (offset table (m * sizeof_inode)) in
    let a : memcmp key inode.key 20 ≡ true = ground (arith, h) in
    let b : memcmp key' inode.key 20 ≡ true = ground (arith, h') in
    memcmp_sym 20 key' key ∙ memcmp_left 20 key inode.key key' a ∙ memcmp_sym 20 inode.key key' ∙ b

-- The search on a table that holds a store.
pub lookup_loop-At :
    (table : Bytes) (count : ℕ) (key : Bytes) {value : Option ℕ}
    → count ≤ 2 ^ 31
    → At table count key value
    → lookup_loop table key count 0 ≡ value
lookup_loop-At table count key small (here n inside found others) =
    first_match table key count 0 n (omega arith) (omega arith) (omega arith) found
      (λ m a b ne. others m (omega arith) ne)
lookup_loop-At table count key small (nowhere none_of) =
    no_match table key count 0 (omega arith) (λ m a b. none_of m (omega arith))

-- What the one slot of a key is.
slot_found :
    (table : Bytes) (count : ℕ) (key : Bytes) (n : ℕ) {value : Option ℕ}
    → At table count key value
    → value ≡ some (n * sizeof_inode)
    → (matches table key n ≡ true) × ((m : ℕ) → m < count → m ≢ n → matches table key m ≡ false)
slot_found table count key n (here k inside found others) e =
    let at : k ≡ n = ground (arith, e) in
    (rw (← at) found, λ m lt ne. others m lt (λ q. ne (q ∙ at)))
slot_found table count key n (nowhere none_of) e = cc

slot_missing :
    (table : Bytes) (count : ℕ) (key : Bytes) {value : Option ℕ}
    → At table count key value
    → value ≡ none
    → (m : ℕ) → m < count
    → matches table key m ≡ false
slot_missing table count key (here k inside found others) e = cc
slot_missing table count key (nowhere none_of) e = none_of

At-kept :
    (table table' : Bytes) (count : ℕ) (key : Bytes) {value : Option ℕ}
    → ((m : ℕ) → m < count → matches table' key m ≡ matches table key m)
    → At table count key value
    → At table' count key value
At-kept table table' count key same (here n inside found others) =
    here n inside (same n inside ∙ found) (λ m lt ne. same m lt ∙ others m lt ne)
At-kept table table' count key same (nowhere none_of) = nowhere (λ m lt. same m lt ∙ none_of m lt)

-- A change of slot `n` alone, to `value` for the keys that are `key`.
module _ (table table' : Bytes) (count n : ℕ) (store : Store) (key : Bytes) where
  -- The slot of a key is that of no other.
  not_at :
      (key' : Bytes)
      → memcmp key' key 20 ≡ false
      → matches table key n ≡ true
      → matches table key' n ≡ false
  not_at key' differs found = elim (Bool-cases (matches table key' n)) [
    | inl both ↦ cc (same_of_matches table key key' n found both)
    | inr alone ↦ alone
  ]

  -- The new file's slot matched nothing before.
  pub Holds-put :
      n < count
      → Holds table count store
      → store key ≡ none
      → ((key' : Bytes) → matches table key' n ≡ false)
      → ((key' : Bytes) (m : ℕ)
          → m < count
          → matches table' key' m ≡ (if m == n then memcmp key' key 20 else matches table key' m))
      → Holds table' count (put store key (some (n * sizeof_inode)))
  Holds-put inside holds absent free slots key' = elim (Bool-cases (memcmp key' key 20)) [
    | inl same ↦ rw same (
        here n inside (slots key' n inside ∙ rw (eq→== n n refl) same) (λ m lt ne.
          slots key' m lt
          ∙ rw (ne→== m n ne) (
              matches_same table key key' m same
              ∙ slot_missing table count key (holds key) absent m lt)))
    | inr differs ↦ rw differs (
        At-kept table table' count key'
          (λ m lt. slots key' m lt ∙ elim (ℕ_discrete m n) [
            | yes e ↦ rw (e, eq→== n n refl, differs) (sym (free key'))
            | no ne ↦ rw (ne→== m n ne) refl
          ])
          (holds key'))
  ]

  pub Holds-remove :
      n < count
      → Holds table count store
      → store key ≡ some (n * sizeof_inode)
      → ((key' : Bytes) (m : ℕ)
          → m < count
          → matches table' key' m ≡ (if m == n then false else matches table key' m))
      → Holds table' count (put store key none)
  Holds-remove inside holds present slots key' =
      let (found, others) = slot_found table count key n (holds key) present in
      elim (Bool-cases (memcmp key' key 20)) [
        | inl same ↦ rw same (
            nowhere (λ m lt. slots key' m lt ∙ elim (ℕ_discrete m n) [
              | yes e ↦ rw (eq→== m n e) refl
              | no ne ↦ rw (ne→== m n ne) (matches_same table key key' m same ∙ others m lt ne)
            ]))
        | inr differs ↦ rw differs (
            At-kept table table' count key'
              (λ m lt. slots key' m lt ∙ elim (ℕ_discrete m n) [
                | yes e ↦ rw (e, eq→== n n refl) (sym (not_at key' differs found))
                | no ne ↦ rw (ne→== m n ne) refl
              ])
              (holds key'))
      ]
