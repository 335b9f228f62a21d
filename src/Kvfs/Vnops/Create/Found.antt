-- ===== src/Kvfs/Vnops/Create/Found.antt =====
-- After `kvfs_create` the search of `kvfs_lookup` finds the new file under its name.
use embedded_operating_syste.Base.{
  ◌^◌, ◌≤◌, ℕ, ◌*◌, ◌<◌, ◌≡◌, refl, true, none, some, List, ◌∷◌, arith, ne→==, ◌∙◌,
}
use embedded_operating_syste.Codec.{hexdigit_kvfs, str_to_key}
use embedded_operating_syste.Codec.Values.{all_hex}
use embedded_operating_syste.Kvfs.Kernel.{Kernel, Fs, IsByteArray, IsReliable}
use embedded_operating_syste.Kvfs.Layout.{sizeof_inode}
use embedded_operating_syste.Kvfs.Vfsops.Load.{GivesVnode}
use embedded_operating_syste.Kvfs.Vnops.{Componentname, kvfs_create, lookup_loop}
use embedded_operating_syste.Kvfs.Vnops.Create.{IsFreeSlot, table_of}
use embedded_operating_syste.Kvfs.Vnops.Create.Table.{matches-kvfs_create}
use embedded_operating_syste.Kvfs.Vnops.Lookup.{none-matches, first_match}
use embedded_operating_syste.Base.{eq→==}
use embedded_operating_syste.Base.{memcmp_refl}

module _ {K : Kernel} {byte : K.Dev → ℕ → ℕ} (A : IsByteArray K byte) (R : IsReliable K) where
  -- On a device that does not fail: when no inode in use has the key of the name, and
  -- `kvfs_create` makes a file of that name in the free slot `n` of the table, the search of
  -- `kvfs_lookup` for the name finds slot `n` afterwards.
  pub lookup_loop-kvfs_create :
      {node : ℕ} {last : K.Vfs} {rest : List ℕ} (n : ℕ) (cnp : Componentname) (fs : Fs K)
      → fs.mount.freelist ≡ (n * sizeof_inode) ∷ rest
      → n < fs.mount.block_count
      → fs.mount.block_count ≤ 2 ^ 31
      → GivesVnode K fs.vfs (n * sizeof_inode) K.lk_exclusive node last
      → IsFreeSlot fs.mount (byte fs.dev) (n * sizeof_inode)
      → all_hex 40 0 cnp.cn_nameptr ≡ true
      → let key = (str_to_key hexdigit_kvfs cnp.cn_nameptr).1 in
        lookup_loop (table_of A R fs) key fs.mount.block_count 0 ≡ none
        → lookup_loop (table_of A R (kvfs_create K cnp fs).2) key fs.mount.block_count 0
          ≡ some (n * sizeof_inode)
  lookup_loop-kvfs_create {node} {rest} n cnp fs head inside small gives slot valid absent =
      let key = (str_to_key hexdigit_kvfs cnp.cn_nameptr).1 in
      let fs' = (kvfs_create K cnp fs).2 in
      let (_, _, slots) = matches-kvfs_create A R n cnp fs (record {
        node = node;
        rest = rest;
        head = head;
        inside = inside;
        gives = gives;
        slot = slot;
        valid = valid;
      }) in
      first_match (table_of A R fs') key fs.mount.block_count 0 n (omega arith) (omega arith)
        (omega arith) (slots key n inside ∙ rw (eq→== n n refl) (memcmp_refl 20 key))
        (λ m a b ne.
          slots key m (omega arith)
          ∙ rw (ne→== m n ne) (
              none-matches (table_of A R fs) key fs.mount.block_count 0 (omega arith) absent m
                (omega arith) (omega arith)))
