-- ===== src/Kvfs/Vnops/Directory/Listing.antt =====
-- What `kvfs_readdir` lists.
use mathlib.Core.List.{append-nil, append_assoc}
use embedded_operating_syste.Base.{
  ◌<◌, ◌^◌, ◌%◌, ℕ, zero, suc, ◌+◌, ◌-◌, ◌*◌, ◌≤◌, ◌≡◌, refl, true, List, [], ◌∷◌, ◌++◌,
  if◌then◌else◌, Bytes, offset, has_bit, arith, le→ltb, le→leb, eq→==, ◌∙◌, ap, Bool-cases, inl,
  inr,
}
use embedded_operating_syste.Kvfs.Kernel.{Kernel, Fs, vdir, IsReliable}
use embedded_operating_syste.Kvfs.Layout.{
  decode_inode, kvfs_root_ino, kvfs_inode_free, sizeof_inode, inode_idx_small, btodb, pad,
  kvfs_key_strlen,
}
use embedded_operating_syste.Kvfs.Vnops.Directory.{
  Name, Dirent, DirentType, dt_dir, dt_reg, DirUio, DirOut, dot, dotdot, key_name, kvfs_readdir_one,
  kvfs_dirent_reclen, readdir_loop, readdir_inodes, readdir_dotdot, kvfs_readdir,
}

-- `uiomove(9)` of an entry that fits.
pub record MovesDirents (O : DirOut) : Type 0 where
  pub moved :
      (d : Dirent) (n : ℕ) (uio : DirUio)
      → n ≤ uio.uio_resid
      → O.uiomove d n uio ≡ (
        0,
        record {
          uio_resid = uio.uio_resid - n;
          uio_offset = uio.uio_offset + n;
          written = uio.written ++ d ∷ [];
        },
      )

-- The indices of the inodes in use, of `n` from `i` on.
abbrev pub in_use : Bytes → ℕ → ℕ → List ℕ
in_use table zero i = []
in_use table (suc n) i =
    let rest = in_use table n (i + 1) in
    if has_bit (decode_inode (offset table (i * sizeof_inode))).flags kvfs_inode_free
    then rest
    else i ∷ rest

module _ (O : DirOut) where
  -- One entry at an offset.
  abbrev pub entry : Name → ℕ → DirentType → ℕ → Dirent
  entry name fileno type at = record {
    d_fileno = fileno;
    d_off = at + O.generic_dirlen name.strlen;
    d_reclen = O.generic_dirlen name.strlen;
    d_type = type;
    d_name = name;
  }

  -- The entries of files, one behind the other from an offset on.
  abbrev pub files : Bytes → List ℕ → ℕ → List Dirent
  files table [] at = []
  files table (i ∷ rest) at =
      let name = key_name (decode_inode (offset table (i * sizeof_inode))) in
      entry name (i * sizeof_inode) dt_reg at
      ∷ files table rest (at + O.generic_dirlen kvfs_key_strlen)

  one_moved :
      (uio : DirUio) (name : Name) (fileno : ℕ) (type : DirentType)
      → MovesDirents O
      → O.generic_dirlen name.strlen ≤ uio.uio_resid
      → kvfs_readdir_one O uio name fileno type ≡ (
        0,
        O.generic_dirlen name.strlen,
        record {
          uio_resid = uio.uio_resid - O.generic_dirlen name.strlen;
          uio_offset = uio.uio_offset + O.generic_dirlen name.strlen;
          written = uio.written ++ entry name fileno type uio.uio_offset ∷ [];
        },
      )
  unfolding kvfs_readdir_one
  one_moved uio name fileno type moves fits =
      rw
        (
          le→ltb uio.uio_resid (O.generic_dirlen name.strlen) fits,
          moves.moved (entry name fileno type uio.uio_offset) (O.generic_dirlen name.strlen) uio
              fits,
        )
        refl

  -- The bytes of the entries of files.
  abbrev pub sizes : List ℕ → ℕ
  sizes [] = 0
  sizes (i ∷ rest) = O.generic_dirlen kvfs_key_strlen + sizes rest

  -- The state after these entries.
  abbrev pub listed : Bytes → List ℕ → DirUio → DirUio
  listed table entries uio = record {
    uio_resid = uio.uio_resid - sizes entries;
    uio_offset = uio.uio_offset + sizes entries;
    written = uio.written ++ files table entries uio.uio_offset;
  }

  listed-cons :
      (table : Bytes) (i : ℕ) (rest : List ℕ) (uio : DirUio)
      → let size = O.generic_dirlen kvfs_key_strlen in
        let d =
          entry
            (key_name (decode_inode (offset table (i * sizeof_inode))))
            (i * sizeof_inode)
            dt_reg
            uio.uio_offset in
        listed table rest (record {
          uio_resid = uio.uio_resid - size;
          uio_offset = uio.uio_offset + size;
          written = uio.written ++ d ∷ [];
        })
        ≡ listed table (i ∷ rest) uio
  listed-cons table i rest uio =
      let size = O.generic_dirlen kvfs_key_strlen in
      let d =
        entry (key_name (decode_inode (offset table (i * sizeof_inode)))) (i * sizeof_inode) dt_reg
          uio.uio_offset in
      let left : uio.uio_resid - size - sizes rest ≡ uio.uio_resid - (size + sizes rest) =
        omega arith in
      let at : uio.uio_offset + size + sizes rest ≡ uio.uio_offset + (size + sizes rest) =
        omega arith in
      rw (left, at, append_assoc uio.written (d ∷ []) (files table rest (uio.uio_offset + size)))
        refl

  readdir_loop-listed :
      (n i : ℕ) (table : Bytes) (initial_resid : ℕ) (uio : DirUio)
      → MovesDirents O
      → i + n ≤ 2 ^ 31
      → sizes (in_use table n i) ≤ uio.uio_resid
      → readdir_loop O n i table initial_resid uio.uio_offset uio
        ≡ (0, listed table (in_use table n i) uio)
  unfolding readdir_loop
  readdir_loop-listed zero i table initial_resid uio moves small fits =
      let none_left : uio.uio_resid - 0 ≡ uio.uio_resid = omega arith in
      let here : uio.uio_offset + 0 ≡ uio.uio_offset = omega arith in
      rw (none_left, here, append-nil uio.written) refl
  readdir_loop-listed (suc n) i table initial_resid uio moves small fits =
      let inode = decode_inode (offset table (i * sizeof_inode)) in
      let size = O.generic_dirlen kvfs_key_strlen in
      elim (Bool-cases (has_bit inode.flags kvfs_inode_free)) [
        | inl free ↦
            rw (inode_idx_small i (omega arith), free)
              (readdir_loop-listed n (i + 1) table initial_resid uio moves (omega arith)
                (rw free at fits))
        | inr used ↦
            let room : size + sizes (in_use table n (i + 1)) ≤ uio.uio_resid = rw used at fits in
            let d = entry (key_name inode) (i * sizeof_inode) dt_reg uio.uio_offset in
            let uio' : DirUio = record {
              uio_resid = uio.uio_resid - size;
              uio_offset = uio.uio_offset + size;
              written = uio.written ++ d ∷ [];
            } in
            rw
              (
                inode_idx_small i (omega arith),
                used,
                le→ltb uio.uio_offset uio.uio_offset (omega arith),
                eq→== uio.uio_offset uio.uio_offset refl,
                one_moved uio (key_name inode) (i * sizeof_inode) dt_reg moves (omega arith),
              )
              (readdir_loop-listed n (i + 1) table initial_resid uio' moves (omega arith)
                  (omega arith)
                ∙ ap (λ r. (0, r)) (listed-cons table i (in_use table n (i + 1)) uio))
      ]

  -- The state after "." and "..".
  abbrev pub dots : ℕ → List Dirent → DirUio
  dots resid before =
      let first = O.generic_dirlen 1 in
      let second = O.generic_dirlen 2 in
      record {
        uio_resid = resid - first - second;
        uio_offset = 0 + first + second;
        written =
            (before ++ entry dot kvfs_root_ino dt_dir 0 ∷ [])
            ++ entry dotdot kvfs_root_ino dt_dir (0 + first) ∷ [];
      }

  -- On a device that does not fail, with an inode table of less than 2 ^ 31 bytes, `kvfs_readdir` of the root from offset 0 with room for all
  -- entries returns 0, and has written ".", ".." and then an entry for each inode of the table
  -- that is in use, in the order of the table: its number, the digits of its key, and the offset
  -- of the entry behind it.
  pub kvfs_readdir-listed :
      {K : Kernel} (resid : ℕ) (before : List Dirent) (fs : Fs K)
      → MovesDirents O
      → IsReliable K
      → pad (fs.mount.block_count * sizeof_inode) < 2 ^ 31
      → let table =
          (K.bread fs.dev
            (btodb fs.mount.inode_off)
            (pad (fs.mount.block_count * sizeof_inode))).1.b_data in
        let used = in_use table fs.mount.block_count 0 in
        O.generic_dirlen 1 + O.generic_dirlen 2 + sizes used ≤ resid
        → kvfs_readdir O K true vdir
            (record { uio_resid = resid; uio_offset = 0; written = before })
            fs
          ≡ (0, listed table used (dots resid before))
  unfolding kvfs_readdir readdir_dotdot readdir_inodes kvfs_dirent_reclen
  kvfs_readdir-listed {K} resid before fs moves R small fits =
      let first = O.generic_dirlen 1 in
      let second = O.generic_dirlen 2 in
      let table =
        (K.bread fs.dev (btodb fs.mount.inode_off)
          (pad (fs.mount.block_count * sizeof_inode))).1.b_data in
      let uio : DirUio = record { uio_resid = resid; uio_offset = 0; written = before } in
      let uio₁ : DirUio = record {
        uio_resid = resid - first;
        uio_offset = 0 + first;
        written = before ++ entry dot kvfs_root_ino dt_dir 0 ∷ [];
      } in
      let size : pad (fs.mount.block_count * sizeof_inode) % 2 ^ 32
          ≡ pad (fs.mount.block_count * sizeof_inode) =
        omega arith in
      let sum : first + second ≡ 0 + first + second = omega arith in
      rw
        (
          one_moved uio dot kvfs_root_ino dt_dir moves (omega arith),
          one_moved uio₁ dotdot kvfs_root_ino dt_dir moves (omega arith),
          le→leb (0 + first) first (omega arith),
          eq→== (0 + first) first (omega arith),
          sum,
          size,
          R.bread_ok fs.dev (btodb fs.mount.inode_off) (pad (fs.mount.block_count * sizeof_inode)),
        )
        (readdir_loop-listed fs.mount.block_count 0 table resid (dots resid before) moves
          (omega arith) (omega arith))
