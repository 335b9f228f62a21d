-- ===== src/Kvfs/Vnops/Directory.antt =====
-- key-value-fs/src/kvfs_vnops.c: `kvfs_readdir`. The size of an entry, `_GENERIC_DIRLEN`, and the
-- `uiomove` of a `struct dirent` are the kernel's.
pub mod Listing
use embedded_operating_syste.Base.{
  ◌^◌, ◌%◌, ℕ, zero, suc, ◌+◌, ◌*◌, ◌^◌, Bool, true, false, not, ◌||◌, List, [], ◌∷◌, ltb, leb,
  ◌==◌, if◌then◌else◌, Bytes, zeroes, offset, has_bit,
}
use embedded_operating_syste.Codec.{key_to_str}
use embedded_operating_syste.Kvfs.Kernel.{Kernel, Fs, VnodeType, vdir, enotdir, einval}
use embedded_operating_syste.Kvfs.Layout.{
  Inode, decode_inode, kvfs_root_ino, kvfs_inode_free, kvfs_key_strlen, sizeof_inode, inode_idx,
  btodb, pad,
}

-- A C string with its `strlen`.
pub record Name : Type 0 where
  pub chars : Bytes
  pub strlen : ℕ

pub data DirentType : Type 0 where
  dt_dir dt_reg : DirentType

-- `struct dirent`; `d_namlen` is the name's.
pub record Dirent : Type 0 where
  pub d_fileno : ℕ
  pub d_off : ℕ
  pub d_reclen : ℕ
  pub d_type : DirentType
  pub d_name : Name

-- `struct uio` and the entries that have gone out. `uio_offset` is a 64-bit pattern.
pub record DirUio : Type 0 where
  pub uio_resid : ℕ
  pub uio_offset : ℕ
  pub written : List Dirent

pub record DirOut : Type 0 where
  pub generic_dirlen : ℕ → ℕ
  pub uiomove : Dirent → ℕ → DirUio → ℕ × DirUio

abbrev pub dot : Name
dot = record { chars = λ i. if i == 0 then b'.' else 0; strlen = 1 }

abbrev pub dotdot : Name
dotdot = record { chars = λ i. if ltb i 2 then b'.' else 0; strlen = 2 }

abbrev pub key_name : Inode → Name
key_name inode = record { chars = key_to_str inode.key zeroes; strlen = kvfs_key_strlen }

abbrev pub is_vdir : VnodeType → Bool
is_vdir vdir = true
is_vdir _ = false

module _ (O : DirOut) where
  -- The error, `*reclenp` and the `uio`.
  unfoldable pub kvfs_readdir_one : DirUio → Name → ℕ → DirentType → ℕ × ℕ × DirUio
  kvfs_readdir_one uio name fileno type =
      let reclen = O.generic_dirlen name.strlen in
      let dirent : Dirent = record {
        d_fileno = fileno;
        d_off = uio.uio_offset + reclen;
        d_reclen = reclen;
        d_type = type;
        d_name = name;
      } in
      let (error, uio') = O.uiomove dirent reclen uio in
      if ltb uio.uio_resid reclen then (einval, reclen, uio) else (error, reclen, uio')

  -- The call without a `uio`.
  unfoldable pub kvfs_dirent_reclen : Name → ℕ
  kvfs_dirent_reclen name = O.generic_dirlen name.strlen

  -- `out`
  abbrev pub readdir_out : (initial_resid error reclen : ℕ) → DirUio → ℕ × DirUio
  readdir_out initial_resid error reclen uio =
      if uio.uio_resid == initial_resid
      then (error, uio)
      else if ltb uio.uio_resid reclen
      then (0, uio)
      else (error, uio)

  -- The loop over the inodes, from `i` on with `n` left.
  unfoldable pub readdir_loop : ℕ → ℕ → Bytes → ℕ → ℕ → DirUio → ℕ × DirUio
  readdir_loop zero i b_data initial_resid reclens uio = (0, uio)
  readdir_loop (suc n) i b_data initial_resid reclens uio =
      let ino = inode_idx i in
      let inode = decode_inode (offset b_data ino) in
      let name = key_name inode in
      let (error, reclen, uio') = kvfs_readdir_one uio name ino dt_reg in
      let next = readdir_loop n (i + 1) b_data initial_resid reclens uio in
      let seen =
        readdir_loop n (i + 1) b_data initial_resid (reclens + kvfs_dirent_reclen name) uio in
      let rest = readdir_loop n (i + 1) b_data initial_resid (reclens + reclen) uio' in
      if has_bit inode.flags kvfs_inode_free
      then next
      else if ltb reclens uio.uio_offset
      then seen
      else if not (uio.uio_offset == reclens)
      then (einval, uio)
      else if not (error == 0)
      then readdir_out initial_resid error reclen uio'
      else rest

  -- From the read of the inodes on.
  unfoldable pub readdir_inodes : (K : Kernel) → ℕ → ℕ → DirUio → Fs K → ℕ × DirUio
  readdir_inodes K initial_resid reclens uio fs =
      let (error, bp) =
        K.bread fs.dev (btodb fs.mount.inode_off)
          (pad (fs.mount.block_count * sizeof_inode) % 2 ^ 32) in
      if not (error == 0)
      then (error, uio)
      else readdir_loop fs.mount.block_count 0 bp.b_data initial_resid reclens uio

  -- From the entry ".." on.
  unfoldable pub readdir_dotdot : (K : Kernel) → ℕ → DirUio → Fs K → ℕ × DirUio
  readdir_dotdot K initial_resid uio fs =
      let reclens = kvfs_dirent_reclen dot in
      let (error, reclen, uio') = kvfs_readdir_one uio dotdot kvfs_root_ino dt_dir in
      let reclens' = reclens + kvfs_dirent_reclen dotdot in
      if not (leb uio.uio_offset reclens)
      then readdir_inodes K initial_resid reclens' uio fs
      else if not (uio.uio_offset == reclens)
      then (einval, uio)
      else if not (error == 0)
      then readdir_out initial_resid error reclen uio'
      else readdir_inodes K initial_resid reclens' uio' fs

  unfoldable pub kvfs_readdir : (K : Kernel) → Bool → VnodeType → DirUio → Fs K → ℕ × DirUio
  kvfs_readdir K vv_root v_type uio fs =
      let (error, reclen, uio') = kvfs_readdir_one uio dot kvfs_root_ino dt_dir in
      if not vv_root || not (is_vdir v_type)
      then (enotdir, uio)
      else if leb (2 ^ 63) uio.uio_offset
      then (einval, uio)
      else if not (uio.uio_offset == 0)
      then readdir_dotdot K uio.uio_resid uio fs
      else if not (error == 0)
      then readdir_out uio.uio_resid error reclen uio'
      else readdir_dotdot K uio.uio_resid uio' fs
