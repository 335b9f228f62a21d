-- ===== src/Kvfs/Tests/Ram.antt =====
-- A kernel whose device is an array of bytes and whose vnode layer always has a new vnode; and a
-- small file system on it: bitmap at 4096, inodes at 8192, data at 12288, 16 slots, all free.
use embedded_operating_syste.Base.{
  ℕ, ◌+◌, ◌-◌, ◌*◌, ◌%◌, ◌≡◌, refl, true, false, ◌&&◌, none, [], ◌∷◌, Bytes, arith, if◌then◌else◌,
  ltb, leb, ◌==◌, has_bit,
}
use embedded_operating_syste.Codec.Values.{all_hex}
use embedded_operating_syste.Kvfs.Kernel.{Kernel, Fs, vnon, IsByteArray, IsReliable}
use embedded_operating_syste.Kvfs.Layout.{Mount, sizeof_inode}
use embedded_operating_syste.Kvfs.Vfsops.Load.{GivesVnode}
use embedded_operating_syste.Kvfs.Vnops.{Componentname, create}
use embedded_operating_syste.Kvfs.Vnops.Create.{IsFreeSlot}

abbrev pub ram : Kernel
ram = record {
  Dev = ℕ → ℕ;
  Vfs = ℕ;
  bread = λ d b n. (0, record { b_data = λ i. d (b * 512 + i); b_resid = 0 });
  getblk = λ d b n. record { b_data = λ i. d (b * 512 + i); b_resid = 0 };
  bwrite =
      λ d b n p. (0, λ j. if leb (b * 512) j && ltb j (b * 512 + n) then p (j - b * 512) else d j);
  vfs_hash_get = λ v ino flags. (0, none, v);
  getnewvnode = λ v. (0, v, v + 1);
  vn_lock = λ v x. (0, v);
  insmntque = λ v x. (0, v);
  vfs_hash_insert = λ v x ino flags. (0, none, v);
  vfs_hash_remove = λ v x. v;
  vn_lock_ashare = λ v x. v;
  vref = λ v x. v;
  vrele = λ v x. v;
  vput = λ v x. v;
  vop_unlock = λ v x. v;
  vrecycle = λ v x. v;
  vfs_timestamp = λ v. record { tv_sec = 1_600_000_000; tv_nsec = 5 };
  is_lk_shared = λ flags. false;
  to_lk_exclusive = λ flags. flags;
  lk_exclusive = 1;
}

pub ram_array : IsByteArray ram (λ d. d)
ram_array = record {
  bread_data = λ d b n i ok lt. refl;
  bread_resid = λ d b n ok. refl;
  bwrite_data = λ d b n p j ok. refl;
}

pub ram_reliable : IsReliable ram
ram_reliable = record { bread_ok = λ d b n. refl; bwrite_ok = λ d b n p. refl }

-- The flags of the 16 inodes say free; all else is zero.
abbrev pub disk : ℕ → ℕ
disk a = if leb 8192 a && (ltb a 8704 && (a % 32 == 20)) then 2 else 0

abbrev pub mount : Mount
mount = record {
  freelist_off = 4096;
  inode_off = 8192;
  data_off = 12288;
  block_count = 16;
  flags = 0;
  freelist = (15 * sizeof_inode) ∷ (14 * sizeof_inode) ∷ [];
  freelist_count = 2;
}

abbrev pub fs : Fs ram
fs = record {
  dev = disk;
  vfs = 7;
  mount = mount;
  vnodes = λ v. record { v_data = none; vv_root = v == 3; v_type = vnon };
}

-- Forty times the digit 7.
abbrev pub name : Bytes
name i = b'7'

abbrev pub cnp : Componentname
cnp = record {
  cn_nameptr = name;
  cn_namelen = 40;
  cn_nameiop = create;
  is_last_cn = true;
  cn_lkflags = 1;
}

pub name_valid : all_hex 40 0 name ≡ true
name_valid = refl

pub gives : GivesVnode ram 7 (15 * sizeof_inode) 1 7 8
gives = record {
  vfs₁ = 7;
  vfs₂ = 8;
  vfs₃ = 8;
  vfs₄ = 8;
  missed = refl;
  new = refl;
  locked = refl;
  queued = refl;
  hashed = refl;
}

pub slot : IsFreeSlot mount disk (15 * sizeof_inode)
slot = record {
  aligned = refl;
  whole = refl;
  not_root = ground arith;
  before_table = omega arith;
  free =
      unfold has_bit embedded_operating_syste.Kvfs.Layout.decode_inode
        embedded_operating_syste.Kvfs.Bytes.le in
      refl;
}
