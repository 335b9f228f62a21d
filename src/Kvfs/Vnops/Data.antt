-- ===== src/Kvfs/Vnops/Data.antt =====
-- key-value-fs/src/kvfs_vnops.c: `kvfs_read` and `kvfs_write`, with the kernel's `uiomove` as an
-- interface. The loops run on fuel.
pub mod Read
pub mod RoundTrip
pub mod Write
use embedded_operating_syste.Base.{
  ℕ, zero, suc, ◌+◌, ◌-◌, ◌%◌, ◌^◌, ◌≤◌, ◌<◌, ◌≡◌, min, Bool, true, false, not, ◌||◌, Option, none,
  some, ltb, leb, ◌==◌, if◌then◌else◌, Bytes, memcpy,
}
use embedded_operating_syste.Kvfs.Kernel.{Kernel, Fs, Buf, VnodeType, vreg, eisdir, einval}
use embedded_operating_syste.Kvfs.Layout.{Memnode, blocksize}

-- `struct uio` and the user's memory behind it: `user` from `pos` on is what the next transfer
-- reads or writes. `uio_offset` is a 64-bit pattern, negative from 2 ^ 63 on.
pub record Uio : Type 0 where
  pub uio_resid : ℕ
  pub uio_offset : ℕ
  pub user : Bytes
  pub pos : ℕ

-- `uiomove` out of and into the kernel: an error and the new `uio`; and for the second the bytes
-- that it stores.
pub record Uiomove : Type 0 where
  pub to_user : Bytes → ℕ → Uio → ℕ × Uio
  pub from_user : ℕ → Uio → ℕ × Bytes × Uio

abbrev pub advance : ℕ → Uio → Uio
advance m uio = record uio {
  uio_resid = uio.uio_resid - m;
  uio_offset = uio.uio_offset + m;
  pos = uio.pos + m;
}

-- `uiomove(9)` where the user's memory can be accessed: it moves `n` bytes, or what is left.
pub record Transfers (U : Uiomove) : Type 0 where
  pub to_user_lem :
      (p : Bytes) (n : ℕ) (uio : Uio)
      → U.to_user p n uio ≡ (
        0,
        record (advance (min n uio.uio_resid) uio) {
          user = memcpy uio.user uio.pos p (min n uio.uio_resid);
        },
      )
  pub from_user_error : (n : ℕ) (uio : Uio) → (U.from_user n uio).0 ≡ 0
  pub from_user_bytes :
      (n : ℕ) (uio : Uio) (i : ℕ)
      → i < min n uio.uio_resid
      → (U.from_user n uio).1 i ≡ uio.user (uio.pos + i)
  pub from_user_uio :
      (n : ℕ) (uio : Uio) → (U.from_user n uio).2 ≡ advance (min n uio.uio_resid) uio

pub data Outcome {ℓ} (A : Type ℓ) : Type ℓ where
  returns : A → Outcome A
  -- a store beyond the end of the buffer
  overflow : Outcome A
  out_of_fuel : Outcome A

abbrev pub is_vreg : VnodeType → Bool
is_vreg vreg = true
is_vreg _ = false

-- `BLOCKSIZE - bp->b_resid`, as the `u_int` that `min` takes
abbrev pub in_buffer : ℕ → ℕ
in_buffer b_resid = (2 ^ 32 + blocksize - b_resid) % 2 ^ 32

module _ (U : Uiomove) where
  unfoldable pub read_loop : ℕ → ℕ → ℕ → Buf → Uio → Outcome (ℕ × Uio)
  read_loop zero error amt bp uio = out_of_fuel
  read_loop (suc fuel) error amt bp uio =
      let amt' = min amt (in_buffer bp.b_resid) in
      let (error', uio') = U.to_user bp.b_data amt' uio in
      let rest = read_loop fuel error' amt' bp uio' in
      if uio.uio_resid == 0
      then returns (error, uio)
      else if not (error' == 0)
      then returns (error', uio')
      else rest

  -- The error of `bread` is overwritten in the loop. `amt` is the residue as a `u_int`.
  unfoldable pub kvfs_read : (K : Kernel) → VnodeType → Memnode → Uio → Fs K → Outcome (ℕ × Uio)
  unfolding read_loop
  kvfs_read K v_type knode uio fs =
      if not (is_vreg v_type)
      then returns (eisdir, uio)
      else if leb (2 ^ 63) uio.uio_offset
      then returns (einval, uio)
      else if (uio.uio_resid == 0) || leb blocksize uio.uio_offset
      then returns (0, uio)
      else let (error, bp) = K.bread fs.dev knode.lbn blocksize in
        read_loop (uio.uio_resid + 1) error (uio.uio_resid % 2 ^ 32) bp uio

  -- The buffer after the loop, or the error of `uiomove`.
  unfoldable pub write_loop : ℕ → ℕ → Bytes → ℕ → Uio → Outcome (ℕ × Bytes × Uio)
  write_loop zero amt b_data b_resid uio = out_of_fuel
  write_loop (suc fuel) amt b_data b_resid uio =
      let amt' = min amt (in_buffer b_resid) in
      let (error, bytes, uio') = U.from_user amt' uio in
      let moved = uio.uio_resid - uio'.uio_resid in
      let rest = write_loop fuel amt' (memcpy b_data uio.uio_offset bytes moved) b_resid uio' in
      if uio.uio_resid == 0
      then returns (0, b_data, uio)
      else if ltb blocksize (uio.uio_offset + moved)
      then overflow
      else if not (error == 0)
      then returns (error, b_data, uio')
      else rest

  unfoldable pub kvfs_write :
      (K : Kernel)
      → VnodeType
      → Memnode
      → (io_append : Bool) → Uio
      → Fs K
      → Outcome (ℕ × Uio × Fs K)
  unfolding write_loop
  kvfs_write K v_type knode io_append uio fs =
      if not (is_vreg v_type)
      then returns (eisdir, uio, fs)
      else if uio.uio_resid == 0
      then returns (0, uio, fs)
      else if io_append
      then returns (einval, uio, fs)
      else let (error, bp) = K.bread fs.dev knode.lbn blocksize in
        if not (error == 0)
        then returns (error, uio, fs)
        else elim (write_loop (uio.uio_resid + 1) (uio.uio_resid % 2 ^ 32) bp.b_data bp.b_resid
            uio) [
              | overflow ↦ overflow
              | out_of_fuel ↦ out_of_fuel
              | returns (error, b_data, uio') ↦
                  if not (error == 0)
                  then returns (error, uio', fs)
                  else returns
                      (0, uio', record fs { dev = (K.bwrite fs.dev knode.lbn blocksize b_data).1 })
            ]
