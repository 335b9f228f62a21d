-- ===== src/Kvfs/Vnops/Data/Write.antt =====
-- What `kvfs_write` stores: the bytes of the user inside the block, or a store beyond it.
use native.Mathlib.Decide.{dec_lt}
use embedded_operating_syste.Base.{
  ℕ, zero, suc, ◌+◌, ◌-◌, ◌*◌, ◌%◌, ◌^◌, ◌≤◌, ◌<◌, ◌≡◌, ◌≢◌, refl, min, false, ◌&&◌, Bytes, memcpy,
  arith, inl, inr, if◌then◌else◌, ltb, leb, eq→==, ne→==, lt→ltb, le→ltb, ◌∙◌, Bool-cases,
}
use embedded_operating_syste.Kvfs.Kernel.{Kernel, Fs, vreg, IsByteArray, IsReliable}
use embedded_operating_syste.Kvfs.Kernel.Device.{region_written}
use embedded_operating_syste.Kvfs.Layout.{Memnode, blocksize, dev_bsize}
use embedded_operating_syste.Kvfs.Vnops.Data.{
  Uio, Uiomove, Transfers, advance, returns, overflow, in_buffer, write_loop, kvfs_write,
}

module _ {U : Uiomove} (T : Transfers U) (b_resid : ℕ) (full : b_resid ≡ 0) where
  -- What a round moves.
  abbrev moved : ℕ → Uio → ℕ
  moved amt uio = min (min amt blocksize) uio.uio_resid

  -- One round that stays inside the buffer.
  round :
      (fuel amt : ℕ) (b_data : Bytes) (uio : Uio)
      → uio.uio_resid ≢ 0
      → uio.uio_offset + moved amt uio ≤ blocksize
      → write_loop U (suc fuel) amt b_data b_resid uio
        ≡ write_loop U fuel
            (min amt blocksize)
            (memcpy b_data uio.uio_offset
              (U.from_user (min amt blocksize) uio).1
              (uio.uio_resid - (uio.uio_resid - moved amt uio)))
            b_resid
            (advance (moved amt uio) uio)
  unfolding write_loop
  round fuel amt b_data uio some_left fits =
      let size : in_buffer b_resid ≡ blocksize = omega arith in
      rw
        (
          size,
          T.from_user_uio (min amt blocksize) uio,
          T.from_user_error (min amt blocksize) uio,
          ne→== _ _ some_left,
          le→ltb blocksize (uio.uio_offset + (uio.uio_resid - (uio.uio_resid - moved amt uio)))
              (omega arith),
        )
        refl

  round_overflow :
      (fuel amt : ℕ) (b_data : Bytes) (uio : Uio)
      → uio.uio_resid ≢ 0
      → blocksize < uio.uio_offset + moved amt uio
      → write_loop U (suc fuel) amt b_data b_resid uio ≡ overflow
  unfolding write_loop
  round_overflow fuel amt b_data uio some_left over =
      let size : in_buffer b_resid ≡ blocksize = omega arith in
      rw
        (
          size,
          T.from_user_uio (min amt blocksize) uio,
          ne→== _ _ some_left,
          lt→ltb blocksize (uio.uio_offset + (uio.uio_resid - (uio.uio_resid - moved amt uio)))
              (omega arith),
        )
        refl

  finish :
      (fuel amt : ℕ) (b_data : Bytes) (uio : Uio)
      → uio.uio_resid ≡ 0
      → write_loop U (suc fuel) amt b_data b_resid uio ≡ returns (0, b_data, uio)
  unfolding write_loop
  finish fuel amt b_data uio e = rw (eq→== _ _ e) refl

  -- Rounds that reach beyond the buffer in the end store there.
  pub write_loop_overflow :
      (fuel amt : ℕ) (b_data : Bytes) (uio : Uio)
      → uio.uio_resid < fuel
      → 0 < amt
      → uio.uio_resid ≢ 0
      → blocksize < uio.uio_offset + uio.uio_resid
      → write_loop U fuel amt b_data b_resid uio ≡ overflow
  write_loop_overflow zero amt b_data uio h pos more over = absurd (omega arith)
  write_loop_overflow (suc fuel) amt b_data uio h pos more over =
      elim (dec_lt blocksize (uio.uio_offset + moved amt uio)) [
        | yes now ↦ round_overflow fuel amt b_data uio more now
        | no later ↦
            round fuel amt b_data uio more (omega arith)
            ∙ write_loop_overflow fuel (min amt blocksize)
                (memcpy b_data uio.uio_offset (U.from_user (min amt blocksize) uio).1
                  (uio.uio_resid - (uio.uio_resid - moved amt uio)))
                (advance (moved amt uio) uio) (omega arith) (omega arith) (omega arith)
                (omega arith)
      ]

  -- A write that fits takes one round.
  pub write_loop_fits :
      (fuel : ℕ) (b_data : Bytes) (uio : Uio)
      → uio.uio_resid ≢ 0
      → uio.uio_offset + uio.uio_resid ≤ blocksize
      → write_loop U (suc (suc fuel)) uio.uio_resid b_data b_resid uio
        ≡ returns (
          0,
          memcpy b_data uio.uio_offset (U.from_user uio.uio_resid uio).1 uio.uio_resid,
          advance uio.uio_resid uio,
        )
  write_loop_fits fuel b_data uio more fits =
      let whole : min uio.uio_resid blocksize ≡ uio.uio_resid = omega arith in
      let same : min uio.uio_resid uio.uio_resid ≡ uio.uio_resid = omega arith in
      let count : uio.uio_resid - (uio.uio_resid - uio.uio_resid) ≡ uio.uio_resid = omega arith in
      rw (round (suc fuel) uio.uio_resid b_data uio more (omega arith)) (
        rw (whole, same, count)
          (finish fuel uio.uio_resid _ (advance uio.uio_resid uio) (omega arith)))

-- On a device that does not fail, a `kvfs_write` that is no append, of at least one byte, and
-- ends inside the file returns 0 with all bytes taken. The user's bytes then stand in the file's
-- block from the offset on, and every other byte of the device is as before.
pub kvfs_write_fits :
    {U : Uiomove} {K : Kernel} {byte : K.Dev → ℕ → ℕ} (knode : Memnode) (uio : Uio) (fs : Fs K)
    → Transfers U
    → IsByteArray K byte
    → IsReliable K
    → uio.uio_resid ≢ 0
    → uio.uio_offset + uio.uio_resid ≤ blocksize
    → (dev : K.Dev) × (kvfs_write U K vreg knode false uio fs
        ≡ returns (0, advance uio.uio_resid uio, record fs { dev = dev }))
      × ((a : ℕ)
          → let from = knode.lbn * dev_bsize + uio.uio_offset in
            byte dev a ≡ (
              if leb from a && ltb a (from + uio.uio_resid)
              then uio.user (uio.pos + (a - from))
              else byte fs.dev a))
unfolding kvfs_write
kvfs_write_fits {U} {K} {byte} knode uio fs T A R more fits =
    let ok = R.bread_ok fs.dev knode.lbn blocksize in
    let bp = (K.bread fs.dev knode.lbn blocksize).1 in
    let src = (U.from_user uio.uio_resid uio).1 in
    let from = knode.lbn * dev_bsize + uio.uio_offset in
    let amt : uio.uio_resid % 2 ^ 32 ≡ uio.uio_resid = omega arith in
    let fuel : uio.uio_resid + 1 ≡ suc (suc (uio.uio_resid - 1)) = omega arith in
    (
      (K.bwrite fs.dev knode.lbn blocksize (memcpy bp.b_data uio.uio_offset src uio.uio_resid)).1,
      rw
          (
            ne→== uio.uio_resid 0 more,
            ok,
            fuel,
            amt,
            write_loop_fits T bp.b_resid (A.bread_resid fs.dev knode.lbn blocksize ok)
                (uio.uio_resid - 1) bp.b_data uio more fits,
          )
          refl,
      λ a.
          region_written fs.dev knode.lbn blocksize uio.uio_offset uio.uio_resid src A R fits a
          ∙ (elim (Bool-cases (leb from a && ltb a (from + uio.uio_resid))) [
            | inl e ↦ rw (e) (T.from_user_bytes uio.uio_resid uio (a - from) (ground arith))
            | inr e ↦ rw e refl
          ]),
    )

-- On a device that does not fail, a `kvfs_write` of less than 2 ^ 31 bytes that reaches beyond
-- the 4096 bytes of the file is not refused: it stores beyond the end of the buffer.
pub kvfs_write_overflow :
    {U : Uiomove} {K : Kernel} {byte : K.Dev → ℕ → ℕ} (knode : Memnode) (uio : Uio) (fs : Fs K)
    → Transfers U
    → IsByteArray K byte
    → IsReliable K
    → uio.uio_resid ≢ 0
    → uio.uio_resid < 2 ^ 31
    → blocksize < uio.uio_offset + uio.uio_resid
    → kvfs_write U K vreg knode false uio fs ≡ overflow
unfolding kvfs_write
kvfs_write_overflow {U} {K} {byte} knode uio fs T A R more small over =
    let ok = R.bread_ok fs.dev knode.lbn blocksize in
    let bp = (K.bread fs.dev knode.lbn blocksize).1 in
    let amt : uio.uio_resid % 2 ^ 32 ≡ uio.uio_resid = omega arith in
    rw
      (
        ne→== uio.uio_resid 0 more,
        ok,
        amt,
        write_loop_overflow T bp.b_resid (A.bread_resid fs.dev knode.lbn blocksize ok)
            (uio.uio_resid + 1) uio.uio_resid bp.b_data uio (omega arith) (omega arith) more over,
      )
      refl
