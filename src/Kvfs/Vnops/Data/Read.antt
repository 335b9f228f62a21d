-- ===== src/Kvfs/Vnops/Data/Read.antt =====
-- What `kvfs_read` delivers.
use embedded_operating_syste.Base.{
  ℕ, zero, suc, ◌+◌, ◌-◌, ◌*◌, ◌%◌, ◌^◌, ◌≤◌, ◌<◌, ◌≡◌, ◌≢◌, refl, min, Bytes, memcpy,
  memcpy_inside, memcpy_before, arith, ◌⊎◌, inl, inr, eq→==, ne→==, ◌∙◌, ap, lt→leb,
}
use native.Mathlib.Decide.{ℕ_discrete, dec_lt}
use embedded_operating_syste.Kvfs.Kernel.{Kernel, Fs, Buf, vreg, IsByteArray, IsReliable}
use embedded_operating_syste.Kvfs.Layout.{Memnode, blocksize, dev_bsize}
use embedded_operating_syste.Kvfs.Vnops.Data.{
  Uio, Uiomove, Transfers, advance, Outcome, returns, in_buffer, read_loop, kvfs_read,
}

-- The result is a return of error 0, and the rest holds of the `uio`.
pub data Reads (P : Uio → Type 0) : Outcome (ℕ × Uio) → Type 0 where
  reads : {uio : Uio} → P uio → Reads P (returns (0, uio))

-- `r` bytes have gone out from `pos` on: the block again and again from its start.
pub record Repeats (b_data : Bytes) (before : Uio) (after : Uio) : Type 0 where
  pub all_moved : after.uio_resid ≡ 0
  pub bytes : (i : ℕ) → i < before.uio_resid → after.user (before.pos + i) ≡ b_data (i % blocksize)
  pub kept : (j : ℕ) → j < before.pos → after.user j ≡ before.user j

pub Reads-mono :
    {P Q : Uio → Type 0} {r : Outcome (ℕ × Uio)}
    → Reads P r
    → ((uio : Uio) → P uio → Q uio)
    → Reads Q r
Reads-mono (reads p) weaken = reads (weaken _ p)

module _ {U : Uiomove} (T : Transfers U) (bp : Buf) (full : bp.b_resid ≡ 0) where
  -- One round with something left to read.
  round :
      (fuel error amt : ℕ) (uio : Uio)
      → uio.uio_resid ≢ 0
      → read_loop U (suc fuel) error amt bp uio
        ≡ read_loop U fuel 0
            (min amt blocksize)
            bp
            (record (advance (min (min amt blocksize) uio.uio_resid) uio) {
              user = memcpy uio.user uio.pos bp.b_data (min (min amt blocksize) uio.uio_resid);
            })
  unfolding read_loop
  round fuel error amt uio some_left =
      let size : in_buffer bp.b_resid ≡ blocksize = omega arith in
      rw (size, T.to_user_lem bp.b_data (min amt blocksize) uio, ne→== _ _ some_left) refl

  finish :
      (fuel error amt : ℕ) (uio : Uio)
      → uio.uio_resid ≡ 0
      → read_loop U (suc fuel) error amt bp uio ≡ returns (error, uio)
  unfolding read_loop
  finish fuel error amt uio e = rw (eq→== _ _ e) refl

  -- A round's bytes and those of the later rounds.
  Repeats-step :
      (m : ℕ) (uio after : Uio)
      → m ≤ blocksize
      → (m ≡ blocksize) ⊎ (m ≡ uio.uio_resid)
      → Repeats bp.b_data
          (record (advance m uio) { user = memcpy uio.user uio.pos bp.b_data m })
          after
      → Repeats bp.b_data uio after
  Repeats-step m uio after small whole rest = record {
    all_moved = rest.all_moved;
    bytes = λ i lt. elim (dec_lt i m) [
      | yes now ↦
          rest.kept (uio.pos + i) (omega arith)
          ∙ memcpy_inside uio.user uio.pos bp.b_data m i now
          ∙ ap bp.b_data (omega arith)
      | no later ↦
          ap after.user (omega arith)
          ∙ rest.bytes (i - m) (omega arith)
          ∙ ap bp.b_data (omega arith)
    ];
    kept = λ j lt. rest.kept j (omega arith) ∙ memcpy_before uio.user uio.pos bp.b_data m j lt;
  }

  pub read_loop-Repeats :
      (fuel error amt : ℕ) (uio : Uio)
      → uio.uio_resid < fuel
      → (blocksize ≤ amt) ⊎ (uio.uio_resid ≤ amt)
      → (uio.uio_resid ≢ 0) ⊎ (error ≡ 0)
      → Reads (Repeats bp.b_data uio) (read_loop U fuel error amt bp uio)
  read_loop-Repeats zero error amt uio h c e = absurd (omega arith)
  read_loop-Repeats (suc fuel) error amt uio h c e = elim (ℕ_discrete uio.uio_resid 0) [
    | yes done ↦ elim e [
      | inl ne ↦ absurd (ne done)
      | inr ok ↦
          rw (finish fuel error amt uio done, ok)
            (reads (record {
              all_moved = done;
              bytes = λ i lt. absurd (omega arith);
              kept = λ j lt. refl;
            }))
    ]
    | no more ↦
        let m = min (min amt blocksize) uio.uio_resid in
        rw (round fuel error amt uio more) (
          Reads-mono
            (read_loop-Repeats fuel 0 (min amt blocksize)
              (record (advance m uio) { user = memcpy uio.user uio.pos bp.b_data m }) (omega arith)
              (omega arith) (inr refl))
            (λ after rest. Repeats-step m uio after (omega arith) (omega arith) rest))
  ]

-- On a device that does not fail, `kvfs_read` of less than 2 ^ 31 bytes at an offset inside the
-- file returns 0 with no byte left to read. It delivers the first bytes of the file's block,
-- whatever the offset is, and starts again at the first whenever a block is used up.
pub kvfs_read-Repeats :
    {U : Uiomove} {K : Kernel} {byte : K.Dev → ℕ → ℕ} (knode : Memnode) (uio : Uio) (fs : Fs K)
    → Transfers U
    → IsByteArray K byte
    → IsReliable K
    → uio.uio_resid ≢ 0
    → uio.uio_resid < 2 ^ 31
    → uio.uio_offset < blocksize
    → Reads
        (λ after.
          (after.uio_resid ≡ 0)
          × ((i : ℕ)
              → i < uio.uio_resid
              → after.user (uio.pos + i) ≡ byte fs.dev (knode.lbn * dev_bsize + i % blocksize)))
        (kvfs_read U K vreg knode uio fs)
unfolding kvfs_read
kvfs_read-Repeats {U} {K} {byte} knode uio fs T A R some_left small inside =
    let ok = R.bread_ok fs.dev knode.lbn blocksize in
    let bp = (K.bread fs.dev knode.lbn blocksize).1 in
    rw
      (
        lt→leb (2 ^ 63) uio.uio_offset (omega arith),
        ne→== uio.uio_resid 0 some_left,
        lt→leb blocksize uio.uio_offset inside,
      )
      (Reads-mono
        (read_loop-Repeats T bp (A.bread_resid fs.dev knode.lbn blocksize ok) (uio.uio_resid + 1)
          (K.bread fs.dev knode.lbn blocksize).0 (uio.uio_resid % 2 ^ 32) uio (omega arith)
          (inr (omega arith)) (inl some_left))
        (λ after r. (
          r.all_moved,
          λ i lt.
              r.bytes i lt
              ∙ A.bread_data fs.dev knode.lbn blocksize (i % blocksize) ok (omega arith),
        )))
