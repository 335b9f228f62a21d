-- ===== src/Kvfs/Vnops/Data/RoundTrip.antt =====
-- What is written to a file is read from it.
use embedded_operating_syste.Base.{
  ℕ, ◌+◌, ◌-◌, ◌*◌, ◌%◌, ◌≤◌, ◌<◌, ◌≡◌, ◌≢◌, false, arith, ◌∙◌, ap, le→leb, lt→ltb,
}
use embedded_operating_syste.Kvfs.Kernel.{Kernel, Fs, vreg, IsByteArray, IsReliable}
use embedded_operating_syste.Kvfs.Layout.{Memnode, blocksize, dev_bsize}
use embedded_operating_syste.Kvfs.Vnops.Data.{
  Uio, Uiomove, Transfers, advance, returns, kvfs_read, kvfs_write,
}
use embedded_operating_syste.Kvfs.Vnops.Data.Read.{Reads, Reads-mono, kvfs_read-Repeats}
use embedded_operating_syste.Kvfs.Vnops.Data.Write.{kvfs_write_fits}

-- On a device that does not fail: a `kvfs_write` at offset 0 of at least one byte and at most a
-- block takes all of the bytes, and a `kvfs_read` of at least one and at most as many bytes from
-- the file that it leaves, at an offset inside the file, delivers the bytes that were written,
-- from the first on.
pub kvfs_read-kvfs_write :
    {U : Uiomove} {K : Kernel} {byte : K.Dev → ℕ → ℕ} (knode : Memnode) (from to : Uio) (fs : Fs K)
    → Transfers U
    → IsByteArray K byte
    → IsReliable K
    → from.uio_offset ≡ 0
    → from.uio_resid ≤ blocksize
    → to.uio_resid ≢ 0
    → to.uio_resid ≤ from.uio_resid
    → to.uio_offset < blocksize
    → (dev : K.Dev) × (kvfs_write U K vreg knode false from fs
        ≡ returns (0, advance from.uio_resid from, record fs { dev = dev }))
      × Reads
          (λ after.
            (after.uio_resid ≡ 0)
            × ((i : ℕ) → i < to.uio_resid → after.user (to.pos + i) ≡ from.user (from.pos + i)))
          (kvfs_read U K vreg knode to (record fs { dev = dev }))
kvfs_read-kvfs_write {U} {K} {byte} knode from to fs T A R start fits some_left less inside =
    let (dev, done, bytes) = kvfs_write_fits knode from fs T A R (omega arith) (omega arith) in
    (
      dev,
      done,
      Reads-mono
          (kvfs_read-Repeats knode to (record fs { dev = dev }) T A R some_left (omega arith)
            inside)
          (λ after r. (
            r.0,
            λ i lt.
                let base = knode.lbn * dev_bsize + from.uio_offset in
                let a = knode.lbn * dev_bsize + i % blocksize in
                let back : from.pos + (a - base) ≡ from.pos + i = omega arith in
                r.1 i lt
                ∙ bytes a
                ∙ rw (le→leb base a (omega arith), lt→ltb a (base + from.uio_resid) (omega arith))
                    (ap from.user back),
          )),
    )
