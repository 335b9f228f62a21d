-- ===== src/Kvfs/Kernel/Device.antt =====
-- What reading some sectors, changing bytes in the buffer and writing it back does to a device.
use native.Mathlib.Decide.{dec_lt}
use embedded_operating_syste.Base.{
  ℕ, ◌+◌, ◌-◌, ◌*◌, ◌/◌, ◌%◌, ◌≤◌, ◌≡◌, refl, ◌&&◌, Bytes, update, memcpy, memcpy_inside,
  memcpy_before, memcpy_after, arith, if◌then◌else◌, ltb, leb, ◌==◌, lt→ltb, le→ltb, lt→leb, le→leb,
  ◌∙◌, ap, fun_ext,
}
use embedded_operating_syste.Kvfs.Kernel.{Kernel, IsByteArray, IsReliable}
use embedded_operating_syste.Kvfs.Layout.{dev_bsize, btodb}

-- The device after `size` bytes with `n` bytes of `src` at `off` has been written back.
pub region_written :
    {K : Kernel} {byte : K.Dev → ℕ → ℕ} (d : K.Dev) (lbn size off n : ℕ) (src : Bytes)
    → IsByteArray K byte
    → IsReliable K
    → off + n ≤ size
    → let d' = (K.bwrite d lbn size (memcpy (K.bread d lbn size).1.b_data off src n)).1 in
      (a : ℕ)
      → byte d' a ≡ (
          if leb (lbn * dev_bsize + off) a && ltb a (lbn * dev_bsize + off + n)
          then src (a - (lbn * dev_bsize + off))
          else byte d a)
region_written {K} {byte} d lbn size off n src A R fits a =
    let base = lbn * dev_bsize in
    let old = (K.bread d lbn size).1.b_data in
    let written =
      A.bwrite_data d lbn size (memcpy old off src n) a
        (R.bwrite_ok d lbn size (memcpy old off src n)) in
    let read = A.bread_data d lbn size (a - base) (R.bread_ok d lbn size) in
    elim (dec_lt a (base + off)) [
      | yes below ↦ elim (dec_lt a base) [
        | yes outside ↦ rw (written, lt→leb base a outside, lt→leb (base + off) a below) refl
        | no inside ↦
            let back : base + (a - base) ≡ a = omega arith in
            rw
              (
                written,
                le→leb base a (omega arith),
                lt→ltb a (base + size) (omega arith),
                lt→leb (base + off) a below,
              )
              (memcpy_before old off src n (a - base) (omega arith)
                ∙ read (omega arith)
                ∙ ap (byte d) back)
      ]
      | no above ↦ elim (dec_lt a (base + off + n)) [
        | yes new ↦
            let at : a - base ≡ off + (a - (base + off)) = omega arith in
            rw
              (
                written,
                le→leb base a (omega arith),
                lt→ltb a (base + size) (omega arith),
                le→leb (base + off) a (omega arith),
                lt→ltb a (base + off + n) new,
              )
              (ap (memcpy old off src n) at
                ∙ memcpy_inside old off src n (a - (base + off)) (omega arith))
        | no beyond ↦ elim (dec_lt a (base + size)) [
          | yes inside ↦
              let back : base + (a - base) ≡ a = omega arith in
              rw
                (
                  written,
                  le→leb base a (omega arith),
                  lt→ltb a (base + size) inside,
                  le→leb (base + off) a (omega arith),
                  le→ltb a (base + off + n) (omega arith),
                )
                (memcpy_after old off src n (a - base) (omega arith)
                  ∙ read (omega arith)
                  ∙ ap (byte d) back)
          | no outside ↦
              rw
                (
                  written,
                  le→leb base a (omega arith),
                  le→ltb a (base + size) (omega arith),
                  le→leb (base + off) a (omega arith),
                  le→ltb a (base + off + n) (omega arith),
                )
                refl
        ]
      ]
    ]

update-memcpy : (p : Bytes) (k v : ℕ) → update p k v ≡ memcpy p k (λ _. v) 1
unfolding update memcpy
update-memcpy p k v = fun_ext (λ i. ground arith)

-- One byte at address `a`, through its sector.
pub byte_written :
    {K : Kernel} {byte : K.Dev → ℕ → ℕ} (d : K.Dev) (a v : ℕ)
    → IsByteArray K byte
    → IsReliable K
    → let b = (K.bread d (btodb a) dev_bsize).1.b_data in
      (j : ℕ)
      → byte (K.bwrite d (btodb a) dev_bsize (update b (a % dev_bsize) v)).1 j
        ≡ (if j == a then v else byte d j)
byte_written {K} {byte} d a v A R j =
    let b = (K.bread d (btodb a) dev_bsize).1.b_data in
    let at : a / 512 * 512 + a % 512 ≡ a = omega arith in
    rw (update-memcpy b (a % dev_bsize) v) (
      region_written d (btodb a) dev_bsize (a % dev_bsize) 1 (λ _. v) A R (omega arith) j
      ∙ rw at (ground arith))

-- The byte that the sector of `a` has at `a`.
pub byte_read :
    {K : Kernel} {byte : K.Dev → ℕ → ℕ} (d : K.Dev) (a : ℕ)
    → IsByteArray K byte
    → IsReliable K
    → (K.bread d (btodb a) dev_bsize).1.b_data (a % dev_bsize) ≡ byte d a
byte_read {K} {byte} d a A R =
    A.bread_data d (btodb a) dev_bsize (a % dev_bsize) (R.bread_ok d (btodb a) dev_bsize)
      (omega arith)
    ∙ ap (byte d) (omega arith)
