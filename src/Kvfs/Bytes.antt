-- ===== src/Kvfs/Bytes.antt =====
-- Little-endian numbers in memory: how the packed structs of key-value-fs/src/kvfs.h stand on disk.
use native.Mathlib.Nat.{pow-suc}
use embedded_operating_syste.Base.{
  ℕ, zero, suc, ◌+◌, ◌*◌, ◌/◌, ◌%◌, ◌^◌, ◌<◌, ◌≡◌, refl, Bytes, arith, ap, ◌∙◌,
}

-- The number in `n` bytes from `o` on.
unfoldable pub le : ℕ → Bytes → ℕ → ℕ
le zero p o = 0
le (suc n) p o = p o + 256 * le n p (o + 1)

-- Byte `k` of a number.
unfoldable pub byte_at : ℕ → ℕ → ℕ
byte_at v zero = v % 256
byte_at v (suc k) = byte_at (v / 256) k

-- The number is read back from its bytes if it fits.
pub le-byte_at :
    (n v : ℕ) (p : Bytes) (o : ℕ)
    → v < 256 ^ n
    → ((k : ℕ) → k < n → p (o + k) ≡ byte_at v k)
    → le n p o ≡ v
unfolding le byte_at
le-byte_at zero v p o h e = omega arith
le-byte_at (suc n) v p o h e =
    let rest =
      le-byte_at n (v / 256) p (o + 1) (omega (arith, rw (pow-suc 256 n) at h))
        (λ k lt. ap p (omega arith) ∙ e (suc k) (omega arith)) in
    let first : p o ≡ v % 256 = ap p (omega arith) ∙ e 0 (omega arith) in omega arith

-- Equal bytes are equal numbers.
pub le_ext :
    (n : ℕ) (p q : Bytes) (o o' : ℕ)
    → ((k : ℕ) → k < n → p (o + k) ≡ q (o' + k))
    → le n p o ≡ le n q o'
unfolding le
le_ext zero p q o o' e = refl
le_ext (suc n) p q o o' e =
    let first : p o ≡ q o' = ap p (omega arith) ∙ e 0 (omega arith) ∙ ap q (omega arith) in
    let rest =
      le_ext n p q (o + 1) (o' + 1)
        (λ k lt. ap p (omega arith) ∙ e (suc k) (omega arith) ∙ ap q (omega arith)) in
    rw (first, rest) refl
