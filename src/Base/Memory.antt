-- ===== src/Base/Memory.antt =====
-- C memory: a pointer is the function from an index to the byte that stands there.
use Prim.Native.Nat.{ℕ, zero, suc, ◌+◌, ◌-◌, ◌≤◌, ◌<◌}
use mathlib.Core.Path.{◌≡◌, refl, ap, ap₂, fun_ext, sym, ◌∙◌}
use mathlib.Core.Logic.{◌≢◌}
use mathlib.Core.Bool.{Bool, true, ◌&&◌}
use native.Mathlib.Omega.{arith}
use embedded_operating_syste.Base.Tests.{ltb, leb, ◌==◌, if◌then◌else◌, all_below}

abbrev pub Bytes : Type 0
Bytes = ℕ → ℕ

-- `bzero`
abbrev pub zeroes : Bytes
zeroes i = 0

-- `p[k] = v`
unfoldable pub update : Bytes → ℕ → ℕ → Bytes
update p k v i = if i == k then v else p i

-- `memcpy(p + off, src, n)`
unfoldable pub memcpy : Bytes → ℕ → Bytes → ℕ → Bytes
memcpy p off src n i = if leb off i && ltb i (off + n) then src (i - off) else p i

-- `p + off`
abbrev pub offset : Bytes → ℕ → Bytes
offset p off i = p (off + i)

-- `memcmp(p, q, n) == 0`
unfoldable pub memcmp : Bytes → Bytes → ℕ → Bool
unfolding all_below
memcmp p q n = all_below n (λ i. p i == q i)

pub memcpy_inside :
    (p : Bytes) (off : ℕ) (src : Bytes) (n i : ℕ) → i < n → memcpy p off src n (off + i) ≡ src i
unfolding memcpy
memcpy_inside p off src n i h = let e : off + i - off ≡ i = omega arith in rw e (ground arith)

pub memcpy_before :
    (p : Bytes) (off : ℕ) (src : Bytes) (n i : ℕ) → i < off → memcpy p off src n i ≡ p i
unfolding memcpy
memcpy_before p off src n i h = ground arith

pub memcpy_after :
    (p : Bytes) (off : ℕ) (src : Bytes) (n i : ℕ) → off + n ≤ i → memcpy p off src n i ≡ p i
unfolding memcpy
memcpy_after p off src n i h = ground arith

pub update_self : (p : Bytes) (k v : ℕ) → update p k v k ≡ v
unfolding update
update_self p k v = ground arith

pub update_ne : (p : Bytes) (k v i : ℕ) → i ≢ k → update p k v i ≡ p i
unfolding update
update_ne p k v i h = ground arith

pub update_twice : (p : Bytes) (k v w : ℕ) → update (update p k v) k w ≡ update p k w
unfolding update
update_twice p k v w = fun_ext (λ i. ground arith)

pub memcmp_ext :
    (n : ℕ) (key p q : Bytes) → ((i : ℕ) → i < n → p i ≡ q i) → memcmp key p n ≡ memcmp key q n
unfolding memcmp
memcmp_ext zero key p q e = refl
memcmp_ext (suc n) key p q e =
    ap₂ ◌&&◌ (ap (λ x. key n == x) (e n (omega arith)))
      (memcmp_ext n key p q (λ i lt. e i (omega arith)))

pub memcmp_refl : (n : ℕ) (p : Bytes) → memcmp p p n ≡ true
unfolding memcmp
memcmp_refl zero p = refl
memcmp_refl (suc n) p = ground (arith, memcmp_refl n p)

-- Equal keys compare alike.
pub memcmp_left : (n : ℕ) (p q r : Bytes) → memcmp p q n ≡ true → memcmp p r n ≡ memcmp q r n
unfolding memcmp
memcmp_left zero p q r h = refl
memcmp_left (suc n) p q r h = ground (arith, memcmp_left n p q r)

pub memcmp_sym : (n : ℕ) (p q : Bytes) → memcmp p q n ≡ memcmp q p n
unfolding memcmp
memcmp_sym zero p q = refl
memcmp_sym (suc n) p q = ground (arith, memcmp_sym n p q)

pub memcmp_right : (n : ℕ) (p q r : Bytes) → memcmp q r n ≡ true → memcmp p r n ≡ memcmp p q n
memcmp_right n p q r same = memcmp_sym n p r ∙ sym (memcmp_left n q r p same) ∙ memcmp_sym n q p
