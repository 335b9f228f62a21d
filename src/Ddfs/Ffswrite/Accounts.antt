-- ===== src/Ddfs/Ffswrite/Accounts.antt =====
-- What `ffs_write` leaves in the `uio`, and that it ends.
use embedded_operating_syste.Base.{ℕ, ◌+◌, ◌≤◌, ◌<◌, ◌≡◌, ◌≢◌, true, false, Bytes}
use embedded_operating_syste.Kvfs.Kernel.{Kernel}
use embedded_operating_syste.Ddfs.Ffswrite.{
  Uio, IoFlags, Calls, Round, breaks, goes_on, no_value, Outcome, returns, undefined,
}

-- What `uiomove(9)` documents: it moves at most the bytes asked for, and all of them where it
-- does not fail.
pub record IsUiomove {K : Kernel} {Free Sys : Type 0} (C : Calls K Free Sys) : Type 0 where
  pub at_most : (sys : Sys) (p : Bytes) (off n : ℕ) → (C.uiomove sys p off n).1 ≤ n
  pub whole :
      (sys : Sys) (p : Bytes) (off n : ℕ)
      → (C.uiomove sys p off n).0 ≡ 0
      → (C.uiomove sys p off n).1 ≡ n

-- The offset has advanced by as much as there is less left.
pub record IsAdvanced (uio uio' : Uio) : Type 0 where
  pub sum : uio'.uio_offset + uio'.uio_resid ≡ uio.uio_offset + uio.uio_resid
  pub left : uio'.uio_resid ≤ uio.uio_resid

-- A round that goes on has moved something.
abbrev IsRound : {S : Type 0} → Uio → Round S → Type 0
IsRound uio (breaks error s uio') = IsAdvanced uio uio'
IsRound uio (goes_on s uio') = IsAdvanced uio uio' × (uio'.uio_resid < uio.uio_resid)
IsRound uio no_value = Unit

data IsLoop {S : Type 0} (uio : Uio) : Outcome S → Type 0 where
  loop_ended :
      {error : ℕ} {s : S} {uio' : Uio} → IsAdvanced uio uio' → IsLoop uio (returns error s uio')
  loop_lost : IsLoop uio undefined

-- The call returns, with the `uio` advanced by what it wrote, or as it was at the start if it fails
-- with IO_UNIT and without IO_SYNC; or a block has no value.
pub data Accounts {S : Type 0} (flags : IoFlags) (uio : Uio) : Outcome S → Type 0 where
  accounted :
      {error : ℕ} {s : S} {uio' : Uio}
      → IsAdvanced uio uio'
      → (flags.io_unit ≡ true → flags.io_sync ≡ false → error ≢ 0 → uio' ≡ uio)
      → Accounts flags uio (returns error s uio')
  lost : Accounts flags uio undefined
