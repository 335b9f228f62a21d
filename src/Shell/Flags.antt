-- ===== src/Shell/Flags.antt =====
-- The descriptors that a child leaves alone, and the flags that live from line to line.
use embedded_operating_syste.Base.{
  ℕ, ◌≤◌, ◌≡◌, Bool, true, false, not, ◌&&◌, Option, none, some, List, [], ◌∷◌, ◌==◌, length, arith,
}
use embedded_operating_syste.Shell.{
  Args, Call, dup2, close, execvp, write_error, write_newline, exit, fault, Redirect, System,
  handle_child,
}
use embedded_operating_syste.Shell.Commands.{plain}
use embedded_operating_syste.Shell.Lines.{IsClean}
use embedded_operating_syste.Shell.Removal.{IsLine}
use embedded_operating_syste.Shell.Words.{Word, same_word, cd_word}

-- Whether a descriptor that may be -1 is `fd`.
abbrev pub is_fd : ℕ → Option ℕ → Bool
is_fd fd none = false
is_fd fd (some other) = other == fd

-- None of the calls replaces or closes the descriptor.
unfoldable pub keeps : ℕ → List Call → Bool
keeps fd [] = true
keeps fd (dup2 from to ∷ calls) = not (to == fd) && keeps fd calls
keeps fd (close closed ∷ calls) = not (is_fd fd closed) && keeps fd calls
keeps fd (execvp words ∷ calls) = keeps fd calls
keeps fd (write_error ∷ calls) = keeps fd calls
keeps fd (write_newline ∷ calls) = keeps fd calls
keeps fd (exit status ∷ calls) = keeps fd calls
keeps fd (fault ∷ calls) = keeps fd calls

-- A line that leaves no flag on: its command is not `cd`, or it has no operator.
pub data IsTame (fuel : ℕ) (args : Args) : Type 0 where
  command : (name : Word) → args 0 ≡ some name → same_word name cd_word ≡ false → IsTame fuel args
  plain_line :
      (words : List Word)
      → IsLine words args
      → length words ≤ fuel
      → plain words ≡ true
      → IsTame fuel args

pub data AllTame (fuel : ℕ) : List Args → Type 0 where
  no_lines : AllTame fuel []
  one_more :
      {args : Args} {lines : List Args}
      → IsTame fuel args
      → AllTame fuel lines
      → AllTame fuel (args ∷ lines)

module _ (S : System) where
  keeps-handle_child :
      (fd : ℕ) (world : S.World) (words : List Word) → keeps fd (handle_child S world words) ≡ true
  unfolding keeps handle_child
  keeps-handle_child fd world words = ground arith

  -- The shell is left, or the flags are off.
  pub data LeavesClean : Option (Redirect × S.World) → Type 0 where
    left : LeavesClean none
    clean : (state : Redirect × S.World) → IsClean state.0 → LeavesClean (some state)
