-- ===== src/Shell.antt =====
-- simple-shell-c/myshell.c: a shell that runs one command a line, with redirections. The
-- words of a line come from the lexer; the calls of the operating system are an interface.
pub mod Commands
pub mod Echo
pub mod Flags
pub mod Lines
pub mod Removal
mod Tests
pub mod Words
use embedded_operating_syste.Base.{
  ℕ, zero, suc, ◌+◌, ◌-◌, Bool, true, false, not, ◌&&◌, ◌||◌, Option, none, some, List, [], ◌∷◌,
  ◌++◌, if◌then◌else◌, ◌==◌, ltb, length,
}
use Words.{
  Word, same_word, input, output, append, output_both, exit_word, cd_word, echo_word, is_quoted,
  strip, strtok,
}

-- `args`: the array of words, to its first NULL and what stands behind.
abbrev pub Args : Type 0
Args = ℕ → Option Word

-- The flags that `open` is called with: O_RDONLY, O_WRONLY | O_APPEND, O_RDWR | O_CREAT | O_TRUNC.
pub data OpenMode : Type 0 where
  rdonly wronly_append rdwr_creat_trunc : OpenMode

-- The calls that the child process makes. A file descriptor -1 is `none`; `execvp` has the words
-- up to the first NULL, and `fault` is an access outside of an object.
pub data Call : Type 0 where
  close : Option ℕ → Call
  dup2 : Option ℕ → ℕ → Call
  execvp : List Word → Call
  write_error write_newline : Call
  exit : ℕ → Call
  fault : Call

-- The operating system: a file or NULL is opened; a directory or NULL is changed to; the parent
-- forks, which may fail, and waits for the child's calls.
pub record System : Type 1 where
  pub World : Type 0
  pub open_file : World → Option Word → OpenMode → Option ℕ × World
  pub chdir : World → Option Word → World
  pub fork : World → Bool × World
  pub wait_for : World → List Call → World
  -- `execvp` returns -1
  pub execvp_fails : World → List Word → Bool

-- The variables of `main` that live from line to line.
pub record Redirect : Type 0 where
  pub in_fd : Option ℕ
  pub out_fd : Option ℕ
  pub in_flag : Bool
  pub out_flag : Bool
  pub ampersand : Bool
  pub redir_app : Bool

unfoldable pub initial : Redirect
initial = record {
  in_fd = some 0;
  out_fd = some 0;
  in_flag = false;
  out_flag = false;
  ampersand = false;
  redir_app = false;
}

-- The words of `args` up to the first NULL, of `fuel` at most, from index `i` on.
unfoldable pub argv : Args → ℕ → ℕ → List Word
argv args zero i = []
argv args (suc fuel) i =
    let rest = argv args fuel (i + 1) in elim (args i) [ none ↦ [] | some w ↦ w ∷ rest ]

-- `args[i] = value`
abbrev pub set_arg : Args → ℕ → Option Word → Args
set_arg args i value j = if j == i then value else args j

-- The operators that the loop for input redirection takes out, and those of the loop for output.
unfoldable pub in_operator : Word → Bool
unfolding same_word
in_operator w = same_word w input || (same_word w output || same_word w output_both)

unfoldable pub out_operator : Word → Bool
unfolding same_word
out_operator w =
    same_word w output || (same_word w input || (same_word w output_both || same_word w append))

-- `for (i = 0; args[i] != NULL; i++) if (...) args[i] = args[i+2];`
unfoldable pub remove_loop : (Word → Bool) → ℕ → ℕ → Args → Args
remove_loop operator zero i args = args
remove_loop operator (suc fuel) i args = elim (args i) [
  | none ↦ args
  | some w ↦
      remove_loop operator fuel (i + 1) (if operator w then set_arg args i (args (i + 2)) else args)
]

module _ (S : System) where
  unfoldable pub handle_child : S.World → List Word → List Call
  handle_child world words =
      if S.execvp_fails world words
      then execvp words ∷ write_error ∷ write_newline ∷ exit 0 ∷ []
      else execvp words ∷ []

  -- The words of the quoted string, in an array of 100 with the name and the closing NULL.
  unfoldable pub echo_child : S.World → Word → List Call
  unfolding strip strtok
  echo_child world w =
      let tokens = strtok [] (strip w) in
      if ltb (length tokens) 99 then handle_child world (echo_word ∷ tokens) else fault ∷ []

  -- The file descriptors and the arguments of a command that is not a quoted echo.
  unfoldable pub command_child : S.World → ℕ → Args → Redirect → List Call
  unfolding argv in_operator out_operator remove_loop handle_child
  command_child world fuel args redirect =
      let args₁ = if redirect.in_flag then remove_loop in_operator fuel 0 args else args in
      let args₂ = if redirect.out_flag then remove_loop out_operator fuel 0 args₁ else args₁ in
      let calls = handle_child world (argv args₂ fuel 0) in
      let moved =
        if redirect.out_flag
        then dup2 redirect.out_fd 1 ∷ close redirect.out_fd ∷ calls
        else calls in
      let both =
        if redirect.out_flag && redirect.ampersand then dup2 (some 2) 1 ∷ moved else moved in
      if redirect.in_flag then close redirect.in_fd ∷ both else both

  -- The child: `args[1]` is read only behind `echo`, where it may be NULL.
  unfoldable pub child : S.World → ℕ → Args → Redirect → List Call
  unfolding echo_child command_child is_quoted same_word
  child world fuel args redirect = elim (args 0) [
    | none ↦ fault ∷ []
    | some name ↦
        if same_word name echo_word
        then elim (args 1) [
          | none ↦ fault ∷ []
          | some w ↦
              if is_quoted w then echo_child world w else command_child world fuel args redirect
        ]
        else command_child world fuel args redirect
  ]

  -- The body of the loop over the words, where `w` stands before `next`: what `<` does, what
  -- `>>`, `>` and `>&` do, and the flag of `>&`.
  unfoldable pub parse_in : Word → Option Word → Redirect × S.World → Redirect × S.World
  unfolding same_word
  parse_in w next (redirect, world) =
      let (in_fd, world') = S.open_file world next rdonly in
      if same_word w input
      then (record redirect { in_flag = true; in_fd = in_fd }, world')
      else (redirect, world)

  unfoldable pub parse_out : Word → Option Word → Redirect × S.World → Redirect × S.World
  unfolding same_word
  parse_out w next (redirect, world) =
      let (append_fd, world_append) = S.open_file world next wronly_append in
      let (out_fd, world_out) = S.open_file world next rdwr_creat_trunc in
      if same_word w append
      then (record redirect { redir_app = true; out_flag = true; out_fd = append_fd }, world_append)
      else if same_word w output || same_word w output_both
      then (record redirect { out_flag = true; out_fd = out_fd }, world_out)
      else (redirect, world)

  unfoldable pub parse_word : Word → Option Word → Redirect × S.World → Redirect × S.World
  unfolding parse_in parse_out same_word
  parse_word w next state =
      let (redirect, world) = parse_out w next (parse_in w next state) in
      if same_word w output_both
      then (record redirect { ampersand = true }, world)
      else (redirect, world)

  unfoldable pub parse_loop : ℕ → ℕ → Args → Redirect × S.World → Redirect × S.World
  unfolding parse_word
  parse_loop zero i args state = state
  parse_loop (suc fuel) i args state = elim (args i) [
    | none ↦ state
    | some w ↦ parse_loop fuel (i + 1) args (parse_word w (args (i + 1)) state)
  ]

  -- One round of `while (1)`; `none` where the shell is left.
  unfoldable pub line : ℕ → Args → Redirect × S.World → Option (Redirect × S.World)
  unfolding parse_loop child same_word
  line fuel args state =
      let (redirect, world) = parse_loop fuel 0 args state in
      let (forked, parent) = S.fork world in
      let world' = if forked then S.wait_for parent (child parent fuel args redirect) else parent in
      elim (args 0) [
        | none ↦ some (redirect, world)
        | some name ↦
            if same_word name exit_word
            then none
            else if same_word name cd_word
            then some (redirect, S.chdir world (args 1))
            else some
                (record redirect { in_flag = false; out_flag = false; ampersand = false }, world')
      ]

  -- The rounds of the loop over the lines that are typed.
  unfoldable pub session : ℕ → List Args → Redirect × S.World → Option (Redirect × S.World)
  unfolding line
  session fuel [] state = some state
  session fuel (args ∷ lines) state = elim (line fuel args state) [
    | none ↦ none
    | some state' ↦ session fuel lines state'
  ]
