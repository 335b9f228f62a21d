-- ===== src/Shell/Lines.antt =====
-- What the shell does with a line: a plain command, and one whose output goes to a file.
use embedded_operating_syste.Base.{
  ℕ, ◌+◌, ◌≤◌, ◌≡◌, refl, Bool, true, false, not, ◌||◌, Option, none, some, List, [], ◌∷◌, ◌++◌,
  if◌then◌else◌, length, arith, ◌∙◌, ap,
}
use embedded_operating_syste.Shell.{
  Args, dup2, close, OpenMode, wronly_append, rdwr_creat_trunc, rdonly, Redirect, System,
  out_operator, handle_child, command_child, child, parse_in, parse_out, parse_word, parse_loop,
  line,
}
use embedded_operating_syste.Shell.Commands.{
  plain_word, plain, argv-line, replaced-last, parse_words, parse_loop-words, parse_words-plain,
  parse_words-all, parse_word-plain,
}
use embedded_operating_syste.Shell.Removal.{IsLine, argv-remove_loop}
use embedded_operating_syste.Shell.Words.{
  Word, same_word, output, append, exit_word, cd_word, echo_word,
}

-- The name of a command that is neither built in nor `echo`.
unfoldable pub common : Word → Bool
unfolding same_word
common name = not (same_word name exit_word || (same_word name cd_word || same_word name echo_word))

-- The operators that open the file of the output, and how.
pub data Writes : Word → OpenMode → Type 0 where
  truncates : Writes output rdwr_creat_trunc
  appends : Writes append wronly_append

-- The state with the file of the output open.
abbrev pub opened : Redirect → OpenMode → Option ℕ → Redirect
opened redirect wronly_append fd = record redirect {
  redir_app = true;
  out_flag = true;
  out_fd = fd;
}
opened redirect rdwr_creat_trunc fd = record redirect { out_flag = true; out_fd = fd }
opened redirect rdonly fd = record redirect { in_flag = true; in_fd = fd }

-- The flags that a command's end resets.
abbrev pub reset : Redirect → Redirect
reset redirect = record redirect { in_flag = false; out_flag = false; ampersand = false }

pub record IsClean (redirect : Redirect) : Type 0 where
  pub no_input : redirect.in_flag ≡ false
  pub no_output : redirect.out_flag ≡ false
  pub no_both : redirect.ampersand ≡ false

out_operator-plain : (w : Word) → plain_word w ≡ true → out_operator w ≡ false
unfolding out_operator plain_word
out_operator-plain w all = ground (arith, all)

module _ (S : System) where
  -- The child of a plain command executes its words.
  child-plain :
      (world : S.World) (name : Word) (more : List Word) (fuel : ℕ) (args : Args)
      (redirect : Redirect)
      → IsLine (name ∷ more) args
      → length (name ∷ more) ≤ fuel
      → common name ≡ true
      → IsClean redirect
      → child S world fuel args redirect ≡ handle_child S world (name ∷ more)
  unfolding child common command_child
  child-plain world name more fuel args redirect h enough usual clean =
      let not_echo : same_word name echo_word ≡ false = ground (arith, usual) in
      rw (child, h 0 (omega arith), not_echo, clean.no_input, clean.no_output)
        (ap (handle_child S world)
          (argv-line (name ∷ more) fuel 0 args (λ j le. ap args (omega arith) ∙ h j le) enough))

  -- The child of a command with its output redirected.
  child-output :
      (world : S.World) (name : Word) (more : List Word) (o file : Word) (fuel : ℕ) (args : Args)
      (redirect : Redirect)
      → IsLine (name ∷ more ++ o ∷ file ∷ []) args
      → length (name ∷ more ++ o ∷ file ∷ []) ≤ fuel
      → common name ≡ true
      → plain (name ∷ more) ≡ true
      → out_operator o ≡ true
      → redirect.in_flag ≡ false
      → redirect.out_flag ≡ true
      → redirect.ampersand ≡ false
      → child S world fuel args redirect
        ≡ dup2 redirect.out_fd 1 ∷ close redirect.out_fd ∷ handle_child S world (name ∷ more)
  unfolding child common command_child
  child-output world name more o file fuel args redirect h enough usual all yes_op no_in out
        no_both =
      let not_echo : same_word name echo_word ≡ false = ground (arith, usual) in
      let words =
        argv-remove_loop out_operator (name ∷ more ++ o ∷ file ∷ []) fuel args h enough
        ∙ replaced-last out_operator (args (length (name ∷ more ++ o ∷ file ∷ []) + 1))
            (name ∷ more) o file out_operator-plain all yes_op in
      rw (child, h 0 (omega arith), not_echo, no_in, out, no_both, words) refl

  -- A line that starts with the name of a command runs its child.
  line-common :
      (name : Word) (fuel : ℕ) (args : Args) (state : Redirect × S.World)
      → args 0 ≡ some name
      → common name ≡ true
      → line S fuel args state ≡ (
          let (redirect, world) = parse_loop S fuel 0 args state in
          let (forked, parent) = S.fork world in
          some (
            reset redirect,
            if forked then S.wait_for parent (child S parent fuel args redirect) else parent,
          ))
  unfolding line common
  line-common name fuel args state here usual =
      let not_exit : same_word name exit_word ≡ false = ground (arith, usual) in
      let not_cd : same_word name cd_word ≡ false = ground (arith, usual) in
      rw (line, here, not_exit, not_cd) refl

  -- A line of the words of a command, none of them an operator and the name neither `exit`, `cd`
  -- nor `echo`, from a state with the flags off, and with `fuel` for all of its words: the
  -- descriptors stay, the shell forks once, and the child executes exactly these words.
  pub line-plain :
      (name : Word) (more : List Word) (fuel : ℕ) (args : Args) (redirect : Redirect)
      (world : S.World)
      → IsLine (name ∷ more) args
      → length (name ∷ more) ≤ fuel
      → common name ≡ true
      → plain (name ∷ more) ≡ true
      → IsClean redirect
      → line S fuel args (redirect, world) ≡ (
          let (forked, parent) = S.fork world in
          some (
            reset redirect,
            if forked then S.wait_for parent (handle_child S parent (name ∷ more)) else parent,
          ))
  line-plain name more fuel args redirect world h enough usual all clean =
      let (forked, parent) = S.fork world in
      let parsed : parse_loop S fuel 0 args (redirect, world) ≡ (redirect, world) =
        parse_loop-words S (name ∷ more) fuel 0 args (redirect, world)
          (λ j le. ap args (omega arith) ∙ h j le) enough
        ∙ parse_words-all S (name ∷ more) (redirect, world) all in
      line-common name fuel args (redirect, world) (h 0 (omega arith)) usual
      ∙ rw (parsed, child-plain parent name more fuel args redirect h enough usual clean) refl

  -- The parse of a line with its output redirected at the end.
  parse-output :
      (before : List Word) (o file : Word) (mode : OpenMode) (redirect : Redirect) (world : S.World)
      → plain before ≡ true
      → Writes o mode
      → plain_word file ≡ true
      → parse_words S (before ++ o ∷ file ∷ []) (redirect, world) ≡ (
          let (fd, world') = S.open_file world (some file) mode in
          (opened redirect mode fd, world'))
  unfolding parse_words parse_word parse_in parse_out plain_word
  parse-output before o file mode redirect world all truncates ok =
      let (fd, world') = S.open_file world (some file) rdwr_creat_trunc in
      parse_words-plain S before (o ∷ file ∷ []) (redirect, world) all
      ∙ parse_word-plain S file none (opened redirect rdwr_creat_trunc fd, world') ok
  parse-output before o file mode redirect world all appends ok =
      let (fd, world') = S.open_file world (some file) wronly_append in
      parse_words-plain S before (o ∷ file ∷ []) (redirect, world) all
      ∙ parse_word-plain S file none (opened redirect wronly_append fd, world') ok

  out_operator-Writes : (o : Word) (mode : OpenMode) → Writes o mode → out_operator o ≡ true
  unfolding out_operator
  out_operator-Writes o mode truncates = refl
  out_operator-Writes o mode appends = refl

  -- What `opened` leaves and sets, for an output.
  opened-Writes :
      (o : Word) (mode : OpenMode) (redirect : Redirect) (fd : Option ℕ)
      → Writes o mode
      → IsClean redirect
      → let redirect' = opened redirect mode fd in
        (redirect'.in_flag ≡ false)
        × (redirect'.out_flag ≡ true)
        × (redirect'.ampersand ≡ false)
        × (redirect'.out_fd ≡ fd)
  opened-Writes o mode redirect fd truncates clean = (clean.no_input, refl, clean.no_both, refl)
  opened-Writes o mode redirect fd appends clean = (clean.no_input, refl, clean.no_both, refl)

  -- The same line followed by `>` or `>>` and a file: the file is opened, which `>` empties and
  -- `>>` does not, and the child puts it in the place of its standard output before it executes
  -- the words without the redirection.
  pub line-output :
      (name : Word) (more : List Word) (o file : Word) (mode : OpenMode) (fuel : ℕ) (args : Args)
      (redirect : Redirect) (world : S.World)
      → IsLine (name ∷ more ++ o ∷ file ∷ []) args
      → length (name ∷ more ++ o ∷ file ∷ []) ≤ fuel
      → common name ≡ true
      → plain (name ∷ more) ≡ true
      → Writes o mode
      → plain_word file ≡ true
      → IsClean redirect
      → line S fuel args (redirect, world) ≡ (
          let (fd, world') = S.open_file world (some file) mode in
          let (forked, parent) = S.fork world' in
          some (
            reset (opened redirect mode fd),
            if forked
                then S.wait_for parent (dup2 fd 1 ∷ close fd ∷ handle_child S parent (name ∷ more))
                else parent,
          ))
  line-output name more o file mode fuel args redirect world h enough usual all writes ok clean =
      let words = name ∷ more ++ o ∷ file ∷ [] in
      let (fd, world') = S.open_file world (some file) mode in
      let redirect' = opened redirect mode fd in
      let (forked, parent) = S.fork world' in
      let parsed : parse_loop S fuel 0 args (redirect, world) ≡ (redirect', world') =
        parse_loop-words S words fuel 0 args (redirect, world)
          (λ j le. ap args (omega arith) ∙ h j le) enough
        ∙ parse-output (name ∷ more) o file mode redirect world all writes ok in
      let (no_in, out, no_both, at) = opened-Writes o mode redirect fd writes clean in
      let calls =
        child-output parent name more o file fuel args redirect' h enough usual all
          (out_operator-Writes o mode writes) no_in out no_both in
      line-common name fuel args (redirect, world) (h 0 (omega arith)) usual
      ∙ rw (parsed, calls, at) refl
