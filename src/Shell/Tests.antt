-- ===== src/Shell/Tests.antt =====
-- The theorems of the shell at concrete lines, on a system that opens every file.
use embedded_operating_syste.Base.{
  ◌≡◌, refl, true, false, some, List, [], ◌∷◌, ◌++◌, arith, get_elem?,
}
use embedded_operating_syste.Shell.{
  Args, Call, dup2, close, execvp, OpenMode, rdwr_creat_trunc, Redirect, initial, System, argv,
  out_operator, remove_loop, handle_child, child, line, session,
}
use embedded_operating_syste.Shell.Echo.{join, quoted, child-echo}
use embedded_operating_syste.Shell.Lines.{IsClean, truncates, common, opened, reset, line-output}
use embedded_operating_syste.Shell.Commands.{plain, plain_word}
use embedded_operating_syste.Shell.Removal.{IsLine, argv-remove_loop}
use embedded_operating_syste.Shell.Words.{Word, output, echo_word, cd_word, same_word}

-- A system whose state is what has happened, that opens descriptor 3.
abbrev recorder : System
recorder = record {
  World = List Call;
  open_file = λ world path mode. (some 3, world);
  chdir = λ world path. world;
  fork = λ world. (true, world);
  wait_for = λ world calls. world ++ calls;
  execvp_fails = λ world words. false;
}

abbrev ls : Word
ls = b'l' ∷ b's' ∷ []

abbrev long : Word
long = b'-' ∷ b'l' ∷ []

abbrev file : Word
file = b'f' ∷ []

-- The array of a line, with nothing behind its NULL.
abbrev array : List Word → Args
array words i = get_elem? words i

in_array : (words : List Word) → IsLine words (array words)
in_array words j le = refl

off : IsClean initial
unfolding initial
off = record { no_input = refl; no_output = refl; no_both = refl }

argv-remove_loop_example :
    argv (remove_loop out_operator 8 0 (array (ls ∷ output ∷ file ∷ long ∷ []))) 8 0
    ≡ ls ∷ long ∷ file ∷ long ∷ []
unfolding embedded_operating_syste.Shell.Removal.replaced out_operator same_word
argv-remove_loop_example =
    argv-remove_loop out_operator (ls ∷ output ∷ file ∷ long ∷ []) 8
      (array (ls ∷ output ∷ file ∷ long ∷ [])) (in_array (ls ∷ output ∷ file ∷ long ∷ []))
      (omega arith)

line-output_example :
    line recorder 8 (array (ls ∷ long ∷ output ∷ file ∷ [])) (initial, [])
    ≡ some (
      reset (opened initial rdwr_creat_trunc (some 3)),
      dup2 (some 3) 1 ∷ close (some 3) ∷ execvp (ls ∷ long ∷ []) ∷ [],
    )
unfolding handle_child
line-output_example =
    line-output recorder ls (long ∷ []) output file rdwr_creat_trunc 8
      (array (ls ∷ long ∷ output ∷ file ∷ [])) initial []
      (in_array (ls ∷ long ∷ output ∷ file ∷ [])) (omega arith) (unfold common same_word in refl)
      (unfold plain plain_word same_word in refl) truncates (unfold plain_word same_word in refl)
      off

-- The flags and descriptors of "< a >& b".
abbrev both : Redirect
both = record initial {
  in_fd = some 3;
  out_fd = some 4;
  in_flag = true;
  out_flag = true;
  ampersand = true;
}

child-echo_example :
    child recorder [] 8 (array (echo_word ∷ quoted (join (ls ∷ file ∷ [])) ∷ [])) initial
    ≡ handle_child recorder [] (echo_word ∷ ls ∷ file ∷ [])
child-echo_example =
    child-echo recorder [] 8 (array (echo_word ∷ quoted (join (ls ∷ file ∷ [])) ∷ [])) initial
      (ls ∷ file ∷ []) refl refl
      (unfold embedded_operating_syste.Shell.Echo.solid
          embedded_operating_syste.Shell.Echo.no_space in
        refl)
      (omega arith)

-- The flags that `cd` with a redirection leaves on send the output of the next command away.
cd_leaves_flag :
    session recorder 8 (array (cd_word ∷ output ∷ file ∷ []) ∷ array (ls ∷ []) ∷ []) (initial, [])
    ≡ some (
      reset (opened initial rdwr_creat_trunc (some 3)),
      dup2 (some 3) 1 ∷ close (some 3) ∷ execvp (ls ∷ []) ∷ [],
    )
unfolding session line child initial same_word handle_child
cd_leaves_flag = refl
