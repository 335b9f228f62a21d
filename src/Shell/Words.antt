-- ===== src/Shell/Words.antt =====
-- The strings of simple-shell-c/myshell.c: its words, and what it uses of <string.h>.
use embedded_operating_syste.Base.{
  ℕ, Bool, true, false, ◌&&◌, List, [], ◌∷◌, ◌++◌, if◌then◌else◌, ◌==◌,
}

-- A string, by its characters without the closing NUL.
abbrev pub Word : Type 0
Word = List ℕ

-- `!strcmp(a, b)`
unfoldable pub same_word : Word → Word → Bool
same_word [] [] = true
same_word [] (y ∷ ys) = false
same_word (x ∷ xs) [] = false
same_word (x ∷ xs) (y ∷ ys) = (x == y) && same_word xs ys

abbrev pub input : Word
input = b'<' ∷ []

abbrev pub output : Word
output = b'>' ∷ []

abbrev pub append : Word
append = b'>' ∷ b'>' ∷ []

abbrev pub output_both : Word
output_both = b'>' ∷ b'&' ∷ []

abbrev pub exit_word : Word
exit_word = b'e' ∷ b'x' ∷ b'i' ∷ b't' ∷ []

abbrev pub cd_word : Word
cd_word = b'c' ∷ b'd' ∷ []

abbrev pub echo_word : Word
echo_word = b'e' ∷ b'c' ∷ b'h' ∷ b'o' ∷ []

-- Strings: the first character and the last, where there is one.
unfoldable pub first_char : Word → ℕ
first_char [] = 0
first_char (c ∷ cs) = c

unfoldable pub last_char : Word → ℕ
last_char [] = 0
last_char (c ∷ []) = c
last_char (c ∷ d ∷ cs) = last_char (d ∷ cs)

-- `args[1]++; args[1][strlen(args[1]) - 1] = 0;`
unfoldable pub drop_last : Word → Word
drop_last [] = []
drop_last (c ∷ []) = []
drop_last (c ∷ d ∷ cs) = c ∷ drop_last (d ∷ cs)

unfoldable pub strip : Word → Word
unfolding drop_last
strip [] = []
strip (c ∷ cs) = drop_last cs

-- The tokens that `strtok` finds between spaces; `token` is what has been read of the next one.
abbrev pub flush : Word → List Word → List Word
flush [] rest = rest
flush (c ∷ cs) rest = (c ∷ cs) ∷ rest

unfoldable pub strtok : Word → Word → List Word
strtok token [] = flush token []
strtok token (c ∷ cs) =
    let rest = strtok (if c == b' ' then [] else token ++ c ∷ []) cs in
    if c == b' ' then flush token rest else rest

-- `echo` before a word in double quotes.
unfoldable pub is_quoted : Word → Bool
unfolding first_char last_char
is_quoted w = (first_char w == b'"') && (last_char w == b'"')
