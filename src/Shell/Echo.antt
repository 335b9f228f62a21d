-- ===== src/Shell/Echo.antt =====
-- `echo` with a quoted string: the words that `strtok` splits it into.
use mathlib.Core.List.{append_assoc, append-nil}
use embedded_operating_syste.Base.{
  ℕ, ◌<◌, ◌≡◌, refl, Bool, true, false, not, ◌&&◌, some, List, [], ◌∷◌, ◌++◌, ◌==◌, length, arith,
  ◌∙◌, sym, ap, lt→ltb,
}
use embedded_operating_syste.Shell.{Args, System, Redirect, handle_child, echo_child, child}
use embedded_operating_syste.Shell.Words.{
  Word, same_word, echo_word, is_quoted, first_char, last_char, drop_last, strip, strtok,
}

-- The words with one space between them.
unfoldable pub join : List Word → Word
join [] = []
join (w ∷ []) = w
join (w ∷ v ∷ rest) = w ++ b' ' ∷ join (v ∷ rest)

-- The string between double quotes.
abbrev pub quoted : Word → Word
quoted w = b'"' ∷ w ++ b'"' ∷ []

unfoldable pub no_space : Word → Bool
no_space [] = true
no_space (c ∷ cs) = not (c == b' ') && no_space cs

-- Words that are not empty and have no space.
unfoldable pub solid : List Word → Bool
unfolding no_space
solid [] = true
solid ([] ∷ words) = false
solid ((c ∷ cs) ∷ words) = no_space (c ∷ cs) && solid words

-- A word is read to its end.
strtok-word :
    (w token rest : Word) → no_space w ≡ true → strtok token (w ++ rest) ≡ strtok (token ++ w) rest
unfolding no_space strtok
strtok-word [] token rest all = ap (λ t. strtok t rest) (sym (append-nil token))
strtok-word (c ∷ w) token rest all =
    let here : (c == b' ') ≡ false = ground (arith, all) in
    rw here (
      strtok-word w (token ++ c ∷ []) rest (ground (arith, all))
      ∙ ap (λ t. strtok t rest) (append_assoc token (c ∷ []) w))

strtok-join : (words : List Word) → solid words ≡ true → strtok [] (join words) ≡ words
unfolding strtok join solid
strtok-join [] all = refl
strtok-join ([] ∷ words) all = cc
strtok-join ((c ∷ cs) ∷ []) all =
    ap (strtok []) (sym (append-nil (c ∷ cs))) ∙ strtok-word (c ∷ cs) [] [] (ground (arith, all))
strtok-join ((c ∷ cs) ∷ v ∷ rest) all =
    strtok-word (c ∷ cs) [] (b' ' ∷ join (v ∷ rest)) (ground (arith, all))
    ∙ ap (λ words. (c ∷ cs) ∷ words) (strtok-join (v ∷ rest) (ground (arith, all)))

last_char-quote : (w : Word) → last_char (w ++ b'"' ∷ []) ≡ b'"'
unfolding last_char
last_char-quote [] = refl
last_char-quote (c ∷ []) = refl
last_char-quote (c ∷ d ∷ cs) = last_char-quote (d ∷ cs)

is_quoted-quoted : (w : Word) → is_quoted (quoted w) ≡ true
unfolding is_quoted first_char last_char
is_quoted-quoted [] = refl
is_quoted-quoted (c ∷ cs) = rw (last_char-quote (c ∷ cs)) refl

drop_last-quote : (w : Word) → drop_last (w ++ b'"' ∷ []) ≡ w
unfolding drop_last
drop_last-quote [] = refl
drop_last-quote (c ∷ []) = refl
drop_last-quote (c ∷ d ∷ cs) = ap (λ r. c ∷ r) (drop_last-quote (d ∷ cs))

-- `echo` before a string in double quotes that is words with one space between them, at most 98
-- of them: the child executes `echo` with these words, whatever else stands on the line and
-- whatever its redirections are.
pub child-echo :
    (S : System) (world : S.World) (fuel : ℕ) (args : Args) (redirect : Redirect)
    (words : List Word)
    → args 0 ≡ some echo_word
    → args 1 ≡ some (quoted (join words))
    → solid words ≡ true
    → length words < 99
    → child S world fuel args redirect ≡ handle_child S world (echo_word ∷ words)
unfolding child echo_child same_word
child-echo S world fuel args redirect words name string all few =
    let tokens : strtok [] (strip (quoted (join words))) ≡ words =
      ap (strtok []) (drop_last-quote (join words)) ∙ strtok-join words all in
    let is : is_quoted (quoted (join words)) ≡ true = is_quoted-quoted (join words) in
    rw (child, name, string, is, tokens, lt→ltb (length words) 99 few) refl
