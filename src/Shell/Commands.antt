-- ===== src/Shell/Commands.antt =====
-- The loops of a line over its words: what the parse and the removal do with plain words.
use embedded_operating_syste.Base.{
  ℕ, zero, suc, ◌+◌, ◌≤◌, ◌≡◌, refl, Bool, true, false, not, ◌&&◌, ◌||◌, Option, none, some, List,
  [], ◌∷◌, ◌++◌, length, get_elem?, arith, ◌∙◌, ap,
}
use embedded_operating_syste.Shell.{
  Args, Redirect, System, argv, parse_in, parse_out, parse_word, parse_loop,
}
use embedded_operating_syste.Shell.Removal.{replaced, argv-end, argv-next, tail_at}
use embedded_operating_syste.Shell.Words.{Word, same_word, input, output, append, output_both}

-- No word of the list is an operator.
unfoldable pub plain_word : Word → Bool
unfolding same_word
plain_word w =
    not
      (same_word w input || (same_word w append || (same_word w output || same_word w output_both)))

unfoldable pub plain : List Word → Bool
unfolding plain_word
plain [] = true
plain (w ∷ words) = plain_word w && plain words

-- The words of the array, as a list.
pub argv-line :
    (words : List Word) (fuel i : ℕ) (args : Args)
    → ((j : ℕ) → j ≤ length words → args (i + j) ≡ get_elem? words j)
    → length words ≤ fuel
    → argv args fuel i ≡ words
argv-line [] fuel i args h enough = argv-end args fuel i (ap args (omega arith) ∙ h 0 (omega arith))
argv-line (w ∷ words) zero i args h enough = absurd (omega arith)
argv-line (w ∷ words) (suc fuel) i args h enough =
    argv-next args fuel i (ap args (omega arith) ∙ h 0 (omega arith))
    ∙ ap (λ rest. w ∷ rest)
        (argv-line words fuel (i + 1) args (tail_at args i w words h) (omega arith))

module _ (operator : Word → Bool) (stale : Option Word) where
  replaced-next :
      (w : Word) (words : List Word)
      → operator w ≡ false
      → replaced operator stale (w ∷ words) ≡ w ∷ replaced operator stale words
  unfolding replaced
  replaced-next w [] no_op = rw no_op refl
  replaced-next w (f ∷ []) no_op = rw no_op refl
  replaced-next w (f ∷ v ∷ rest) no_op = rw no_op refl

  -- An operator and its file at the end are taken out.
  pub replaced-last :
      (before : List Word) (o file : Word)
      → ((w : Word) → plain_word w ≡ true → operator w ≡ false)
      → plain before ≡ true
      → operator o ≡ true
      → replaced operator stale (before ++ o ∷ file ∷ []) ≡ before
  unfolding replaced plain
  replaced-last [] o file no_op all yes_op = rw yes_op refl
  replaced-last (w ∷ before) o file no_op all yes_op =
      replaced-next w (before ++ o ∷ file ∷ []) (no_op w (ground (arith, all)))
      ∙ ap (λ rest. w ∷ rest) (replaced-last before o file no_op (ground (arith, all)) yes_op)

-- The loop over `args` as one over the list.
module _ (S : System) where
  unfoldable pub parse_words : List Word → Redirect × S.World → Redirect × S.World
  parse_words [] state = state
  parse_words (w ∷ rest) state = parse_words rest (parse_word S w (get_elem? rest 0) state)

  pub parse_loop-words :
      (words : List Word) (fuel i : ℕ) (args : Args) (state : Redirect × S.World)
      → ((j : ℕ) → j ≤ length words → args (i + j) ≡ get_elem? words j)
      → length words ≤ fuel
      → parse_loop S fuel i args state ≡ parse_words words state
  unfolding parse_loop parse_words
  parse_loop-words [] zero i args state h enough = refl
  parse_loop-words [] (suc fuel) i args state h enough =
      let end : args i ≡ none = ap args (omega arith) ∙ h 0 (omega arith) in
      rw (parse_loop, end) refl
  parse_loop-words (w ∷ words) zero i args state h enough = absurd (omega arith)
  parse_loop-words (w ∷ words) (suc fuel) i args state h enough =
      let here : args i ≡ some w = ap args (omega arith) ∙ h 0 (omega arith) in
      let next : args (i + 1) ≡ get_elem? words 0 = h 1 (omega arith) in
      rw (parse_loop, here, next)
        (parse_loop-words words fuel (i + 1) args (parse_word S w (get_elem? words 0) state)
          (tail_at args i w words h) (omega arith))

  pub parse_word-plain :
      (w : Word) (next : Option Word) (state : Redirect × S.World)
      → plain_word w ≡ true
      → parse_word S w next state ≡ state
  unfolding parse_word parse_in parse_out plain_word
  parse_word-plain w next state all = ground (arith, all)

  pub parse_words-plain :
      (before rest : List Word) (state : Redirect × S.World)
      → plain before ≡ true
      → parse_words (before ++ rest) state ≡ parse_words rest state
  unfolding parse_words plain
  parse_words-plain [] rest state all = refl
  parse_words-plain (w ∷ before) rest state all =
      ap (parse_words (before ++ rest))
        (parse_word-plain w (get_elem? (before ++ rest) 0) state (ground (arith, all)))
      ∙ parse_words-plain before rest state (ground (arith, all))

  pub parse_words-all :
      (words : List Word) (state : Redirect × S.World)
      → plain words ≡ true
      → parse_words words state ≡ state
  unfolding parse_words plain
  parse_words-all [] state all = refl
  parse_words-all (w ∷ words) state all =
      ap (parse_words words) (parse_word-plain w (get_elem? words 0) state (ground (arith, all)))
      ∙ parse_words-all words state (ground (arith, all))
