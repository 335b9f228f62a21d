-- ===== src/Shell/Removal.antt =====
-- The loops of myshell.c that take the redirections out of `args` in place, against a function on
-- the list of words.
use native.Mathlib.Decide.{ℕ_discrete, dec_lt}
use embedded_operating_syste.Base.{
  ℕ, zero, suc, ◌+◌, ◌≤◌, ◌<◌, ◌≡◌, ◌≢◌, refl, Bool, true, false, ◌&&◌, Option, none, some, List,
  [], ◌∷◌, if◌then◌else◌, ltb, leb, length, get_elem?, arith, ◌∙◌, sym, ap, eq→==, ne→==, lt→ltb,
  le→leb, lt→leb, le→ltb, Bool-cases, inl, inr,
}
use embedded_operating_syste.Shell.{Args, argv, set_arg, remove_loop}
use embedded_operating_syste.Shell.Words.{Word}

-- `args` holds the words and then NULL.
abbrev pub IsLine : List Word → Args → Type 0
IsLine words args = (j : ℕ) → j ≤ length words → args j ≡ get_elem? words j

-- The words with each operator replaced by the word two places on. Where that is the end, the
-- list ends; behind a last operator stands what the array holds behind its NULL.
unfoldable pub replaced : (Word → Bool) → Option Word → List Word → List Word
replaced operator stale [] = []
replaced operator stale (w ∷ []) =
    if operator w then elim stale [ none ↦ [] | some v ↦ v ∷ [] ] else w ∷ []
replaced operator stale (w ∷ f ∷ []) =
    let rest = replaced operator stale (f ∷ []) in if operator w then [] else w ∷ rest
replaced operator stale (w ∷ f ∷ v ∷ rest) =
    (if operator w then v else w) ∷ replaced operator stale (f ∷ v ∷ rest)

some_of : (value : Option Word) → value ≢ none → (w : Word) × (value ≡ some w)
some_of none ne = absurd (ne refl)
some_of (some w) ne = (w, refl)

module _ (operator : Word → Bool) where
  abbrev is_operator : Option Word → Bool
  is_operator none = false
  is_operator (some w) = operator w

  -- What the loop leaves at index `j`, where `n` is the index of the first NULL from `i` on.
  abbrev left : ℕ → ℕ → Args → Args
  left i n args j = if leb i j && (ltb j n && is_operator (args j)) then args (j + 2) else args j

  left-suc :
      (i n j : ℕ) (args : Args) (w : Word)
      → i < n
      → args i ≡ some w
      → left (i + 1) n (if operator w then set_arg args i (args (i + 2)) else args) j
        ≡ left i n args j
  left-suc i n j args w lt e = elim (Bool-cases (operator w)) [
    | inl yes_op ↦ elim (ℕ_discrete j i) [
      | yes at ↦
          rw
            (
              yes_op,
              at,
              lt→leb (i + 1) i (omega arith),
              eq→== i i refl,
              le→leb i i (omega arith),
              lt→ltb i n lt,
              e,
              yes_op,
            )
            refl
      | no ne ↦ elim (dec_lt i j) [
        | yes after ↦
            rw
              (
                yes_op,
                le→leb (i + 1) j (omega arith),
                ne→== j i ne,
                ne→== (j + 2) i (omega arith),
                le→leb i j (omega arith),
              )
              refl
        | no before ↦
            rw (yes_op, lt→leb (i + 1) j (omega arith), ne→== j i ne, lt→leb i j (omega arith)) refl
      ]
    ]
    | inr no_op ↦ elim (ℕ_discrete j i) [
      | yes at ↦
          rw
            (
              no_op,
              at,
              lt→leb (i + 1) i (omega arith),
              le→leb i i (omega arith),
              lt→ltb i n lt,
              e,
              no_op,
            )
            refl
      | no ne ↦ elim (dec_lt i j) [
        | yes after ↦ rw (no_op, le→leb (i + 1) j (omega arith), le→leb i j (omega arith)) refl
        | no before ↦ rw (no_op, lt→leb (i + 1) j (omega arith), lt→leb i j (omega arith)) refl
      ]
    ]
  ]

  left-end : (n j : ℕ) (args : Args) → left n n args j ≡ args j
  left-end n j args = elim (dec_lt j n) [
    | yes before ↦ rw (lt→leb n j before) refl
    | no behind ↦ rw (le→ltb j n (omega arith)) (ground arith)
  ]

  set_elsewhere :
      (i : ℕ) (args : Args) (w : Word) (k : ℕ)
      → i + 1 ≤ k
      → (if operator w then set_arg args i (args (i + 2)) else args) k ≡ args k
  set_elsewhere i args w k behind = elim (Bool-cases (operator w)) [
    | inl yes_op ↦ rw (yes_op, ne→== k i (omega arith)) refl
    | inr no_op ↦ rw no_op refl
  ]

  -- The loop reads each word before it is overwritten, and it ends at the old NULL.
  remove_loop-left :
      (fuel i n : ℕ) (args : Args)
      → i ≤ n
      → n ≤ i + fuel
      → ((j : ℕ) → i ≤ j → j < n → args j ≢ none)
      → args n ≡ none
      → (j : ℕ) → remove_loop operator fuel i args j ≡ left i n args j
  unfolding remove_loop
  remove_loop-left zero i n args a b words end j =
      let last : i ≡ n = omega arith in rw last (sym (left-end n j args))
  remove_loop-left (suc fuel) i n args a b words end j = elim (ℕ_discrete i n) [
    | yes last ↦ rw (last, remove_loop, end) (sym (left-end n j args))
    | no ne ↦
        let (w, e) = some_of (args i) (words i (omega arith) (omega arith)) in
        let next : Args = if operator w then set_arg args i (args (i + 2)) else args in
        let same = set_elsewhere i args w in
        rw (remove_loop, e)
          (remove_loop-left fuel (i + 1) n next (omega arith) (omega arith)
              (λ k c d q. words k (omega arith) d (sym (same k c) ∙ q)) (same n (omega arith) ∙ end)
              j
            ∙ left-suc i n j args w (omega arith) e)
  ]

pub argv-end : (args : Args) (fuel i : ℕ) → args i ≡ none → argv args fuel i ≡ []
unfolding argv
argv-end args zero i e = refl
argv-end args (suc fuel) i e = rw (argv, e) refl

pub argv-next :
    (args : Args) (fuel i : ℕ) {w : Word}
    → args i ≡ some w
    → argv args (suc fuel) i ≡ w ∷ argv args fuel (i + 1)
unfolding argv
argv-next args fuel i e = rw (argv, e) refl

in_range : (words : List Word) (j : ℕ) → j < length words → get_elem? words j ≢ none
in_range [] j lt q = absurd (omega arith)
in_range (w ∷ words) zero lt q = cc
in_range (w ∷ words) (suc j) lt q = in_range words j (omega arith) q

behind : (words : List Word) → get_elem? words (length words) ≡ none
behind [] = refl
behind (w ∷ words) = behind words

-- Behind the first of the words.
pub tail_at :
    (args : Args) (i : ℕ) (w : Word) (words : List Word)
    → ((j : ℕ) → j ≤ length (w ∷ words) → args (i + j) ≡ get_elem? (w ∷ words) j)
    → (j : ℕ) → j ≤ length words
    → args (i + 1 + j) ≡ get_elem? words j
tail_at args i w words h j le = ap args (omega arith) ∙ h (suc j) (omega arith)

module _ (operator : Word → Bool) (args m : Args) (n : ℕ)
    (removed : (j : ℕ) → m j ≡ left operator 0 n args j) where
  -- The word at an index below the NULL.
  taken :
      (i : ℕ) {w : Word} {value : Option Word}
      → i < n
      → args i ≡ some w
      → operator w ≡ true
      → args (i + 2) ≡ value
      → m i ≡ value
  taken i lt e yes_op to = removed i ∙ rw (le→leb 0 i (omega arith), lt→ltb i n lt, e, yes_op) to

  kept : (i : ℕ) {w : Word} → i < n → args i ≡ some w → operator w ≡ false → m i ≡ some w
  kept i lt e no_op = removed i ∙ rw (le→leb 0 i (omega arith), lt→ltb i n lt, e, no_op) refl

  ended_at : (i : ℕ) → i ≡ n → args i ≡ none → m i ≡ none
  ended_at i at e = removed i ∙ rw (le→leb 0 i (omega arith), le→ltb i n (omega arith)) e

  argv-last :
      (fuel i : ℕ) (value : Option Word)
      → m i ≡ value
      → m (i + 1) ≡ none
      → argv m (suc fuel) i ≡ elim value [ none ↦ [] | some v ↦ v ∷ [] ]
  argv-last fuel i none e end = argv-end m (suc fuel) i e
  argv-last fuel i (some v) e end =
      argv-next m fuel i e ∙ ap (λ rest. v ∷ rest) (argv-end m fuel (i + 1) end)

  argv-replaced :
      (words : List Word) (fuel i : ℕ)
      → n ≡ i + length words
      → length words ≤ fuel
      → ((j : ℕ) → j ≤ length words → args (i + j) ≡ get_elem? words j)
      → argv m fuel i ≡ replaced operator (args (n + 1)) words
  unfolding replaced
  argv-replaced [] fuel i at enough h =
      argv-end m fuel i (ended_at i (omega arith) (ap args (omega arith) ∙ h 0 (omega arith)))
  argv-replaced (w ∷ words) zero i at enough h = absurd (omega arith)
  argv-replaced (w ∷ []) (suc fuel) i at enough h =
      let here : args i ≡ some w = ap args (omega arith) ∙ h 0 (omega arith) in
      let end = ended_at (i + 1) (omega arith) (h 1 (omega arith)) in
      elim (Bool-cases (operator w)) [
        | inl yes_op ↦ rw yes_op (
            argv-last fuel i (args (n + 1))
              (taken i (omega arith) here yes_op (ap args (omega arith))) end)
        | inr no_op ↦ rw no_op (
            argv-next m fuel i (kept i (omega arith) here no_op)
            ∙ ap (λ rest. w ∷ rest) (argv-end m fuel (i + 1) end))
      ]
  argv-replaced (w ∷ f ∷ []) (suc fuel) i at enough h =
      let here : args i ≡ some w = ap args (omega arith) ∙ h 0 (omega arith) in
      let later =
        argv-replaced (f ∷ []) fuel (i + 1) (omega arith) (omega arith)
          (tail_at args i w (f ∷ []) h) in
      elim (Bool-cases (operator w)) [
        | inl yes_op ↦
            rw yes_op
              (argv-end m (suc fuel) i (taken i (omega arith) here yes_op (h 2 (omega arith))))
        | inr no_op ↦
            rw no_op
              (argv-next m fuel i (kept i (omega arith) here no_op) ∙ ap (λ rest. w ∷ rest) later)
      ]
  argv-replaced (w ∷ f ∷ v ∷ rest) (suc fuel) i at enough h =
      let here : args i ≡ some w = ap args (omega arith) ∙ h 0 (omega arith) in
      let later =
        argv-replaced (f ∷ v ∷ rest) fuel (i + 1) (omega arith) (omega arith)
          (tail_at args i w (f ∷ v ∷ rest) h) in
      elim (Bool-cases (operator w)) [
        | inl yes_op ↦ rw yes_op (
            argv-next m fuel i (taken i (omega arith) here yes_op (h 2 (omega arith)))
            ∙ ap (λ rest. v ∷ rest) later)
        | inr no_op ↦
            rw no_op
              (argv-next m fuel i (kept i (omega arith) here no_op) ∙ ap (λ rest. w ∷ rest) later)
      ]

-- `args` holds `words`, and no more of them than the loops run through: the loop that takes the
-- operators out of `args` in place ends at the NULL, and the words up to the first NULL are then
-- those of `replaced`.
pub argv-remove_loop :
    (operator : Word → Bool) (words : List Word) (fuel : ℕ) (args : Args)
    → IsLine words args
    → length words ≤ fuel
    → argv (remove_loop operator fuel 0 args) fuel 0
      ≡ replaced operator (args (length words + 1)) words
argv-remove_loop operator words fuel args line enough =
    let n = length words in
    argv-replaced operator args (remove_loop operator fuel 0 args) n
      (remove_loop-left operator fuel 0 n args (omega arith) (omega arith)
        (λ j a b q. in_range words j b (sym (line j (omega arith)) ∙ q))
        (line n (omega arith) ∙ behind words))
      words fuel 0 (omega arith) enough (λ j le. ap args (omega arith) ∙ line j le)
