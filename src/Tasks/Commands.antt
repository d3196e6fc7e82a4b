-- ===== src/Tasks/Commands.antt =====
-- The commands of a batch (`parse_batch_commands` of backend/app/services/task_service.py).
use nebula_grid.Base.{
  ℕ, ◌≡◌, refl, Bool, true, false, ◌||◌, not, List, [], ◌∷◌, ◌++◌, ◌==◌, is_empty, all, All, ◌&&◌,
  Bool-cases, inl, inr, if◌then◌else◌, arith,
}
use nebula_grid.Base.Text.{Text, strip, drop_spaces}
use mathlib.Core.List.{reverse, reverse_aux}

-- What `str.splitlines` ends a line at; a carriage return and a line feed give an empty line here,
-- which the program drops.
abbrev pub ends_line : ℕ → Bool
ends_line c =
    c == 10
    || c == 13
    || c == 11
    || c == 12
    || c == 28
    || c == 29
    || c == 30
    || c == 133
    || c == 8232
    || c == 8233

-- The lines, with the line that is being read.
unfoldable pub split_lines : Text → Text → List Text
split_lines line [] = line ∷ []
split_lines line (c ∷ s) =
    let next = split_lines [] s in
    let longer = split_lines (line ++ c ∷ []) s in if ends_line c then line ∷ next else longer

-- `raw_line.split("#", maxsplit=1)[0]`
unfoldable pub before_hash : Text → Text
before_hash [] = []
before_hash (c ∷ s) = let rest = before_hash s in if c == b'#' then [] else c ∷ rest

unfoldable pub clean_lines : List Text → List Text
unfolding before_hash
clean_lines [] = []
clean_lines (raw ∷ lines) =
    let line = strip (before_hash raw) in
    let rest = clean_lines lines in if is_empty line then rest else line ∷ rest

unfoldable pub parse_batch_commands : Text → List Text
unfolding split_lines clean_lines
parse_batch_commands commands = clean_lines (split_lines [] commands)

-- A character that may stand in a command.
abbrev pub may_stand : ℕ → Bool
may_stand c = not (c == b'#') && not (ends_line c)

-- What each command of a batch looks like.
abbrev pub IsCommand : Text → Type 0
IsCommand line = (is_empty line ≡ false) × (all may_stand line ≡ true)

module _ (p : ℕ → Bool) where
  all-append : (s t : Text) → all p s ≡ true → all p t ≡ true → all p (s ++ t) ≡ true
  all-append [] t h k = k
  all-append (c ∷ s) t h k = ground (arith, all-append s t)

  all-reverse_aux : (s t : Text) → all p s ≡ true → all p t ≡ true → all p (reverse_aux s t) ≡ true
  all-reverse_aux [] t h k = k
  all-reverse_aux (c ∷ s) t h k = ground (arith, all-reverse_aux s (c ∷ t))

  all-reverse : (s : Text) → all p s ≡ true → all p (reverse s) ≡ true
  all-reverse s h = all-reverse_aux s [] h refl

  all-drop_spaces : (s : Text) → all p s ≡ true → all p (drop_spaces s) ≡ true
  unfolding drop_spaces
  all-drop_spaces [] h = refl
  all-drop_spaces (c ∷ s) h = ground (arith, all-drop_spaces s)

  all-strip : (s : Text) → all p s ≡ true → all p (strip s) ≡ true
  unfolding strip
  all-strip s h = all-reverse (drop_spaces (reverse (drop_spaces s))) (
      all-drop_spaces (reverse (drop_spaces s)) (all-reverse (drop_spaces s) (all-drop_spaces s h)))

abbrev IsLine : Text → Type 0
IsLine line = all (λ c. not (ends_line c)) line ≡ true

split_lines-IsLine : (line s : Text) → IsLine line → All IsLine (split_lines line s)
unfolding split_lines
split_lines-IsLine line [] h = (h, tt)
split_lines-IsLine line (c ∷ s) h = elim (Bool-cases (ends_line c)) [
  | inl e ↦ rw e (h, split_lines-IsLine [] s refl)
  | inr n ↦ rw n (
      split_lines-IsLine (line ++ c ∷ []) s
        (all-append (λ x. not (ends_line x)) line (c ∷ []) h (rw n refl)))
]

before_hash-may_stand : (s : Text) → IsLine s → all may_stand (before_hash s) ≡ true
unfolding before_hash
before_hash-may_stand [] h = refl
before_hash-may_stand (c ∷ s) h = ground (arith, before_hash-may_stand s)

clean_lines-IsCommand : (lines : List Text) → All IsLine lines → All IsCommand (clean_lines lines)
unfolding clean_lines
clean_lines-IsCommand [] h = tt
clean_lines-IsCommand (raw ∷ lines) h = elim (Bool-cases (is_empty (strip (before_hash raw)))) [
  | inl e ↦ rw e (clean_lines-IsCommand lines h.1)
  | inr n ↦ rw n (
    (n, all-strip may_stand (before_hash raw) (before_hash-may_stand raw h.0)),
    clean_lines-IsCommand lines h.1,
  )
]

-- Each command of a batch is a text that is not empty, lies within one line, and has no comment.
pub parse_batch_commands-IsCommand :
    (commands : Text) → All IsCommand (parse_batch_commands commands)
unfolding parse_batch_commands
parse_batch_commands-IsCommand commands =
    clean_lines-IsCommand (split_lines [] commands) (split_lines-IsLine [] commands refl)
