-- ===== src/Runner/Quote.antt =====
-- The quotes of the runner (`shell_quote` of backend/app/remote/runner.py), and how a shell reads them.
use nebula_grid.Base.{
  ℕ, Bool, ◌||◌, Option, none, some, [], ◌∷◌, ◌++◌, ◌==◌, ◌≡◌, refl, sym, ap, inl, inr, Bool-cases,
  ==_iff, if◌then◌else◌,
}
use nebula_grid.Base.Text.{Text, codes}

-- `value.replace("'", ...)`
unfoldable pub replace_quotes : Text → Text
replace_quotes [] = []
replace_quotes (c ∷ s) =
    let rest = replace_quotes s in if c == b'\'' then codes "'\"'\"'" ++ rest else c ∷ rest

unfoldable pub shell_quote : Text → Text
unfolding replace_quotes
shell_quote value = b'\'' ∷ (replace_quotes value ++ (b'\'' ∷ []))

-- How a shell reads one word that is written in quotes alone: outside them, in single quotes, or in
-- double quotes, where a character with a meaning of its own ends the reading.
pub data Mode : Type 0 where
  outside single double : Mode

abbrev has_meaning : ℕ → Bool
has_meaning c = (c == b'$') || ((c == b'`') || ((c == b'\\') || (c == b'!')))

abbrev with_character : ℕ → Option Text → Option Text
with_character c none = none
with_character c (some s) = some (c ∷ s)

unfoldable pub read_word : Mode → Text → Option Text
read_word outside [] = some []
read_word outside (c ∷ s) =
    let in_single = read_word single s in
    let in_double = read_word double s in
    if c == b'\'' then in_single else if c == b'"' then in_double else none
read_word single [] = none
read_word single (c ∷ s) =
    let ended = read_word outside s in
    let rest = read_word single s in if c == b'\'' then ended else with_character c rest
read_word double [] = none
read_word double (c ∷ s) =
    let ended = read_word outside s in
    let rest = read_word double s in
    if c == b'"' then ended else if has_meaning c then none else with_character c rest

read_quoted : (s : Text) → read_word single (replace_quotes s ++ (b'\'' ∷ [])) ≡ some s
unfolding read_word replace_quotes
read_quoted [] = refl
read_quoted (c ∷ s) = elim (Bool-cases (c == b'\'')) [
  | inl y ↦
      let same : c ≡ b'\'' = (==_iff c b'\'').0 y in
      rw (y, read_quoted s) (ap (λ k. some (k ∷ s)) (sym same))
  | inr n ↦ rw (n, read_quoted s) (rw n refl)
]

-- A shell reads the quotes of any text as one word, which is that text, whatever characters it has.
pub read_word-shell_quote : (value : Text) → read_word outside (shell_quote value) ≡ some value
unfolding shell_quote read_word
read_word-shell_quote value = read_quoted value
