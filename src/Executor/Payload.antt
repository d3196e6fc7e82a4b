-- ===== src/Executor/Payload.antt =====
-- The control payloads of the remote runner, and what the executor accepts in them
-- (backend/app/workers/task_executor.py). A payload is the JSON object that was read, `[]` where
-- nothing could be read or parsed.
use nebula_grid.Base.{
  ℕ, suc, Bool, true, false, ◌&&◌, ◌||◌, not, Option, none, some, List, [], ◌∷◌, ◌==◌, ltb,
  is_empty, if◌then◌else◌,
}
use nebula_grid.Base.Int.{ℤ, pos, negsuc, neg, positive_part}
use nebula_grid.Base.Text.{Text, codes, strip, text_eq, is_decimal, decimal_from, to_decimal}

pub data Key : Type 0 where
  task_id launch_id pid pgid process_start_time boot_id : Key
  state error return_code process_stopped : Key

abbrev pub key_eq : Key → Key → Bool
key_eq task_id task_id = true
key_eq launch_id launch_id = true
key_eq pid pid = true
key_eq pgid pgid = true
key_eq process_start_time process_start_time = true
key_eq boot_id boot_id = true
key_eq state state = true
key_eq error error = true
key_eq return_code return_code = true
key_eq process_stopped process_stopped = true
key_eq _ _ = false

-- A JSON value; `composite` is a float, an array or an object, with its truth value and `str`.
pub data Json : Type 0 where
  null : Json
  composite : Bool → Text → Json
  bool : Bool → Json
  int : ℤ → Json
  str : Text → Json

abbrev pub Payload : Type 0
Payload = List (Key × Json)

-- `payload.get(key)`, where a missing key is distinguished from null.
unfoldable pub get : Key → Payload → Option Json
get k [] = none
get k ((j, v) ∷ payload) = if key_eq j k then some v else get k payload

-- What Python's reading of a value does: a value, nothing, or a ValueError.
pub data Reading {ℓ} (A : Type ℓ) : Type ℓ where
  value : A → Reading A
  missing raised : Reading A

unfoldable pub strict_positive_int : Option Json → ℕ
strict_positive_int (some (int n)) = positive_part n
strict_positive_int (some (str s)) = let t = strip s in if is_decimal t then decimal_from 0 t else 0
strict_positive_int _ = 0

abbrev pub is_sign : ℕ → Bool
is_sign c = c == b'+' || c == b'-'

-- `s.lstrip("+-")`
unfoldable pub drop_signs : Text → Text
drop_signs [] = []
drop_signs (c ∷ s) = elim (is_sign c) [ true ↦ drop_signs s | false ↦ c ∷ s ]

-- `int(s)` of a text of signs and digits: at most one sign.
unfoldable pub parse_int : Text → Reading ℤ
parse_int [] = raised
parse_int (c ∷ s) =
    if is_sign c
    then if is_decimal s
      then value (if c == b'-' then neg (decimal_from 0 s) else pos (decimal_from 0 s))
      else raised
    else if is_decimal (c ∷ s)
    then value (pos (decimal_from 0 (c ∷ s)))
    else raised

unfoldable pub read_return_code : Option Json → Reading ℤ
unfolding drop_signs parse_int
read_return_code (some (int n)) = value n
read_return_code (some (str s)) =
    let cleaned = strip s in
    if not (is_empty cleaned) && is_decimal (drop_signs cleaned) then parse_int cleaned else missing
read_return_code _ = missing

unfoldable pub explicit_return_code : Payload → Reading ℤ
unfolding read_return_code
explicit_return_code payload = read_return_code (get return_code payload)

abbrev pub is_null : Option Json → Bool
is_null none = true
is_null (some null) = true
is_null _ = false

unfoldable pub control_payload_matches_launch : Payload → ℕ → Bool
control_payload_matches_launch payload launch =
    if is_empty payload
    then false
    else if is_null (get launch_id payload)
    then false
    else strict_positive_int (get launch_id payload) == launch

-- `parse_control_payload`, and the loads of the two control files, on what was parsed.
unfoldable pub parse_control_payload : Payload → ℕ → Payload
parse_control_payload payload launch =
    if control_payload_matches_launch payload launch then payload else []

-- `payload.get("state") in {...}`
abbrev pub has_state : Text → Option Json → Bool
has_state s (some (str t)) = text_eq t s
has_state s _ = false

unfoldable pub is_infrastructure_failure : Payload → Bool
is_infrastructure_failure payload =
    has_state (codes "launch_failed") (get state payload)
    || has_state (codes "wrapper_failed") (get state payload)

-- `str(payload.get("error") or default)`
unfoldable pub error_text : Option Json → Text → Text
error_text (some (str s)) default = if is_empty s then default else s
error_text (some (int (pos n))) default = if n == 0 then default else to_decimal n
error_text (some (int (negsuc n))) default = b'-' ∷ to_decimal (suc n)
error_text (some (bool true)) default = codes "True"
error_text (some (composite true shown)) default = shown
error_text _ default = default

abbrev pub is_true : Option Json → Bool
is_true (some (bool true)) = true
is_true _ = false

unfoldable pub control_payload_confirms_stopped : Payload → ℕ → Bool
unfolding is_infrastructure_failure
control_payload_confirms_stopped payload launch =
    if control_payload_matches_launch payload launch
    then (has_state (codes "cancelled") (get state payload) || is_infrastructure_failure payload)
      && is_true (get process_stopped payload)
    else false

-- `isinstance(value, str) and bool(value.strip())`
abbrev pub is_visible_text : Option Json → Bool
is_visible_text (some (str s)) = not (is_empty (strip s))
is_visible_text _ = false

unfoldable pub metadata_has_process_identity : Payload → ℕ → Bool
metadata_has_process_identity payload launch =
    if control_payload_matches_launch payload launch
    then ltb 0 (strict_positive_int (get pid payload))
      && ltb 0 (strict_positive_int (get process_start_time payload))
      && is_visible_text (get boot_id payload)
    else false
