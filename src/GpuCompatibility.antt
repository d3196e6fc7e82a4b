-- ===== src/GpuCompatibility.antt =====
-- The compatibility of a PyTorch environment with a GPU
-- (backend/app/services/gpu_compatibility_service.py).
use nebula_grid.Base.{
  ℕ, ◌/◌, ◌%◌, Bool, true, false, ◌&&◌, not, Option, none, some, List, [], ◌∷◌, ◌==◌, leb, any, all,
  is_empty, get_elem?, drop, or_else, if◌then◌else◌,
}
use nebula_grid.Base.Text.{
  Text, codes, lower, strip, starts_with, split, is_decimal, is_digit, decimal_from,
}
use nebula_grid.Model.{Env, Node, Gpu}

pub data GpuCompatibility : Type 0 where
  native_supported same_major_compatible unsupported unknown : GpuCompatibility

pub record SmTarget : Type 0 where
  pub major : ℕ
  pub minor : ℕ
  pub suffix : Text

abbrev nonempty : Text → Option Text
nonempty s = if is_empty s then none else some s

-- The override at a GPU's index, if there is one, else what the monitor detected.
unfoldable pub effective_gpu_compute_capability : Node → Gpu → Option Text
effective_gpu_compute_capability node gpu =
    let override =
      strip (or_else (get_elem? node.gpu_compute_capability_overrides gpu.gpu_index) []) in
    if is_empty override
    then nonempty (strip (or_else gpu.compute_capability []))
    else some override

abbrev two_numbers : List Text → Option (ℕ × ℕ)
two_numbers (a ∷ b ∷ []) =
    if is_decimal a && is_decimal b then some (decimal_from 0 a, decimal_from 0 b) else none
two_numbers _ = none

unfoldable pub parse_compute_capability : Option Text → Option (ℕ × ℕ)
parse_compute_capability value = two_numbers (split b'.' (strip (or_else value [])))

-- The digits at the head of a text, and what follows them.
unfoldable pub span_digits : Text → Text × Text
span_digits [] = ([], [])
span_digits (c ∷ s) =
    let (digits, rest) = span_digits s in if is_digit c then (c ∷ digits, rest) else ([], c ∷ s)

abbrev is_lower_letter : ℕ → Bool
is_lower_letter c = leb b'a' c && leb c b'z'

-- The match of `sm_(\d+)([a-z]*)` against the whole text.
unfoldable pub parse_sm_target : Text → Option SmTarget
unfolding span_digits
parse_sm_target value =
    let text = lower (strip value) in
    let (digits, suffix) = span_digits (drop 3 text) in
    let architecture = decimal_from 0 digits in
    if starts_with text (codes "sm_") && not (is_empty digits) && all is_lower_letter suffix
    then some (record { major = architecture / 10; minor = architecture % 10; suffix = suffix })
    else none

unfoldable pub parse_sm_targets : List Text → List SmTarget
unfolding parse_sm_target
parse_sm_targets [] = []
parse_sm_targets (value ∷ values) = elim (parse_sm_target value) [
  | none ↦ parse_sm_targets values
  | some target ↦ target ∷ parse_sm_targets values
]

abbrev pub is_native : ℕ × ℕ → SmTarget → Bool
is_native capability target = target.major == capability.0 && target.minor == capability.1

abbrev pub is_same_major : ℕ × ℕ → SmTarget → Bool
is_same_major capability target =
    is_empty target.suffix && (target.major == capability.0 && leb target.minor capability.1)

unfoldable pub classify : List SmTarget → ℕ × ℕ → GpuCompatibility
classify targets capability =
    if any (is_native capability) targets
    then native_supported
    else if any (is_same_major capability) targets
    then same_major_compatible
    else unsupported

abbrev pub has_pytorch : Env → Bool
has_pytorch env = not (is_empty (or_else env.pytorch_version []))

unfoldable pub pytorch_gpu_compatibility : Option Env → Node → Gpu → GpuCompatibility
unfolding classify parse_sm_targets parse_compute_capability effective_gpu_compute_capability
pytorch_gpu_compatibility none node gpu = unknown
pytorch_gpu_compatibility (some env) node gpu =
    if not (has_pytorch env)
    then unknown
    else elim (parse_compute_capability (effective_gpu_compute_capability node gpu)) [
      | none ↦ unknown
      | some capability ↦ classify (parse_sm_targets env.pytorch_arch_list) capability
    ]

abbrev pub is_unsupported : GpuCompatibility → Bool
is_unsupported unsupported = true
is_unsupported _ = false
