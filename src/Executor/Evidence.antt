-- ===== src/Executor/Evidence.antt =====
-- What the executor may take as evidence that a launch has ended
-- (backend/app/workers/task_executor.py).
use nebula_grid.Base.{ℕ, ◌≡◌, refl, inl, inr, Bool, true, false, [], arith, not, Bool-cases}
use nebula_grid.Base.Int.{ℤ}
use nebula_grid.Executor.Payload.{
  Payload, value, missing, raised, get, explicit_return_code, read_return_code,
  control_payload_matches_launch, parse_control_payload, control_payload_confirms_stopped,
}
use nebula_grid.Executor.Collect.{contents, Observation}
use nebula_grid.Executor.Effects.{Grounds}

-- The payloads that the executor could read.
pub data IsSource (o : Observation) : Payload → Type 0 where
  local_status : IsSource o o.status_file
  local_runtime : IsSource o o.runtime_file
  node_status : {p : Payload} → o.remote_status ≡ contents p → IsSource o p
  node_runtime : {p : Payload} → o.remote_runtime ≡ contents p → IsSource o p
  node_final : {p : Payload} → o.final_status ≡ contents p → IsSource o p

-- What shows that a launch has ended: a return code or a confirmed stop in a payload of that very
-- launch, or a termination command that checked that the process group is gone.
pub data HasEnded (o : Observation) (launch : ℕ) : Type 0 where
  returned :
      {p : Payload} (code : ℤ)
      → IsSource o p
      → control_payload_matches_launch p launch ≡ true
      → explicit_return_code p ≡ value code
      → HasEnded o launch
  confirmed :
      {p : Payload}
      → IsSource o p
      → control_payload_confirms_stopped p launch ≡ true
      → HasEnded o launch
  killed : o.stops ≡ true → HasEnded o launch

-- A payload whose return code is a text with more than one sign: `int` raises a ValueError.
pub data IsMalformed (o : Observation) : Type 0 where
  malformed : {p : Payload} → IsSource o p → explicit_return_code p ≡ raised → IsMalformed o

explicit_return_code-nil : explicit_return_code [] ≡ missing
unfolding explicit_return_code get read_return_code
explicit_return_code-nil = refl

control_payload_confirms_stopped-nil :
    (launch : ℕ) → control_payload_confirms_stopped [] launch ≡ false
unfolding control_payload_confirms_stopped control_payload_matches_launch
control_payload_confirms_stopped-nil launch = refl

pub not-false : {b : Bool} → not b ≡ false → b ≡ true
not-false {b} h = ground arith

-- A payload of another launch is read as an empty one, and proves nothing.
module _ (launch : ℕ) (p : Payload) where
  pub parsed-code :
      (code : ℤ)
      → explicit_return_code (parse_control_payload p launch) ≡ value code
      → (control_payload_matches_launch p launch ≡ true) × (explicit_return_code p ≡ value code)
  unfolding parse_control_payload
  parsed-code code e = elim (Bool-cases (control_payload_matches_launch p launch)) [
    | inl m ↦ (m, (rw m at e))
    | inr n ↦
        let e' : explicit_return_code [] ≡ value code = rw n at e in cc (explicit_return_code-nil)
  ]

  pub parsed-raised :
      explicit_return_code (parse_control_payload p launch) ≡ raised
      → explicit_return_code p ≡ raised
  unfolding parse_control_payload
  parsed-raised e = elim (Bool-cases (control_payload_matches_launch p launch)) [
    | inl m ↦ rw m at e
    | inr n ↦ let e' : explicit_return_code [] ≡ raised = rw n at e in cc (explicit_return_code-nil)
  ]

  pub parsed-stopped :
      control_payload_confirms_stopped (parse_control_payload p launch) launch ≡ true
      → control_payload_confirms_stopped p launch ≡ true
  unfolding parse_control_payload
  parsed-stopped e = elim (Bool-cases (control_payload_matches_launch p launch)) [
    | inl m ↦ rw m at e
    | inr n ↦
        let e' : control_payload_confirms_stopped [] launch ≡ true = rw n at e in
        cc (control_payload_confirms_stopped-nil launch)
  ]

module _ (o : Observation) (launch : ℕ) (p : Payload) (source : IsSource o p) where
  pub parsed-returned :
      (code : ℤ)
      → explicit_return_code (parse_control_payload p launch) ≡ value code
      → HasEnded o launch
  parsed-returned code e = let (m, v) = parsed-code launch p code e in returned code source m v

  pub parsed-IsMalformed :
      explicit_return_code (parse_control_payload p launch) ≡ raised → IsMalformed o
  parsed-IsMalformed e = malformed source (parsed-raised launch p e)

  pub parsed-confirmed :
      control_payload_confirms_stopped (parse_control_payload p launch) launch ≡ true
      → HasEnded o launch
  parsed-confirmed e = confirmed source (parsed-stopped launch p e)

-- The grounds of every archive of one launch.
abbrev pub Ended : Observation → ℕ → Grounds
Ended o launch = record { ended = HasEnded o launch; malformed = IsMalformed o }
