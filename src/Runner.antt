-- ===== src/Runner.antt =====
-- The remote runner, which starts the process of a task on its node (backend/app/remote/runner.py).
pub mod Group
pub mod Quote
pub mod Outcomes
use nebula_grid.Base.{
  ℕ, Bool, true, false, ◌&&◌, not, Option, none, some, List, [], ◌∷◌, ◌++◌, ◌==◌, is_empty,
  if◌then◌else◌,
}
use nebula_grid.Base.Int.{ℤ, pos, negsuc}
use nebula_grid.Base.Text.{Text, codes, strip, text_eq, is_decimal, decimal_from}
use nebula_grid.Executor.Payload.{Payload, Key, Json, null, bool, int, str, composite, get}
use nebula_grid.Runner.Group.{Signals, terminate_process_group}

pub record Launch : Type 0 where
  pub task_id : Text
  pub launch_id : ℕ

unfoldable pub names_launch : ℕ → Option Json → Bool
names_launch launch (some (int (pos n))) = n == launch
names_launch launch (some (str s)) = let t = strip s in is_decimal t && decimal_from 0 t == launch
names_launch launch _ = false

unfoldable pub cancellation_requested : Payload → ℕ → Bool
unfolding names_launch
cancellation_requested payload launch = names_launch launch (get Key.launch_id payload)

-- `==` of Python on a text and on an integer, which a Boolean may equal.
abbrev pub equals_text : Text → Option Json → Bool
equals_text t (some (str s)) = text_eq s t
equals_text t _ = false

abbrev pub equals_number : ℕ → Option Json → Bool
equals_number n (some (int (pos m))) = m == n
equals_number n (some (bool true)) = n == 1
equals_number n (some (bool false)) = n == 0
equals_number n _ = false

abbrev pub is_integer : Option Json → Bool
is_integer (some (int n)) = true
is_integer _ = false

unfoldable pub load_explicit_completion : Launch → Payload → Payload
load_explicit_completion l payload =
    if not (
      equals_text l.task_id (get Key.task_id payload)
      && equals_number l.launch_id (get Key.launch_id payload))
    then []
    else if is_integer (get Key.return_code payload)
    then payload
    else []

-- Where an exception may be raised.
pub data Point : Type 0 where
  folders wrapper launching acknowledge_runtime acknowledge_status spawning running_receipt : Point
  cancelled_receipt failed_runtime failed_status : Point

-- What one run meets: the exception at a point, if there is one, the cancel file at the three reads of
-- it and the status file at four, the boot id, the new process with its start time, and two attempts to
-- end it. An empty payload is a file that cannot be read.
pub record Sight : Type 0 where
  pub fails : Point → Option Text
  pub cancel_before : Payload
  pub cancel_prepared : Payload
  pub cancel_launched : Payload
  pub status_first : Payload
  pub status_second : Payload
  pub status_failed : Payload
  pub status_last : Payload
  pub boot_id : Text
  pub pid : ℕ
  pub process_start_time : Option ℕ
  pub signals_first : Signals
  pub signals_last : Signals

-- What the run has done: the process, its identity, and the control files as the run wrote them.
pub record Progress : Type 0 where
  pub process : Option ℕ
  pub process_identity : Payload
  pub runtime_file : Option Payload
  pub status_file : Option Payload

pub record Ending : Type 0 where
  pub progress : Progress
  pub printed : Payload
  pub exit_code : ℕ

pub data Attempt : Type 0 where
  ends : Ending → Attempt
  throws : Text → Progress → Attempt

abbrev pub base_payload : Launch → Payload
base_payload l = (Key.task_id, str l.task_id) ∷ (Key.launch_id, int (pos l.launch_id)) ∷ []

abbrev pub nothing_done : Progress
nothing_done = record {
  process = none;
  process_identity = [];
  runtime_file = none;
  status_file = none;
}

abbrev pub prints : Progress → Payload → Attempt
prints p payload = ends (record { progress = p; printed = payload; exit_code = 0 })

abbrev pub unless_fails : Option Text → Progress → Attempt → Attempt
unless_fails none p rest = rest
unless_fails (some message) p rest = throws message p

-- Of a payload with two entries of one key the first counts, as the later one in a literal of Python.
abbrev pub cancelled_launch : Launch → Payload
cancelled_launch l =
    (Key.state, str (codes "cancelled"))
    ∷ (Key.return_code, null)
    ∷ (Key.process_stopped, bool true)
    ∷ base_payload l

abbrev pub cancelled_answer : Launch → Payload
cancelled_answer l =
    (Key.state, str (codes "cancelled")) ∷ (Key.process_stopped, bool true) ∷ base_payload l

-- `acknowledge_cancelled_launch` and the answer.
unfoldable pub acknowledge_cancelled_launch : Launch → Sight → Progress → Attempt
acknowledge_cancelled_launch l s p =
    let p1 : Progress = record p { runtime_file = some (cancelled_launch l) } in
    unless_fails (s.fails acknowledge_runtime) p (
      unless_fails (s.fails acknowledge_status) p1
        (prints (record p1 { status_file = some (cancelled_launch l) }) (cancelled_answer l)))

abbrev pub start_time_value : Option ℕ → Json
start_time_value none = null
start_time_value (some n) = int (pos n)

abbrev pub identity_of : Sight → Payload
identity_of s =
    (Key.pid, int (pos s.pid))
    ∷ (Key.pgid, int (pos s.pid))
    ∷ (Key.process_start_time, start_time_value s.process_start_time)
    ∷ (Key.boot_id, str s.boot_id)
    ∷ []

abbrev pub metadata_of : Launch → Sight → Payload
metadata_of l s = (Key.state, str (codes "running")) ∷ (base_payload l ++ identity_of s)

abbrev pub cancelled_metadata : Launch → Sight → Bool → Payload
cancelled_metadata l s stopped =
    (Key.state, str (codes "cancelled")) ∷ (Key.process_stopped, bool stopped) ∷ metadata_of l s

-- A stop that is requested once the process runs.
unfoldable pub stop_launched : Launch → Sight → Progress → Attempt
unfolding load_explicit_completion terminate_process_group
stop_launched l s p =
    let first = load_explicit_completion l s.status_first in
    let second = load_explicit_completion l s.status_second in
    let payload = cancelled_metadata l s (terminate_process_group s.pid s.signals_first) in
    if not (is_empty first)
    then prints p first
    else if not (is_empty second)
    then prints p second
    else unless_fails (s.fails cancelled_receipt) p
        (prints (record p { runtime_file = some payload }) payload)

-- A process without a start time is not kept.
unfoldable pub follow_started : Launch → Sight → Option ℕ → Progress → Attempt
unfolding stop_launched cancellation_requested
follow_started l s none p = throws (codes "cannot read process start time after launch") p
follow_started l s (some time) p =
    let p1 : Progress = record p { runtime_file = some (metadata_of l s) } in
    unless_fails (s.fails running_receipt) p (
      if cancellation_requested s.cancel_launched l.launch_id
      then stop_launched l s p1
      else prints p1 (metadata_of l s))

-- From the creation of the process on.
unfoldable pub follow_process : Launch → Sight → Progress → Attempt
unfolding follow_started
follow_process l s p =
    follow_started l s s.process_start_time
      (record p { process = some s.pid; process_identity = identity_of s })

abbrev pub launching_payload : Launch → Payload
launching_payload l = (Key.state, str (codes "launching")) ∷ base_payload l

-- The body of the `try`.
unfoldable pub try_launch : Launch → Sight → Attempt
unfolding acknowledge_cancelled_launch follow_process cancellation_requested
try_launch l s =
    let p1 : Progress = record nothing_done { runtime_file = some (launching_payload l) } in
    unless_fails (s.fails folders) nothing_done (
      if cancellation_requested s.cancel_before l.launch_id
      then acknowledge_cancelled_launch l s nothing_done
      else unless_fails (s.fails wrapper) nothing_done (
          unless_fails (s.fails launching) nothing_done (
            if cancellation_requested s.cancel_prepared l.launch_id
            then acknowledge_cancelled_launch l s p1
            else if is_empty s.boot_id
            then throws (codes "cannot read node boot id before launch") p1
            else unless_fails (s.fails spawning) p1 (follow_process l s p1))))

abbrev pub failure_payload : Launch → Payload → Bool → Text → Payload
failure_payload l identity stopped message =
    (Key.state, str (codes "launch_failed"))
    ∷ (Key.return_code, null)
    ∷ (Key.process_stopped, bool stopped)
    ∷ (Key.error, str message)
    ∷ (base_payload l ++ identity)

abbrev pub is_stopped : Option ℕ → Signals → Bool
is_stopped none signals = true
is_stopped (some pid) signals = terminate_process_group pid signals

-- The last writes, of which a failure is passed over.
abbrev pub write_failure : Option Text → Option Text → Option ℕ → Payload → Progress → Progress
write_failure (some message) status process payload p = p
write_failure none status (some pid) payload p = record p { runtime_file = some payload }
write_failure none (some message) none payload p = record p { runtime_file = some payload }
write_failure none none none payload p = record p {
  runtime_file = some payload;
  status_file = some payload;
}

-- The handler of the exceptions.
unfoldable pub report_failure : Launch → Sight → Text → Progress → Ending
unfolding load_explicit_completion
report_failure l s message p =
    let first = load_explicit_completion l s.status_failed in
    let second = load_explicit_completion l s.status_last in
    let payload =
      failure_payload l p.process_identity (is_stopped p.process s.signals_last) message in
    if not (is_empty first)
    then record { progress = p; printed = first; exit_code = 0 }
    else if not (is_empty second)
    then record { progress = p; printed = second; exit_code = 0 }
    else record {
      progress = write_failure (s.fails failed_runtime) (s.fails failed_status) p.process payload p;
      printed = payload;
      exit_code = 1;
    }

abbrev pub handle_attempt : Launch → Sight → Attempt → Ending
handle_attempt l s (ends ending) = ending
handle_attempt l s (throws message p) = report_failure l s message p

-- `main`
unfoldable pub run : Launch → Sight → Ending
unfolding try_launch report_failure
run l s = handle_attempt l s (try_launch l s)
