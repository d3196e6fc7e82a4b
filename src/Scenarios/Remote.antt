-- ===== src/Scenarios/Remote.antt =====
-- Runs of the remote runner (backend/app/remote/runner.py).
use nebula_grid.Base.{◌≡◌, refl, ◌⊎◌, ◌↔◌, true, false, none, some, [], ◌∷◌}
use nebula_grid.Base.Int.{pos}
use nebula_grid.Base.Text.{codes, text_eq}
use nebula_grid.Executor.Payload.{
  Key, int, get, control_payload_confirms_stopped, control_payload_matches_launch,
  strict_positive_int,
}
use nebula_grid.Executor.Prepare.{printed, check_answer}
use nebula_grid.Runner.{Launch, Sight, run}
use nebula_grid.Runner.Group.{
  Scan, stat, other, gone, Signals, sent, terminate_process_group,
  terminate_process_group-IsEmptied, IsEmptied,
}
use nebula_grid.Runner.Quote.{outside, read_word, shell_quote, read_word-shell_quote}
use nebula_grid.Runner.Outcomes.{answer, IsOver, IsCompletion, run-IsOver, run-accepted}

abbrev launch : Launch
launch = record { task_id = codes "T12"; launch_id = 21 }

abbrev busy_scan : Scan
busy_scan = some (other ∷ stat 500 false ∷ stat 7 false ∷ [])

abbrev quiet_scan : Scan
quiet_scan = some (other ∷ gone ∷ stat 500 true ∷ stat 7 false ∷ [])

abbrev signals : Signals
signals = record {
  before = busy_scan;
  terminate = sent;
  after_terminate = record { polls = busy_scan ∷ []; last = busy_scan };
  kill = sent;
  after_kill = record { polls = busy_scan ∷ quiet_scan ∷ []; last = quiet_scan };
}

-- A stop is requested just after the process was created.
abbrev sight : Sight
sight = record {
  fails = λ point. none;
  cancel_before = [];
  cancel_prepared = [];
  cancel_launched = (Key.launch_id, int (pos 21)) ∷ [];
  status_first = [];
  status_second = [];
  status_failed = [];
  status_last = [];
  boot_id = codes "boot";
  pid = 500;
  process_start_time = some 77;
  signals_first = signals;
  signals_last = signals;
}

terminate_process_group-IsEmptied_example :
    (terminate_process_group 500 signals ≡ true) ↔ IsEmptied 500 signals
terminate_process_group-IsEmptied_example = terminate_process_group-IsEmptied 500 signals

confirmed : control_payload_confirms_stopped (run launch sight).printed 21 ≡ true
unfolding control_payload_confirms_stopped run control_payload_matches_launch get
    strict_positive_int text_eq
confirmed = refl

run-IsOver_example :
    IsOver launch sight (run launch sight).progress.process
    ⊎ IsCompletion launch sight (run launch sight).printed
run-IsOver_example = run-IsOver launch sight (run launch sight).printed answer confirmed

run-accepted_example :
    (check_answer 21 (printed (run launch sight).printed) ≡ printed (run launch sight).printed)
    ⊎ IsCompletion launch sight (run launch sight).printed
run-accepted_example = run-accepted launch sight

read_word-shell_quote_example :
    read_word outside (shell_quote (codes "echo 'a b' > out")) ≡ some (codes "echo 'a b' > out")
read_word-shell_quote_example = read_word-shell_quote (codes "echo 'a b' > out")
