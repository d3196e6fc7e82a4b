-- ===== src/Scenarios/Launches.antt =====
-- The start of a task on the small cluster (backend/app/workers/task_executor.py), and the theorem at
-- this run.
use nebula_grid.Base.{◌≡◌, refl, ◌⊎◌, some, [], ◌∷◌}
use nebula_grid.Base.Int.{pos}
use nebula_grid.Base.Text.{codes}
use nebula_grid.Base.Table.{first}
use nebula_grid.Model.{Db, Task, starting, get_task}
use nebula_grid.Executor.Payload.{int, str, Key}
use nebula_grid.Executor.Finish.{return, raise}
use nebula_grid.Executor.Effects.{Quiet, Archives}
use nebula_grid.Executor.Prepare.{Settings, printed}
use nebula_grid.Executor.Launch.{Launching, start_remote_task}
use nebula_grid.Executor.Launch.Safe.{NoProcess, IsBadLaunch, start_remote_task-safe}
use nebula_grid.Scenarios.Cluster.{running_task, cluster}

abbrev pub settings : Settings
settings = record {
  files = record {
    resolve = λ p. p;
    user_home_root = codes "/data/users";
    main_linux_user = codes "nebula";
    visible_roots = codes "/data/users" ∷ [];
  };
  runtime_root = codes "/data/runtime/";
  activate = codes "/opt/conda/bin/activate";
  quote = λ s. s;
}

abbrev pub launching : Launching
launching = record {
  during = λ d. d;
  answer = λ call. printed (
      (Key.launch_id, int (pos 21))
      ∷ (Key.state, str (codes "running"))
      ∷ (Key.pid, int (pos 500))
      ∷ (Key.pgid, int (pos 500))
      ∷ (Key.process_start_time, int (pos 77))
      ∷ (Key.boot_id, str (codes "boot"))
      ∷ []);
  status_file = [];
  runtime_file = [];
}

abbrev starting_task : Task
starting_task = record running_task { state = starting; workdir = codes "/work" }

abbrev claimed : Db
claimed = record cluster { tasks = starting_task ∷ [] }

starting_found : get_task 12 claimed ≡ some starting_task
unfolding get_task first
starting_found = refl

start_remote_task-safe_example :
    ((db' : Db) × (start_remote_task settings launching starting_task claimed ≡ return db')
      × (Quiet 12 claimed db'
          ⊎ Archives 12 claimed db' × NoProcess settings launching starting_task claimed))
    ⊎ ((start_remote_task settings launching starting_task claimed ≡ raise) × IsBadLaunch launching)
start_remote_task-safe_example =
    start_remote_task-safe settings launching starting_task starting_task claimed refl
      starting_found
