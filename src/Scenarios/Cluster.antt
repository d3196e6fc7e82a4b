-- ===== src/Scenarios/Cluster.antt =====
-- One user, one node with two GPUs, a waiting and a running task.
use nebula_grid.Base.{ℕ, true, false, none, some, [], ◌∷◌}
use nebula_grid.Base.Int.{pos}
use nebula_grid.Base.Text.{Text, codes}
use nebula_grid.Model.{
  TaskState, wait, running, violation_pending, student, enabled, User, online, Gpu, Node,
  public_access, public_sharing, TaskRequirement, Task, exclusive, TaskAllocation, TaskRuntimeGuard,
  Db,
}
use nebula_grid.Executor.Payload.{Payload, int, str, Key}
use nebula_grid.Executor.Collect.{Observation, contents}
use nebula_grid.Scheduler.Select.{Metrics}
use nebula_grid.RuntimeGuard.{Sampling}

abbrev pub alice : User
alice = record { id = 1; username = codes "alice"; role = student; state = enabled }

abbrev gpu : ℕ → Text → Gpu
gpu id uuid = record {
  id = id;
  gpu_index = id;
  gpu_uuid = uuid;
  model = codes "RTX 4090";
  total_vram_mb = 24000;
  compute_capability = some (codes "8.9");
  schedulable = true;
}

abbrev pub node : Node
node = record {
  id = 3;
  name = codes "gpu-a";
  ip = codes "10.0.0.2";
  owner_user_id = none;
  owner_user_ids = [];
  access_scope = some public_access;
  sharing_scope = some public_sharing;
  is_public = true;
  gpu_compute_capability_overrides = [];
  state = online;
  scheduling_enabled = true;
  gpus = gpu 7 (codes "GPU-7") ∷ gpu 8 (codes "GPU-8") ∷ [];
}

abbrev pub requirement : TaskRequirement
requirement = record {
  need_gpus = 1;
  gpu_types = [];
  node_id = none;
  allow_gpu_reuse = false;
  max_reuse_count = 1;
}

abbrev task : ℕ → Text → TaskState → Task
task id name state = record {
  id = id;
  task_id = name;
  user_id = 1;
  description = [];
  env_id = none;
  workdir = codes "/home/alice";
  command = codes "python train.py";
  generated_command = [];
  state = state;
  priority = 0;
  urgent = false;
  on_hold = false;
  last_block_reason = [];
  return_code = none;
  created_at = 10;
  started_at = none;
  finished_at = none;
  duration_seconds = none;
  requirement = some requirement;
}

abbrev pub waiting_task : Task
waiting_task = task 11 (codes "T11") wait

abbrev pub running_task : Task
running_task = task 12 (codes "T12") running

abbrev pub allocation : TaskAllocation
allocation = record {
  id = 21;
  task_id = 12;
  node_id = 3;
  gpu_ids = 7 ∷ [];
  cpu_allocated = 0;
  allocation_mode = exclusive;
  released_at = none;
}

abbrev pub guard : TaskRuntimeGuard
guard = record {
  id = 31;
  task_id = 12;
  node_id = 3;
  root_pid = some 500;
  process_group_id = some 500;
  allocated_gpu_ids = 7 ∷ [];
  observed_gpu_uuids = [];
  violation_count = 1;
  state = violation_pending;
  last_check_at = none;
}

abbrev pub cluster : Db
cluster = record {
  now = 1000;
  users = alice ∷ [];
  user_supervisors = [];
  nodes = node ∷ [];
  envs = [];
  settings = [];
  tasks = waiting_task ∷ running_task ∷ [];
  task_dependencies = [];
  task_allocations = allocation ∷ [];
  task_runtime_guards = guard ∷ [];
  task_events = [];
  next_id = 100;
}

abbrev pub metrics : Metrics
metrics = []

-- The runtime file of the running launch, and its status after the end.
abbrev runtime_file : Payload
runtime_file =
    (Key.task_id, str (codes "T12"))
    ∷ (Key.launch_id, int (pos 21))
    ∷ (Key.pid, int (pos 500))
    ∷ (Key.pgid, int (pos 500))
    ∷ (Key.process_start_time, int (pos 77))
    ∷ (Key.boot_id, str (codes "boot"))
    ∷ []

abbrev status_file : Payload
status_file = (Key.launch_id, int (pos 21)) ∷ (Key.return_code, int (pos 0)) ∷ []

abbrev pub ended : Observation
ended = record {
  status_file = status_file;
  runtime_file = runtime_file;
  remote_status = contents status_file;
  remote_runtime = contents runtime_file;
  stops = false;
  final_status = contents status_file;
}

-- A sample that shows a GPU of another task.
abbrev pub violation : Sampling
violation = record {
  file_before = some runtime_file;
  sample = some (codes "GPU-8" ∷ []);
  file_after = some runtime_file;
}
