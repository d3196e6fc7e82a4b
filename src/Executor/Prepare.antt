-- ===== src/Executor/Prepare.antt =====
-- The preparation of a start (`start_remote_task`, `build_generated_command` and
-- `allocation_cuda_indices` of backend/app/workers/task_executor.py), and the call of the remote
-- runner, whose answer is an argument.
use nebula_grid.Base.{
  ℕ, Bool, ◌&&◌, not, Option, none, some, List, [], ◌∷◌, ◌++◌, ◌==◌, ltb, member, map, is_empty,
  if◌then◌else◌,
}
use nebula_grid.Base.Int.{ℤ}
use nebula_grid.Base.Text.{Text, codes}
use nebula_grid.Base.Table.{select, sort_by}
use nebula_grid.Model.{Task, TaskAllocation, User, Node, Env, Gpu, Db, get_env}
use nebula_grid.Response.{Response, ok, ◌>>=◌}
use nebula_grid.Access.{is_admin}
use nebula_grid.PathResolver.{Files, Parts, resolve_user_visible_path}
use nebula_grid.Executor.Payload.{Payload, control_payload_matches_launch}

-- `quote` is `shlex.quote`, and `activate` the path of the activation script.
pub record Settings : Type 0 where
  pub files : Files
  pub runtime_root : Text
  pub activate : Text
  pub quote : Text → Text

-- `s.rstrip("/")`
unfoldable pub strip_slashes : Text → Text
strip_slashes [] = []
strip_slashes (c ∷ s) =
    let rest = strip_slashes s in if c == b'/' && is_empty rest then [] else c ∷ rest

unfoldable pub runtime_file_path : Settings → Text → Text → Text
unfolding strip_slashes
runtime_file_path settings task_id suffix =
    strip_slashes settings.runtime_root ++ (codes "/tasks/" ++ (task_id ++ suffix))

abbrev pub activation : Settings → Option Env → Text
activation settings none = []
activation settings (some env) =
    codes "conda activate " ++ (settings.quote env.name ++ codes " && ")

abbrev env_of_task : Option ℕ → Db → Option Env
env_of_task none db = none
env_of_task (some pk) db = get_env pk db

unfoldable pub build_generated_command : Settings → Task → Db → Text
build_generated_command settings task db =
    codes "source ~/.bashrc && source "
    ++ (settings.quote settings.activate
        ++ (codes " && "
            ++ (activation settings (env_of_task task.env_id db)
                ++ (codes
                      "export PYTHONUNBUFFERED=1 && export CUDA_DEVICE_ORDER=PCI_BUS_ID && export NCCL_P2P_DISABLE=1 && export QT_QPA_PLATFORM=offscreen && "
                    ++ task.command))))

abbrev by_index : Gpu → Gpu → Bool
by_index a b = ltb a.gpu_index b.gpu_index

abbrev gpus_of : List Node → List Gpu
gpus_of [] = []
gpus_of (n ∷ ns) = n.gpus ++ gpus_of ns

unfoldable pub allocation_cuda_indices : Db → TaskAllocation → List ℕ
allocation_cuda_indices db allocation =
    map (λ g. g.gpu_index)
      (sort_by by_index (select (λ g. member g.id allocation.gpu_ids) (gpus_of db.nodes)))

-- What the runner is told, without the path of the log.
pub record RunnerCall : Type 0 where
  pub task_id : Text
  pub launch_id : ℕ
  pub workdir : Parts
  pub command : Text
  pub runtime_path : Text
  pub status_path : Text
  pub cancel_path : Text
  pub cuda_visible_devices : List ℕ

-- The preparation, which may refuse the working directory.
unfoldable pub prepare_call : Settings → Task → User → TaskAllocation → Db → Response RunnerCall
unfolding build_generated_command allocation_cuda_indices runtime_file_path
prepare_call settings task owner allocation db = do
  workdir ←
      resolve_user_visible_path settings.files task.workdir owner.username (is_admin owner.role)
  ok (record {
    task_id = task.task_id;
    launch_id = allocation.id;
    workdir = workdir;
    command = build_generated_command settings task db;
    runtime_path = runtime_file_path settings task.task_id (codes ".json");
    status_path = runtime_file_path settings task.task_id (codes ".status.json");
    cancel_path = runtime_file_path settings task.task_id (codes ".cancel.json");
    cuda_visible_devices = allocation_cuda_indices db allocation;
  })

-- The call of the runner: the JSON object in what it printed, or an exception with its text, the exit
-- code of SSH if there is one, and the object in the output that the exception carries.
pub data Answer : Type 0 where
  printed : Payload → Answer
  failure : Text → Option ℤ → Payload → Answer

-- An answer without metadata of this very launch is an exception.
unfoldable pub check_answer : ℕ → Answer → Answer
check_answer launch (printed metadata) =
    if is_empty metadata
    then failure (codes "remote runner did not return valid JSON metadata") none []
    else if not (control_payload_matches_launch metadata launch)
    then failure (codes "remote runner returned metadata for a stale allocation") none []
    else printed metadata
check_answer launch (failure message returncode candidate) = failure message returncode candidate
