-- ===== src/Scenarios/Requests.antt =====
-- Requests on the tasks, process trees, paths and a node that is silent: runs on the small cluster, and
-- the theorems at these runs.
use nebula_grid.Base.{
  ℕ, ◌≡◌, refl, ◌⊎◌, ◌↔◌, true, false, none, some, List, [], ◌∷◌, All, is_empty, member, arith,
}
use nebula_grid.Base.Int.{pos}
use nebula_grid.Base.Text.{Text, codes, text_eq, starts_with, split, strip, contains, lower}
use nebula_grid.Base.Table.{first, select, sort_by}
use nebula_grid.Model.{
  User, admin, succeeded, Db, Task, get_task, get_node, is_running, get_user, update_task_duration,
}
use nebula_grid.Access.{has_permission, is_control_plane_node}
use nebula_grid.Response.{Response, ok, error, validation_error, forbidden}
use nebula_grid.PathResolver.{
  Files, VirtualPath, normalize_virtual_path, candidate_path, resolve_user_visible_path,
}
use nebula_grid.PathResolver.Containment.{IsAllowed, resolve_user_visible_path-IsAllowed}
use nebula_grid.RuntimeGuard.Processes.{expand_pid_tree, Process}
use nebula_grid.RuntimeGuard.Processes.Reach.{Descends, expand_pid_tree-Descends}
use nebula_grid.Tasks.Visible.{
  managed_task, find_task_model, can_view_task, has_unconfirmed_cancel_cleanup,
}
use nebula_grid.Tasks.Create.{
  Surroundings, TaskCreateRequest, create_task_model, require_user_model, validate_env,
}
use nebula_grid.Tasks.Create.Fresh.{Submitted, KeysBelow, create_task_model-Submitted}
use nebula_grid.Tasks.Update.{TaskUpdateRequest, unset, given, update_task, breaks_columns}
use nebula_grid.Tasks.Update.Requeue.{Edited, update_task-Edited}
use nebula_grid.Tasks.Successors.{TaskDeleteResult, delete_task, load_successor_tasks}
use nebula_grid.Tasks.Successors.Keeps.{HasKeys, delete_task-keeps}
use nebula_grid.Tasks.Successors.Rounds.{load_successor_tasks-total}
use nebula_grid.Nodes.Monitor.{is_watched, Frame, Connection, closed, failed, run_monitor}
use nebula_grid.Nodes.Offline.{force_offline_node, is_interrupted, is_unlaunched, open_of}
use nebula_grid.Nodes.Interrupt.{allocations_of, force_offline_node-keeps}
use nebula_grid.Nodes.Paused.{IsSilent, GivesUp, run_monitor-GivesUp}
use nebula_grid.Nodes.Elsewhere.{OnlyNode, run_monitor-OnlyNode}
use nebula_grid.Scenarios.Cluster.{alice, waiting_task, running_task, requirement, cluster}

-- The value of a request that succeeds.
abbrev taken {ℓ} : {A : Type ℓ} → Response A → A → A
taken (ok a) other = a
taken (error e) other = other

abbrev table : List Process
table = (501, 500) ∷ (502, 501) ∷ (500, 502) ∷ (7, 1) ∷ []

expand_pid_tree-Descends_example :
    (pids : List ℕ) × (expand_pid_tree 500 table ≡ some pids)
    × ((pid : ℕ) → (member pid pids ≡ true) ↔ Descends table 500 pid)
expand_pid_tree-Descends_example = expand_pid_tree-Descends 500 table

abbrev files : Files
files = record {
  resolve = λ p. p;
  user_home_root = codes "/data/users";
  main_linux_user = codes "nebula";
  visible_roots = codes "/data/shared" ∷ codes "/data/users" ∷ [];
}

abbrev shared_file : Text
shared_file = codes "/data/shared/a"

abbrev name : Text
name = codes "alice"

resolve_user_visible_path-IsAllowed_example :
    ((starts_with shared_file (codes "/") ≡ false)
      × (resolve_user_visible_path files shared_file name false ≡ error validation_error))
    ⊎ ((normalized : VirtualPath) × (normalize_virtual_path shared_file ≡ ok normalized)
        × (((resolve_user_visible_path files shared_file name false ≡ error forbidden)
              × ¬ IsAllowed files name false
                  (files.resolve (candidate_path files name false normalized)))
            ⊎ ((resolve_user_visible_path files shared_file name false
                  ≡ ok (files.resolve (candidate_path files name false normalized)))
                × IsAllowed files name false
                    (files.resolve (candidate_path files name false normalized)))))
resolve_user_visible_path-IsAllowed_example =
    resolve_user_visible_path-IsAllowed files shared_file name false

abbrev around : Surroundings
around = record { files = files; stamp = λ attempt. codes "T20" }

abbrev submission : TaskCreateRequest
submission = record {
  description = [];
  env_id = none;
  workdir = codes "/work";
  command = codes "python train.py";
  priority = 0;
  urgent = true;
  on_hold = false;
  predecessor_task_id = some (codes "T12");
  requirement = requirement;
}

abbrev submitted : ℕ × Db
submitted = taken (create_task_model around alice submission 1 cluster) (0, cluster)

submission_taken : create_task_model around alice submission 1 cluster ≡ ok (100, submitted.1)
unfolding create_task_model has_permission text_eq get_user first resolve_user_visible_path
    starts_with select split find_task_model strip update_task_duration can_view_task
submission_taken = refl

cluster-KeysBelow : KeysBelow cluster
cluster-KeysBelow = (omega arith, (omega arith, tt))

create_task_model-Submitted_example : Submitted submission cluster submitted.1 100
create_task_model-Submitted_example =
    create_task_model-Submitted around alice submission 1 100 cluster submitted.1 cluster-KeysBelow
      submission_taken

running_found : get_task 12 cluster ≡ some running_task
unfolding get_task first
running_found = refl

abbrev edit : TaskUpdateRequest
edit = record {
  description = unset;
  env_id = unset;
  workdir = unset;
  command = given (codes "python eval.py");
  priority = unset;
  urgent = given true;
  on_hold = unset;
  predecessor_task_id = unset;
  requirement = unset;
}

-- A task of the history, whose row is edited.
abbrev finished_task : Task
finished_task = record running_task {
  state = succeeded;
  return_code = some (pos 0);
  started_at = some 20;
  finished_at = some 30;
  generated_command = codes "cd /work";
}

abbrev history : Db
history = record cluster { tasks = waiting_task ∷ finished_task ∷ [] }

finished_managed : managed_task alice (codes "T12") history ≡ ok finished_task
unfolding managed_task first text_eq
finished_managed = refl

finished_found : get_task 12 history ≡ some finished_task
unfolding get_task first
finished_found = refl

abbrev edited_history : Db
edited_history = taken (update_task files alice (codes "T12") edit history) history

edit_taken : update_task files alice (codes "T12") edit history ≡ ok edited_history
unfolding update_task managed_task first text_eq get_task is_running has_unconfirmed_cancel_cleanup
    require_user_model get_user validate_env breaks_columns
edit_taken = refl

update_task-Edited_example :
    (is_running finished_task.state ≡ false)
    × (has_unconfirmed_cancel_cleanup finished_task history ≡ false)
    × Edited finished_task history edited_history
update_task-Edited_example =
    update_task-Edited files alice (codes "T12") edit finished_task history edited_history
      finished_managed finished_found edit_taken

-- The running task depends on the waiting one, and is not deleted along with it.
abbrev chained : Db
chained = record cluster { task_dependencies = record { task_id = 12; prev_task_id = 11 } ∷ [] }

abbrev deleted : TaskDeleteResult × Db
deleted =
    taken (delete_task alice (codes "T11") true chained)
      (record { removed = []; skipped_running = [] }, chained)

deletion_taken : delete_task alice (codes "T11") true chained ≡ ok (deleted.0, deleted.1)
unfolding delete_task managed_task first text_eq sort_by select get_task is_running
    has_unconfirmed_cancel_cleanup
deletion_taken = refl

chained-HasKeys : HasKeys chained
unfolding get_task first
chained-HasKeys = (refl, (refl, tt))

running_chained : get_task 12 chained ≡ some running_task
unfolding get_task first
running_chained = refl

delete_task-keeps_example : get_task 12 deleted.1 ≡ some running_task
unfolding is_running
delete_task-keeps_example =
    delete_task-keeps alice (codes "T11") true chained deleted.1 deleted.0 12 running_task
      chained-HasKeys running_chained refl deletion_taken

load_successor_tasks-total_example :
    (tasks : List Task) × (load_successor_tasks 11 chained ≡ some tasks)
load_successor_tasks-total_example = load_successor_tasks-total 11 chained

abbrev silence : Connection
silence = record { frames = []; ending = failed }

abbrev silences : List Connection
silences = silence ∷ silence ∷ silence ∷ []

node_watched : is_watched (get_node 3 cluster) ≡ true
unfolding is_watched get_node first is_control_plane_node contains lower strip text_eq
node_watched = refl

silences-IsSilent : All IsSilent silences
silences-IsSilent = ((refl, refl), ((refl, refl), ((refl, refl), tt)))

run_monitor-GivesUp_example : GivesUp 3 (run_monitor (true ∷ []) 3 2 silences cluster)
run_monitor-GivesUp_example =
    run_monitor-GivesUp (true ∷ []) 3 2 silences cluster node_watched silences-IsSilent
      (omega arith)

abbrev frame : Frame
frame = record { gpus = none }

-- A frame, and then silence.
abbrev lost : List Connection
lost = record { frames = frame ∷ []; ending = closed true } ∷ silences

run_monitor-OnlyNode_example : OnlyNode 3 cluster (run_monitor (true ∷ []) 3 2 lost cluster).1
run_monitor-OnlyNode_example = run_monitor-OnlyNode (true ∷ []) 3 2 lost cluster

abbrev chief : User
chief = record alice { role = admin }

abbrev forced : Db
forced = taken (force_offline_node chief 3 cluster) cluster

force_taken : force_offline_node chief 3 cluster ≡ ok forced
unfolding force_offline_node has_permission text_eq get_node first is_control_plane_node contains
    lower strip
force_taken = refl

running_interrupted : is_interrupted running_task ≡ true
unfolding is_running
running_interrupted = refl

running_launched : is_unlaunched running_task (open_of 3 12 cluster) ≡ false
unfolding is_unlaunched select
running_launched = refl

running_holds : is_empty (open_of 3 12 cluster) ≡ false
unfolding select
running_holds = refl

force_offline_node-keeps_example : allocations_of 12 forced ≡ allocations_of 12 cluster
force_offline_node-keeps_example =
    force_offline_node-keeps chief 3 12 running_task cluster forced running_found
      running_interrupted running_launched running_holds force_taken
