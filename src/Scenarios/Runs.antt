-- ===== src/Scenarios/Runs.antt =====
-- What the operations do to the cluster: runs, and the theorems at these runs.
use nebula_grid.Base.{
  ◌≡◌, ◌≤◌, refl, ◌⊎◌, true, false, some, [], ◌∷◌, All, length, arith, ◌||◌, ◌&&◌, is_some,
  dedup_from,
}
use nebula_grid.Base.Text.{codes, text_eq, contains, lower, strip}
use nebula_grid.Base.Table.{first, select, sort_by}
use nebula_grid.Scheduler.Select.{visible_schedulable_nodes, select_gpu_allocation, metric_of}
use nebula_grid.GpuCompatibility.{pytorch_gpu_compatibility}
use nebula_grid.Scheduler.Allocate.{allocate_task}
use nebula_grid.Model.{
  Task, cancelled, dispatching, is_waiting, is_running, is_active, is_terminal, task_zone_name,
  student, mentor, admin, Db, get_task, get_user, get_node,
}
use nebula_grid.Executor.Collect.{collect_remote_status}
use nebula_grid.Executor.Finish.{return, raise}
use nebula_grid.Executor.Effects.{Quiet, Archives}
use nebula_grid.Executor.Evidence.{IsMalformed}
use nebula_grid.Executor.Safety.{Justified, collect_remote_status-safe}
use nebula_grid.Executor.Batch.{
  load_rotating_task_batch, load_rotating_task_batch-InStates,
  restore_unconfirmed_legacy_cancellations,
}
use nebula_grid.Executor.Restored.{Outcome, restore_unconfirmed_legacy_cancellations-Outcome}
use nebula_grid.Tasks.Successors.Keeps.{HasKeys}
use nebula_grid.Scheduler.Occupancy.{load_gpu_occupancy, occupancy_of}
use nebula_grid.Scheduler.Holders.{holders, held_exclusively, load_gpu_occupancy_lem}
use nebula_grid.Scheduler.Invariant.{IsGood, scheduler_tick-IsGood}
use nebula_grid.Scheduler.Admission.{IsAdmitted, try_schedule_task-IsAdmitted}
use nebula_grid.Scheduler.Tick.{scheduler_tick, try_schedule_task}
use nebula_grid.Tasks.Commands.{parse_batch_commands, IsCommand, parse_batch_commands-IsCommand}
use nebula_grid.Model.Zones.{is_active-zones}
use nebula_grid.Access.{has_permission, is_control_plane_node, can_user_access_node}
use nebula_grid.Access.Permissions.{has_permission-student}
use nebula_grid.RuntimeGuard.{inspect_guard}
use nebula_grid.RuntimeGuard.Safety.{Inspected, inspect_guard-safe}
use nebula_grid.Scenarios.Cluster.{
  waiting_task, running_task, guard, cluster, metrics, ended, violation,
}

running_found : get_task 12 cluster ≡ some running_task
unfolding get_task first
running_found = refl

cluster-IsGood : IsGood cluster
unfolding held_exclusively holders
cluster-IsGood = record { one_holder = λ k h. ground arith; distinct = ((λ k. ground arith), tt) }

scheduled : (try_schedule_task metrics waiting_task cluster).0 ≡ true
unfolding try_schedule_task get_user first visible_schedulable_nodes sort_by select
    is_control_plane_node contains lower strip text_eq can_user_access_node dedup_from
    select_gpu_allocation occupancy_of load_gpu_occupancy metric_of pytorch_gpu_compatibility
    allocate_task get_node get_task
scheduled = refl

collect_remote_status-safe_example :
    ((db' : Db) × (collect_remote_status 60 ended 12 cluster ≡ return db')
      × (Quiet 12 cluster db' ⊎ Archives 12 cluster db' × Justified 60 ended running_task cluster))
    ⊎ ((collect_remote_status 60 ended 12 cluster ≡ raise) × IsMalformed ended)
collect_remote_status-safe_example =
    collect_remote_status-safe 60 ended 12 cluster running_task running_found

scheduler_tick-IsGood_example : IsGood (scheduler_tick true metrics cluster).1
scheduler_tick-IsGood_example = scheduler_tick-IsGood true metrics cluster cluster-IsGood

inspect_guard-safe_example :
    Inspected
      (λ db. db)
      violation
      guard
      cluster
      (inspect_guard (λ db. db) violation guard cluster).1
inspect_guard-safe_example = inspect_guard-safe (λ db. db) violation guard cluster

try_schedule_task-IsAdmitted_example : IsAdmitted waiting_task cluster
try_schedule_task-IsAdmitted_example =
    try_schedule_task-IsAdmitted metrics waiting_task cluster scheduled

load_gpu_occupancy_lem_example :
    ((occupancy_of 7 (load_gpu_occupancy cluster)).count ≡ holders 7 cluster.task_allocations)
    × ((occupancy_of 7 (load_gpu_occupancy cluster)).exclusive
        ≡ held_exclusively 7 cluster.task_allocations)
load_gpu_occupancy_lem_example = load_gpu_occupancy_lem cluster 7

load_rotating_task_batch-InStates_example :
    (length (load_rotating_task_batch is_running 11 5 cluster).0 ≤ 5)
    × All (λ t. is_running t.state ≡ true) (load_rotating_task_batch is_running 11 5 cluster).0
load_rotating_task_batch-InStates_example =
    load_rotating_task_batch-InStates is_running 11 5 cluster

-- A task that an older version archived as cancelled while it held its GPUs.
abbrev archived : Task
archived = record running_task { state = cancelled; finished_at = some 900 }

abbrev archive : Db
archive = record cluster { tasks = waiting_task ∷ archived ∷ [] }

archive-HasKeys : HasKeys archive
unfolding get_task first
archive-HasKeys = (refl, (refl, tt))

archived_found : get_task 12 archive ≡ some archived
unfolding get_task first
archived_found = refl

restore_unconfirmed_legacy_cancellations-Outcome_example :
    Outcome 12 archived archive (restore_unconfirmed_legacy_cancellations archive).1
    × ((restore_unconfirmed_legacy_cancellations archive).1.task_allocations
        ≡ archive.task_allocations)
restore_unconfirmed_legacy_cancellations-Outcome_example =
    restore_unconfirmed_legacy_cancellations-Outcome 12 archived archive archive-HasKeys
      archived_found

parse_batch_commands-IsCommand_example : All IsCommand (parse_batch_commands (codes "a # b\n\n c "))
parse_batch_commands-IsCommand_example = parse_batch_commands-IsCommand (codes "a # b\n\n c ")

is_active-zones_example :
    (is_active dispatching ≡ (is_waiting dispatching || is_running dispatching))
    × ((is_active dispatching && is_terminal dispatching) ≡ false)
    × (is_some (task_zone_name dispatching) ≡ (is_active dispatching || is_terminal dispatching))
is_active-zones_example = is_active-zones dispatching

student_reads : has_permission student (codes "tasks:read") ≡ true
unfolding has_permission text_eq
student_reads = refl

has_permission-student_example :
    (has_permission mentor (codes "tasks:read") ≡ true)
    × (has_permission admin (codes "tasks:read") ≡ true)
has_permission-student_example = has_permission-student (codes "tasks:read") student_reads
