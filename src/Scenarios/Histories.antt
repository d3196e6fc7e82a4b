-- ===== src/Scenarios/Histories.antt =====
-- A stop and a tick of the scheduler, one after the other, on the small cluster
-- (backend/app/services/task_service.py, backend/app/workers/scheduler.py).
use nebula_grid.Base.{◌≡◌, refl, sym, subst, true, some, All, arith}
use nebula_grid.Base.Text.{codes, text_eq}
use nebula_grid.Base.Table.{first, select, sort_by}
use nebula_grid.Response.{Response, ok, error}
use nebula_grid.Model.{
  Db, Node, get_task, get_node, get_task-id, is_terminal, load_open_allocations, add_task_event,
  set_guard_state, set_task,
}
use nebula_grid.Tasks.Visible.{managed_task}
use nebula_grid.Tasks.Stop.{cancel_task}
use nebula_grid.Scheduler.Tick.{scheduler_tick}
use nebula_grid.Scheduler.Holders.{holders, held_exclusively}
use nebula_grid.Scheduler.Exclusive.{IsExclusive, IsDistinct}
use nebula_grid.Interplay.{ClusterRun, stays, goes_on, cancels, schedules, ClusterRun-IsExclusive}
use nebula_grid.Executor.Finish.{Outcome, return, raise, finish_from_explicit_return_code}
use nebula_grid.Executor.Batch.{load_rotating_task_batch, restore_unconfirmed_legacy_cancellations}
use nebula_grid.Executor.Collect.{collect_remote_status}
use nebula_grid.Executor.Payload.{
  control_payload_matches_launch, get, strict_positive_int, explicit_return_code,
}
use nebula_grid.Executor.Tick.{Round, Cursors, task_executor_tick}
use nebula_grid.Interplay.Rounds.{IsFair, task_executor_tick-IsExclusive}
use nebula_grid.Scenarios.Cluster.{alice, running_task, cluster, metrics, ended}
use nebula_grid.Scenarios.Launches.{settings, launching}

abbrev stopped : Response Db → Db
stopped (ok db) = db
stopped (error e) = cluster

abbrev stopping : Db
stopping = stopped (cancel_task alice (codes "T12") cluster)

running_managed : managed_task alice (codes "T12") cluster ≡ ok running_task
unfolding managed_task first text_eq
running_managed = refl

running_found : get_task 12 cluster ≡ some running_task
unfolding get_task first
running_found = refl

stop_taken : cancel_task alice (codes "T12") cluster ≡ ok stopping
unfolding cancel_task managed_task first text_eq get_task is_terminal load_open_allocations sort_by
    select
stop_taken = refl

cluster-IsExclusive : IsExclusive cluster.task_allocations
unfolding held_exclusively holders
cluster-IsExclusive = λ k h. ground arith

stopping_gpus : All (λ (n : Node). IsDistinct n.gpus) stopping.nodes
unfolding cancel_task managed_task first text_eq get_task is_terminal load_open_allocations sort_by
    select add_task_event set_guard_state set_task
stopping_gpus = ((λ k. ground arith), tt)

history : ClusterRun cluster (scheduler_tick true metrics stopping).1
history =
    goes_on
      (goes_on stays
        (cancels alice (codes "T12") running_task running_managed running_found stop_taken))
      (schedules true metrics stopping_gpus)

ClusterRun-IsExclusive_example :
    IsExclusive (scheduler_tick true metrics stopping).1.task_allocations
ClusterRun-IsExclusive_example =
    ClusterRun-IsExclusive cluster (scheduler_tick true metrics stopping).1 cluster-IsExclusive
      history

-- The executor collects the running task, which has ended.
abbrev round : Round
round = record {
  settings = settings;
  timeout_seconds = 60;
  observe = λ pk. ended;
  launching = λ pk. launching;
  between = λ d. d;
}

round-IsFair : IsFair round
round-IsFair = record {
  between = λ d h. h;
  during = λ pk d h. h;
  keeps = λ pk task d found.
      (task, subst (λ k. get_task k d ≡ some task) (sym (get_task-id pk d task found)) found);
}

abbrev after_tick : Outcome (Cursors × Db) → Cursors × Db
after_tick (return r) = r
after_tick raise = (record { stopping = 0; active = 0 }, cluster)

abbrev ticked : Cursors × Db
ticked = after_tick (task_executor_tick round (record { stopping = 0; active = 0 }) cluster)

tick_taken :
    task_executor_tick round (record { stopping = 0; active = 0 }) cluster
    ≡ return (ticked.0, ticked.1)
unfolding task_executor_tick load_rotating_task_batch sort_by select
    restore_unconfirmed_legacy_cancellations first collect_remote_status get_task is_terminal
    load_open_allocations get_node control_payload_matches_launch get strict_positive_int
    finish_from_explicit_return_code explicit_return_code
tick_taken = refl

task_executor_tick-IsExclusive_example : IsExclusive ticked.1.task_allocations
task_executor_tick-IsExclusive_example =
    task_executor_tick-IsExclusive round (record { stopping = 0; active = 0 }) ticked.0 cluster
      ticked.1 round-IsFair cluster-IsExclusive tick_taken
