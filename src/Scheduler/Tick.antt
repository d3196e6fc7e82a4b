-- ===== src/Scheduler/Tick.antt =====
-- One scheduling attempt and one tick of the worker (backend/app/workers/scheduler.py).
use nebula_grid.Base.{
  ℕ, Bool, true, false, ◌&&◌, ◌||◌, not, Option, none, some, List, [], ◌∷◌, ◌++◌, ◌==◌, ltb, any,
  take, if◌then◌else◌,
}
use nebula_grid.Base.Text.{codes, text_eq, lower}
use nebula_grid.Base.Table.{select, first, sort_by}
use nebula_grid.Model.{
  is_wait, is_succeeded, is_terminal, dependency_failed, enabled, UserState, User, Node, Task,
  TaskRequirement, TaskDependency, cpu, of_state, Db, get_task, get_user, get_setting, set_task,
  add_task_event, is_open_for,
}
use nebula_grid.Scheduler.Select.{
  Metrics, Selection, select_gpu_allocation, visible_schedulable_nodes,
}
use nebula_grid.Scheduler.Allocate.{allocate_task, release_terminal_allocations, mark_blocked}

-- What the check of the predecessor does to a task whose dependency row names `predecessor`.
unfoldable pub check_predecessor : Task → Option Task → Db → Bool × Db
check_predecessor task none db = (false, mark_blocked task (codes "前驱任务不存在") db)
check_predecessor task (some predecessor) db =
    let reason = codes "前驱任务 " ++ (predecessor.task_id ++ codes " 未成功完成") in
    if is_succeeded predecessor.state
    then (true, db)
    else if is_terminal predecessor.state
    then (
      false,
      add_task_event task.id (of_state dependency_failed) none (
          set_task task.id
            (λ t. record t {
              state = dependency_failed;
              finished_at = some db.now;
              last_block_reason = reason;
            })
            db),
    )
    else (false, mark_blocked task (codes "等待前驱任务 " ++ predecessor.task_id) db)

abbrev pub find_dependency : ℕ → Db → Option TaskDependency
find_dependency pk db = first (λ d. d.task_id == pk) db.task_dependencies

unfoldable pub check_dependency : Task → Option TaskDependency → Db → Bool × Db
unfolding check_predecessor
check_dependency task none db = (true, db)
check_dependency task (some dependency) db =
    check_predecessor task (get_task dependency.prev_task_id db) db

unfoldable pub dependency_satisfied : Task → Db → Bool × Db
unfolding check_dependency
dependency_satisfied task db = check_dependency task (find_dependency task.id db) db

abbrev pub is_enabled : UserState → Bool
is_enabled enabled = true
is_enabled _ = false

-- What follows the choice of GPUs.
unfoldable pub allocate_selected : Task → Option Selection → Db → Bool × Db
allocate_selected task none db = (false, mark_blocked task (codes "没有满足 GPU 数量、型号或复用策略的资源") db)
allocate_selected task (some s) db = allocate_task task.id s.node.id s.gpus s.mode db

-- The choice of resources among the candidate nodes.
unfoldable pub schedule_on : Metrics → TaskRequirement → Task → List Node → Db → Bool × Db
unfolding allocate_selected
schedule_on metrics requirement task [] db = (false, mark_blocked task (codes "没有可调度节点") db)
schedule_on metrics requirement task (node ∷ nodes) db =
    if requirement.need_gpus == 0
    then allocate_task task.id node.id [] cpu db
    else allocate_selected task (select_gpu_allocation db (node ∷ nodes) task requirement metrics)
        db

unfoldable pub schedule_resources : Metrics → User → TaskRequirement → Task → Db → Bool × Db
unfolding schedule_on
schedule_resources metrics owner requirement task db =
    schedule_on metrics requirement task (visible_schedulable_nodes db owner requirement.node_id) db

unfoldable pub schedule_required : Metrics → User → Task → Option TaskRequirement → Db → Bool × Db
unfolding schedule_resources
schedule_required metrics owner task none db = (false, mark_blocked task (codes "任务缺少资源需求") db)
schedule_required metrics owner task (some requirement) db =
    schedule_resources metrics owner requirement task db

unfoldable pub schedule_ready : Metrics → User → Task → Db → Bool × Db
unfolding schedule_required
schedule_ready metrics owner task db = schedule_required metrics owner task task.requirement db

unfoldable pub schedule_for_owner : Metrics → User → Task → Db → Bool × Db
unfolding dependency_satisfied schedule_ready
schedule_for_owner metrics owner task db =
    let (satisfied, db1) = dependency_satisfied task db in
    if satisfied then schedule_ready metrics owner task db1 else (false, db1)

-- The task's owner, if the row exists.
unfoldable pub schedule_owned : Metrics → Task → Option User → Db → Bool × Db
unfolding schedule_for_owner
schedule_owned metrics task none db = (false, mark_blocked task (codes "任务所有人已停用或不存在") db)
schedule_owned metrics task (some owner) db =
    if is_enabled owner.state
    then schedule_for_owner metrics owner task db
    else (false, mark_blocked task (codes "任务所有人已停用或不存在") db)

unfoldable pub try_schedule_task : Metrics → Task → Db → Bool × Db
unfolding schedule_owned
try_schedule_task metrics task db =
    if any (is_open_for task.id) db.task_allocations
    then (false, mark_blocked task (codes "任务仍有未释放的历史资源占用，暂不重新调度") db)
    else schedule_owned metrics task (get_user task.user_id db) db

-- The loop of the tick: it stops at the first task that is scheduled.
unfoldable pub schedule_first : Metrics → List Task → Db → ℕ × Db
unfolding try_schedule_task
schedule_first metrics [] db = (0, db)
schedule_first metrics (task ∷ tasks) db =
    let (scheduled, db1) = try_schedule_task metrics task db in
    let later = schedule_first metrics tasks db1 in if scheduled then (1, db1) else later

-- `order_by(urgent.desc(), priority.desc(), created_at.asc())`
unfoldable pub waits_before : Task → Task → Bool
waits_before a b =
    (a.urgent && not b.urgent)
    || (not (not a.urgent && b.urgent)
        && not (a.urgent && not b.urgent)
        && (ltb b.priority a.priority
            || (a.priority == b.priority && ltb a.created_at b.created_at)))

unfoldable pub waiting_tasks : Db → List Task
unfolding waits_before
waiting_tasks db = take 50 (sort_by waits_before (select (λ t. is_wait t.state) db.tasks))

unfoldable pub scheduler_enabled : Db → Bool
scheduler_enabled db = elim (get_setting (codes "scheduler.enabled") db) [
  | none ↦ true
  | some setting ↦ text_eq (lower setting.value) (codes "true")
]

-- `locked` tells whether the sentinel row was locked. The result counts the scheduled tasks.
unfoldable pub scheduler_tick : Bool → Metrics → Db → ℕ × Db
unfolding schedule_first waiting_tasks scheduler_enabled
scheduler_tick locked metrics db =
    if not (scheduler_enabled db)
    then (0, db)
    else if not locked
    then (0, db)
    else let (released, db1) = release_terminal_allocations db in
      schedule_first metrics (waiting_tasks db1) db1
