-- ===== src/Executor/Safety.antt =====
-- The safety of the collection of remote results (backend/app/workers/task_executor.py): resources
-- are released with a terminal state only, and only on evidence that the launch has ended.
use nebula_grid.Base.{
  ℕ, ◌≡◌, refl, sym, ◌⊎◌, inl, inr, true, Option, none, some, List, [], ◌∷◌, not, ◌||◌, Bool-cases,
  if_ind, if◌then◌else◌, subst, ◌++◌,
}
use nebula_grid.Base.Text.{codes}
use nebula_grid.Model.{
  get_task-id, Task, TaskAllocation, Node, Db, get_task, get_node, is_cancelling, is_terminal,
  is_launched, load_open_allocations, unknown, set_task, set_guard_state, add_task_event,
  release_task_allocations,
}
use nebula_grid.Executor.Payload.{Payload, control_payload_matches_launch}
use nebula_grid.Executor.Finish.{return, raise, begin_start_failure_cleanup, mark_stop_retry}
use nebula_grid.Executor.Collect.{
  Read, unreachable, contents, Observation, stopping_timed_out, archive_unknown, unknown_reason,
  is_online, collect_running_status, collect_with_node, collect_with_allocation, mark_overlapping,
  collect_by_allocations, collect_task, collect_remote_status,
}
use nebula_grid.Executor.Effects.{
  IsPresent, Grounds, Quiet, Archives, Returns, returns, Returns-weaken, Returns-cases, if-Step,
  Quiet-refl, Quiet-trans, set-Archives, begin_start_failure-Quiet, mark_untracked-Quiet,
  mark_stop_retry-Quiet,
}
use nebula_grid.Executor.Evidence.{
  IsSource, node_status, HasEnded, returned, confirmed, IsMalformed, malformed, not-false, Ended,
}
use nebula_grid.Executor.Stopping.{collect_stopping-Step}
use nebula_grid.Executor.Settle.{archive_or, wrapper_failure-Step}

-- A launched task, once its status was read.
module _ (o : Observation) (task : Task) (allocation : TaskAllocation) (db : Db)
    (h : IsPresent task.id db) where
  abbrev E : Grounds
  E = Ended o allocation.id

  collect_running-Step :
      (status : Payload)
      → IsSource o status
      → Returns E task.id db (collect_running_status task allocation status db)
  unfolding collect_running_status
  collect_running-Step status source =
      if-Step E task.id db (not (control_payload_matches_launch status allocation.id)) _ _
        (λ _. returns E task.id db db (inl (Quiet-refl task.id db h)))
        (λ m.
          archive_or E task db h status _ (λ code e. returned code source (not-false m) e)
            (λ e. malformed source e)
            (if-Step E task.id db _ _ _
              (λ _.
                returns E task.id db _
                  (wrapper_failure-Step E task db h allocation status (confirmed source)))
              (λ _. returns E task.id db db (inl (Quiet-refl task.id db h)))))

  collect_node-Step :
      (node : Node) → Returns E task.id db (collect_with_node o task allocation node db)
  unfolding collect_with_node
  collect_node-Step node =
      if-Step E task.id db (is_cancelling task.state) _ _
        (λ _. collect_stopping-Step o task allocation db h) (λ _. go o.remote_status refl)
    where
      go :
          (r : Read)
          → o.remote_status ≡ r
          → Returns E task.id db (elim r [
            | unreachable message ↦
                if is_online node.state
                then return db
                else return
                    (begin_start_failure_cleanup task allocation (codes "运行中节点掉线: " ++ message) db)
            | contents status ↦ collect_running_status task allocation status db
          ])
      go (unreachable message) e =
          if-Step E task.id db (is_online node.state) _ _
            (λ _. returns E task.id db db (inl (Quiet-refl task.id db h)))
            (λ _.
              returns E task.id db
                (begin_start_failure_cleanup task allocation (codes "运行中节点掉线: " ++ message) db)
                (inl
                  (begin_start_failure-Quiet task db h allocation (codes "运行中节点掉线: " ++ message))))
      go (contents status) e = collect_running-Step status (node_status e)

  collect_allocation-Step : Returns E task.id db (collect_with_allocation o task allocation db)
  unfolding collect_with_allocation
  collect_allocation-Step = go (get_node allocation.node_id db)
    where
      go :
          (n : Option Node)
          → Returns E task.id db (elim n [
            | some node ↦ collect_with_node o task allocation node db
            | none ↦
                if is_cancelling task.state
                then return (mark_stop_retry task allocation db)
                else return (
                    mark_stop_retry task allocation
                      (begin_start_failure_cleanup task allocation (codes "节点记录不存在") db))
          ])
      go (some node) = collect_node-Step node
      go none =
          let db1 = begin_start_failure_cleanup task allocation (codes "节点记录不存在") db in
          let q = begin_start_failure-Quiet task db h allocation (codes "节点记录不存在") in
          if-Step E task.id db (is_cancelling task.state) _ _
            (λ _.
              returns E task.id db (mark_stop_retry task allocation db)
                (inl (mark_stop_retry-Quiet task db h allocation)))
            (λ _. returns E task.id db (mark_stop_retry task allocation db1) (
              inl (
                Quiet-trans task.id db db1 _ q
                  (mark_stop_retry-Quiet task db1 q.present allocation))))

-- Why a task may be archived: its stop took longer than the limit, or its one open launch ended.
abbrev pub Justified : ℕ → Observation → Task → Db → Type 0
Justified timeout o task db =
    (is_cancelling task.state ≡ true) × (stopping_timed_out timeout task db ≡ true)
    ⊎ ((a : TaskAllocation) × (load_open_allocations task.id db ≡ a ∷ []) × HasEnded o a.id)

module _ (timeout : ℕ) (o : Observation) (task : Task) (db : Db) (h : IsPresent task.id db) where
  abbrev J : Grounds
  J = record { ended = Justified timeout o task db; malformed = IsMalformed o }

  archive_unknown-Archives : Archives task.id db (archive_unknown timeout task db)
  unfolding archive_unknown set_guard_state add_task_event release_task_allocations get_task
      set_task is_terminal
  archive_unknown-Archives =
      set-Archives task.id
        (λ t. record t {
          state = unknown;
          finished_at = some db.now;
          return_code = none;
          last_block_reason = unknown_reason timeout;
        })
        db _ (λ t. refl) h refl refl (λ t. refl)

  by_allocations-Step :
      (open_allocations : List TaskAllocation)
      → load_open_allocations task.id db ≡ open_allocations
      → Returns J task.id db (collect_by_allocations o task open_allocations db)
  unfolding collect_by_allocations
  by_allocations-Step [] e =
      if-Step J task.id db (is_cancelling task.state) _ _
        (λ _.
          returns J task.id db _
            (inl (mark_untracked-Quiet task db h (codes "任务缺少未释放的 allocation，无法确认远端进程状态"))))
        (λ _. returns J task.id db db (inl (Quiet-refl task.id db h)))
  by_allocations-Step (a ∷ []) e =
      Returns-weaken (Ended o a.id) J task.id db _ (λ ended. inr (a, e, ended)) (λ m. m)
        (collect_allocation-Step o task a db h)
  by_allocations-Step (a ∷ b ∷ rest) e =
      returns J task.id db _ (inl (unfold mark_overlapping in mark_untracked-Quiet _ db h _))

  collect_task-Returns :
      (F : Grounds)
      → (is_cancelling task.state ≡ true → stopping_timed_out timeout task db ≡ true → F.ended)
      → Returns F task.id db (collect_by_allocations o task (load_open_allocations task.id db) db)
      → Returns F task.id db (collect_task timeout o task db)
  unfolding collect_task
  collect_task-Returns F late rest =
      if_ind (Returns F task.id db) (is_terminal task.state)
        (λ _. returns F task.id db db (inl (Quiet-refl task.id db h)))
        (λ _.
          if_ind (Returns F task.id db) (not (is_launched task.state || is_cancelling task.state))
            (λ _. returns F task.id db db (inl (Quiet-refl task.id db h)))
            (λ _. elim (Bool-cases (is_cancelling task.state)) [
              | inl c ↦ elim (Bool-cases (stopping_timed_out timeout task db)) [
                | inl e ↦
                    rw (c, e) (returns F task.id db _ (inr (archive_unknown-Archives, late c e)))
                | inr n ↦ rw (c, n) rest
              ]
              | inr n ↦ rw n rest
            ]))

  collect_task-Step : Returns J task.id db (collect_task timeout o task db)
  collect_task-Step = collect_task-Returns J (λ c e. inl (c, e)) (by_allocations-Step _ refl)

collect_remote_status-eq :
    (timeout : ℕ) (o : Observation) (pk : ℕ) (db : Db) (task : Task)
    → get_task pk db ≡ some task
    → collect_remote_status timeout o pk db ≡ collect_task timeout o task db
unfolding collect_remote_status
collect_remote_status-eq timeout o pk db task found = rw (found, collect_remote_status)

-- One collection of a task's remote results has one of three outcomes. Either it returns a database
-- with the same allocations; or the task has a terminal state, exactly its open allocations were
-- released, and a return code, a stop receipt or a successful termination of its one open launch
-- was seen, or the stop took longer than the limit; or it raised, and some payload carries a return
-- code with several signs.
pub collect_remote_status-safe :
    (timeout : ℕ) (o : Observation) (pk : ℕ) (db : Db) (task : Task)
    → get_task pk db ≡ some task
    → ((db' : Db) × (collect_remote_status timeout o pk db ≡ return db')
        × (Quiet pk db db' ⊎ Archives pk db db' × Justified timeout o task db))
      ⊎ ((collect_remote_status timeout o pk db ≡ raise) × IsMalformed o)
collect_remote_status-safe timeout o pk db task found =
    let same = get_task-id pk db task found in
    let h : IsPresent task.id db = rw (same, found) refl in
    let e = collect_remote_status-eq timeout o pk db task found in
    subst
      (λ r.
        ((db' : Db) × (r ≡ return db')
          × (Quiet pk db db' ⊎ Archives pk db db' × Justified timeout o task db))
        ⊎ ((r ≡ raise) × IsMalformed o))
      (sym e)
      (subst
        (λ k.
          ((db' : Db) × (collect_task timeout o task db ≡ return db')
            × (Quiet k db db' ⊎ Archives k db db' × Justified timeout o task db))
          ⊎ ((collect_task timeout o task db ≡ raise) × IsMalformed o))
        same (Returns-cases _ task.id db _ (collect_task-Step timeout o task db h)))
