-- ===== src/Tasks/Visible.antt =====
-- The task that a request names, and who may see and manage it
-- (backend/app/services/task_service.py).
use nebula_grid.Base.{
  Bool, true, false, ◌&&◌, ◌||◌, not, Option, none, some, ◌==◌, any, is_empty, if◌then◌else◌,
}
use nebula_grid.Base.Text.{Text, text_eq}
use nebula_grid.Base.Table.{first}
use nebula_grid.Model.{User, UserSupervisor, Task, Db, is_legacy_terminal, load_open_allocations}
use nebula_grid.Access.{is_admin, is_mentor}
use nebula_grid.Response.{Response, ok, error, ◌>>=◌, not_found, forbidden}

abbrev supervises : User → Task → UserSupervisor → Bool
supervises user task row = (row.supervisor_id == user.id) && (row.student_id == task.user_id)

unfoldable pub can_view_task : User → Task → Db → Bool
can_view_task user task db =
    if is_admin user.role
    then true
    else if task.user_id == user.id
    then true
    else if not (is_mentor user.role)
    then false
    else any (supervises user task) db.user_supervisors

unfoldable pub can_manage_task : User → Task → Db → Bool
unfolding can_view_task
can_manage_task user task db =
    (task.user_id == user.id)
    || (can_view_task user task db && (is_admin user.role || is_mentor user.role))

-- The task itself, if the user manages it.
unfoldable pub require_task_manager : User → Task → Db → Response Task
unfolding can_manage_task
require_task_manager user task db =
    if not (can_manage_task user task db) then error forbidden else ok task

unfoldable pub find_task_model : Text → Db → Option Task
find_task_model task_id db = first (λ t. text_eq t.task_id task_id) db.tasks

-- The row, if the user may see it; a hidden task is like a missing one.
unfoldable pub visible_task : User → Option Task → Db → Response Task
unfolding can_view_task
visible_task user none db = error not_found
visible_task user (some task) db =
    if not (can_view_task user task db) then error not_found else ok task

unfoldable pub require_task_model_for_user : User → Text → Db → Response Task
unfolding find_task_model visible_task
require_task_model_for_user user task_id db = visible_task user (find_task_model task_id db) db

-- A task that an older version archived before its processes were known to be gone.
unfoldable pub has_unconfirmed_cancel_cleanup : Task → Db → Bool
has_unconfirmed_cancel_cleanup task db =
    if not (is_legacy_terminal task.state)
    then false
    else not (is_empty (load_open_allocations task.id db))

-- The task of a request that changes it: visible to the user, and managed by the user.
unfoldable pub managed_task : User → Text → Db → Response Task
unfolding require_task_model_for_user require_task_manager
managed_task user task_id db = do
  task ← require_task_model_for_user user task_id db
  require_task_manager user task db
