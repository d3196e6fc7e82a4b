-- ===== src/Model/Reason.antt =====
-- The block reasons whose prefix the program tests (backend/app/services/task_service.py,
-- backend/app/workers/task_executor.py).
use nebula_grid.Base.{◌≡◌, refl, Bool, true, false, [], ◌++◌}
use nebula_grid.Base.Text
use nebula_grid.Base.Text.{Text, codes, starts_with}

unfoldable pub alloc_error_stop_reason_prefix : Text
alloc_error_stop_reason_prefix = codes "Runtime Guard 检测到任务使用未分配 GPU"

unfoldable pub auto_stop_reason_prefix : Text
auto_stop_reason_prefix = codes "系统检测到远端执行异常"

-- `reason.startswith(ALLOC_ERROR_STOP_REASON_PREFIX)`
unfoldable pub is_alloc_error_reason : Text → Bool
is_alloc_error_reason reason = starts_with reason alloc_error_stop_reason_prefix

-- `reason.startswith(AUTO_STOP_REASON_PREFIX)`
unfoldable pub is_auto_stop_reason : Text → Bool
is_auto_stop_reason reason = starts_with reason auto_stop_reason_prefix

pub is_alloc_error_reason-append :
    (s : Text) → is_alloc_error_reason (alloc_error_stop_reason_prefix ++ s) ≡ true
unfolding is_alloc_error_reason
is_alloc_error_reason-append s = Text.starts_with-append alloc_error_stop_reason_prefix s

pub is_auto_stop_reason-append :
    (s : Text) → is_auto_stop_reason (auto_stop_reason_prefix ++ s) ≡ true
unfolding is_auto_stop_reason
is_auto_stop_reason-append s = Text.starts_with-append auto_stop_reason_prefix s

-- The two prefixes exclude one another.
pub is_alloc_error_reason-auto :
    (s : Text) → is_alloc_error_reason (auto_stop_reason_prefix ++ s) ≡ false
unfolding is_alloc_error_reason alloc_error_stop_reason_prefix auto_stop_reason_prefix starts_with
is_alloc_error_reason-auto s = refl

pub is_auto_stop_reason-nil : is_auto_stop_reason [] ≡ false
unfolding is_auto_stop_reason auto_stop_reason_prefix starts_with
is_auto_stop_reason-nil = refl

pub is_alloc_error_reason-nil : is_alloc_error_reason [] ≡ false
unfolding is_alloc_error_reason alloc_error_stop_reason_prefix starts_with
is_alloc_error_reason-nil = refl
