-- ===== src/RuntimeGuard/Processes.antt =====
-- The process table of a node, and the tree of a task's processes (`parse_process_table`,
-- `expand_pid_tree`, `parse_gpu_apps` of backend/app/workers/runtime_guard.py).
pub mod Reach
use nebula_grid.Base.{
  ℕ, zero, suc, ◌+◌, Bool, true, false, ◌&&◌, not, Option, none, some, List, [], ◌∷◌, ◌++◌, ◌==◌,
  ltb, any, is_empty, length, member, map, if◌then◌else◌,
}
use nebula_grid.Base.Text.{
  Text, words_from, codes, strip, split, text_eq, is_space, is_decimal, decimal_from,
}
use nebula_grid.Base.Table.{select}
use nebula_grid.Tasks.Commands.{split_lines}

-- A row of `ps`: a process and its parent.
abbrev pub Process : Type 0
Process = ℕ × ℕ

-- `children_by_parent.get(pid, [])`
unfoldable pub children_of : List Process → ℕ → List ℕ
children_of [] pid = []
children_of ((child, parent) ∷ table) pid =
    let rest = children_of table pid in if parent == pid then child ∷ rest else rest

-- The loop on a queue, with the pids seen so far, the newest first. Each round takes one pid from
-- the queue; `none` means that the fuel ran out.
unfoldable pub walk_tree : ℕ → List Process → List ℕ → List ℕ → Option (List ℕ)
unfolding children_of
walk_tree fuel table [] seen = some seen
walk_tree zero table (pid ∷ queue) seen = none
walk_tree (suc fuel) table (pid ∷ queue) seen = elim (member pid seen) [
  | true ↦ walk_tree fuel table queue seen
  | false ↦ walk_tree fuel table (queue ++ children_of table pid) (pid ∷ seen)
]

unfoldable pub expand_pid_tree : ℕ → List Process → Option (List ℕ)
unfolding walk_tree
expand_pid_tree root table = walk_tree (suc (length table)) table (root ∷ []) []

-- `int(s)` for the digits that `ps` and `nvidia-smi` print, and 0 for all else.
unfoldable pub coerce_int : Text → ℕ
coerce_int s = let t = strip s in if is_decimal t then decimal_from 0 t else 0

abbrev parse_row : List Text → Option Process
parse_row (pid ∷ ppid ∷ rest) = some (coerce_int pid, coerce_int ppid)
parse_row _ = none

unfoldable pub parse_rows : List Text → List Process
unfolding words_from coerce_int
parse_rows [] = []
parse_rows (line ∷ lines) = elim (parse_row (words_from [] line)) [
  | none ↦ parse_rows lines
  | some row ↦ if ltb 0 row.0 then row ∷ parse_rows lines else parse_rows lines
]

unfoldable pub parse_process_table : Text → List Process
unfolding parse_rows
parse_process_table text = parse_rows (split_lines [] text)

-- The UUID in a line of `nvidia-smi`, if one of the processes uses that GPU.
abbrev gpu_of_line : List ℕ → List Text → Option Text
gpu_of_line task_pids (pid ∷ uuid ∷ rest) =
    if member (coerce_int pid) task_pids
      && (not (is_empty uuid) && not (text_eq uuid (codes "[Not Supported]")))
    then some uuid
    else none
gpu_of_line task_pids _ = none

unfoldable pub parse_gpu_lines : List ℕ → List Text → List Text
unfolding coerce_int
parse_gpu_lines task_pids [] = []
parse_gpu_lines task_pids (line ∷ lines) =
    let observed = parse_gpu_lines task_pids lines in
    elim (gpu_of_line task_pids (map strip (split b',' line))) [
      | none ↦ observed
      | some uuid ↦ if any (text_eq uuid) observed then observed else uuid ∷ observed
    ]

unfoldable pub parse_gpu_apps : Text → List ℕ → List Text
unfolding parse_gpu_lines
parse_gpu_apps text task_pids = parse_gpu_lines task_pids (split_lines [] text)
