-- ===== src/Nodes/Monitor.antt =====
-- The monitor's writes to a node, and the life of the thread that watches one
-- (backend/app/workers/node_monitor.py). What a connection brings is an argument. Times of waiting,
-- threads and the audit log are left out.
use nebula_grid.Base.{
  ℕ, ◌+◌, Bool, true, false, ◌&&◌, ◌||◌, not, Option, none, some, List, [], ◌∷◌, ◌++◌, ◌==◌, ltb,
  any, is_empty, member, map, or_else, get_elem?, if◌then◌else◌,
}
use nebula_grid.Base.Text.{Text, codes, strip}
use nebula_grid.Base.Table.{select, update_where}
use nebula_grid.Model.{
  Node, NodeState, online, offline, reconnecting, manual_offline, Gpu, Db, get_node,
}
use nebula_grid.Access.{is_control_plane_node}
use nebula_grid.Nodes.Offline.{set_node}

abbrev is_offline : NodeState → Bool
is_offline offline = true
is_offline _ = false

abbrev is_manual : NodeState → Bool
is_manual manual_offline = true
is_manual _ = false

unfoldable pub node_monitor_paused : Node → Bool
node_monitor_paused node =
    is_manual node.state || (is_offline node.state && not node.scheduling_enabled)

-- The node is there, is no control node, and is not paused.
unfoldable pub is_watched : Option Node → Bool
unfolding node_monitor_paused
is_watched none = false
is_watched (some node) = not (is_control_plane_node node || node_monitor_paused node)

unfoldable pub target_monitor_paused : ℕ → Db → Bool
unfolding is_watched
target_monitor_paused pk db = not (is_watched (get_node pk db))

unfoldable pub mark_node_reconnecting : ℕ → Db → Db
unfolding is_watched set_node
mark_node_reconnecting pk db =
    if is_watched (get_node pk db)
    then set_node pk (λ n. record n { state = reconnecting; scheduling_enabled = false }) db
    else db

unfoldable pub mark_node_offline : ℕ → Bool → Db → Db
unfolding is_watched set_node
mark_node_offline pk retryable db =
    if is_watched (get_node pk db)
    then set_node pk (λ n. record n { state = offline; scheduling_enabled = retryable }) db
    else db

-- What a frame says of one GPU, with empty texts and 0 where it says nothing.
pub record GpuItem : Type 0 where
  pub index : ℕ
  pub uuid : Text
  pub name : Text
  pub memory_total_mb : ℕ
  pub compute_capability : Text

-- `gpus` is `none` where the probe failed or the frame has no list.
pub record Frame : Type 0 where
  pub gpus : Option (List GpuItem)

-- `0 <= gpu_index < len(flags) and bool(flags[gpu_index])`
unfoldable pub gpu_index_schedulable : List Bool → ℕ → Bool
gpu_index_schedulable flags index = or_else (get_elem? flags index) false

abbrev or_text : Text → Text → Text
or_text s d = if is_empty s then d else s

-- The row of a GPU after a frame.
unfoldable pub update_gpu : List Bool → GpuItem → Gpu → Gpu
unfolding gpu_index_schedulable
update_gpu flags item gpu =
    let detected = strip item.compute_capability in
    record gpu {
      gpu_uuid = or_text item.uuid gpu.gpu_uuid;
      model = or_text item.name (or_text gpu.model (codes "Unknown"));
      total_vram_mb = item.memory_total_mb;
      compute_capability = if is_empty detected then gpu.compute_capability else some detected;
      schedulable = gpu_index_schedulable flags item.index;
    }

abbrev new_gpu : ℕ → GpuItem → Gpu
new_gpu id item = record {
  id = id;
  gpu_index = item.index;
  gpu_uuid = [];
  model = or_text item.name (codes "Unknown");
  total_vram_mb = 0;
  compute_capability = none;
  schedulable = true;
}

abbrev has_index : ℕ → Gpu → Bool
has_index index gpu = gpu.gpu_index == index

-- One item of the frame: the row with its index, made if it is missing.
unfoldable pub sync_gpu : List Bool → GpuItem → List Gpu × ℕ → List Gpu × ℕ
unfolding update_gpu
sync_gpu flags item (gpus, next_id) =
    if any (has_index item.index) gpus
    then (update_where (has_index item.index) (update_gpu flags item) gpus, next_id)
    else (gpus ++ update_gpu flags item (new_gpu next_id item) ∷ [], next_id + 1)

unfoldable pub sync_gpus : List Bool → List GpuItem → List Gpu × ℕ → List Gpu × ℕ
unfolding sync_gpu
sync_gpus flags [] rows = rows
sync_gpus flags (item ∷ items) rows = sync_gpus flags items (sync_gpu flags item rows)

-- The rows whose index the frame does not name are deleted.
unfoldable pub sync_gpu_inventory : List Bool → Option (List GpuItem) → List Gpu × ℕ → List Gpu × ℕ
unfolding sync_gpus
sync_gpu_inventory flags none rows = rows
sync_gpu_inventory flags (some items) rows =
    let (gpus, next_id) = sync_gpus flags items rows in
    (select (λ g. member g.gpu_index (map (λ i. i.index) items)) gpus, next_id)

-- The flags of the node are an argument: the model's node has no column for them.
unfoldable pub apply_monitor_payload_to_node : List Bool → Node → Frame → Db → Db
unfolding sync_gpu_inventory set_node
apply_monitor_payload_to_node flags node frame db =
    let (gpus, next_id) = sync_gpu_inventory flags frame.gpus (node.gpus, db.next_id) in
    record (set_node node.id
      (λ n. record n { state = online; scheduling_enabled = true; gpus = gpus }) db) {
        next_id = next_id;
      }

unfoldable pub apply_to_watched : List Bool → Frame → Db → Option Node → Bool × Db
unfolding is_watched apply_monitor_payload_to_node
apply_to_watched flags frame db none = (false, db)
apply_to_watched flags frame db (some node) =
    if is_watched (some node)
    then (true, apply_monitor_payload_to_node flags node frame db)
    else (false, db)

-- A frame of the long connection. `false` ends the thread.
unfoldable pub apply_monitor_payload : List Bool → ℕ → Frame → Db → Bool × Db
unfolding apply_to_watched
apply_monitor_payload flags pk frame db = apply_to_watched flags frame db (get_node pk db)

-- How a connection ends: it is closed, the watchdog fires, or it fails. The flag tells whether a valid
-- frame came before; a failure before the stream ends is `failed`.
pub data Ending : Type 0 where
  closed watchdog : Bool → Ending
  failed : Ending

-- The attempt that follows.
unfoldable pub next_attempt : Ending → ℕ → ℕ
next_attempt (closed got_payload) attempt = if got_payload then 1 else attempt + 1
next_attempt (watchdog got_payload) attempt =
    if got_payload then 1 else if ltb 0 attempt then attempt + 1 else 1
next_attempt failed attempt = if ltb 0 attempt then attempt + 1 else 1

-- One connection: the frames that came, and its end. The thread ends when a frame is refused.
pub record Connection : Type 0 where
  pub frames : List Frame
  pub ending : Ending

unfoldable pub apply_frames : List Bool → ℕ → List Frame → Db → Bool × Db
unfolding apply_monitor_payload
apply_frames flags pk [] db = (true, db)
apply_frames flags pk (frame ∷ frames) db =
    let (goes_on, db1) = apply_monitor_payload flags pk frame db in
    let rest = apply_frames flags pk frames db1 in if goes_on then rest else (false, db1)

-- How the thread left its loop: it was told to stop or found the node paused, it gave up, or the
-- connections of the argument are used up.
pub data Exit : Type 0 where
  stopped gave_up still_running : Exit

unfoldable pub start_attempt : ℕ → ℕ → Db → Db
unfolding mark_node_reconnecting
start_attempt pk attempt db = if ltb 0 attempt then mark_node_reconnecting pk db else db

-- After the connection: the thread ends if it was told to stop or the node is paused.
unfoldable pub end_connection : ℕ → Bool × Db → Bool × Db
unfolding target_monitor_paused mark_node_offline
end_connection pk (goes_on, db) =
    if not goes_on || target_monitor_paused pk db
    then (false, db)
    else (true, mark_node_offline pk true db)

-- A round that connects.
unfoldable pub run_connection : List Bool → ℕ → ℕ → Connection → Db → Bool × Db
unfolding start_attempt apply_frames end_connection
run_connection flags pk attempt c db =
    end_connection pk (apply_frames flags pk c.frames (start_attempt pk attempt db))

-- The tests at the head of the loop, with what follows them.
unfoldable pub leave_or : ℕ → ℕ → ℕ → Exit × Db → Db → Exit × Db
unfolding target_monitor_paused mark_node_offline
leave_or pk reconnect_attempts attempt rest db =
    if target_monitor_paused pk db
    then (stopped, db)
    else if ltb reconnect_attempts attempt
    then (gave_up, mark_node_offline pk false db)
    else rest

-- The loop of the thread, a round for each connection.
unfoldable pub run_rounds : List Bool → ℕ → ℕ → ℕ → List Connection → Db → Exit × Db
unfolding run_connection next_attempt leave_or
run_rounds flags pk reconnect_attempts attempt [] db =
    leave_or pk reconnect_attempts attempt (still_running, db) db
run_rounds flags pk reconnect_attempts attempt (c ∷ cs) db =
    let (goes_on, db1) = run_connection flags pk attempt c db in
    let rest = run_rounds flags pk reconnect_attempts (next_attempt c.ending attempt) cs db1 in
    leave_or pk reconnect_attempts attempt (if goes_on then rest else (stopped, db1)) db

-- The test before the loop.
unfoldable pub unless_paused : ℕ → Exit × Db → Db → Exit × Db
unfolding target_monitor_paused
unless_paused pk rest db = if target_monitor_paused pk db then (stopped, db) else rest

unfoldable pub run_monitor : List Bool → ℕ → ℕ → List Connection → Db → Exit × Db
unfolding run_rounds unless_paused
run_monitor flags pk reconnect_attempts cs db =
    unless_paused pk (run_rounds flags pk reconnect_attempts 0 cs (mark_node_reconnecting pk db)) db
