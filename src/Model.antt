-- ===== src/Model.antt =====
-- The rows of the database (backend/app/db/models/core.py), the task states
-- (backend/app/services/task_service.py) and the database with its basic operations.
mod State
mod Reason
mod Rows
mod Store
mod Laws
pub mod Zones
unfoldable pub use State.*
unfoldable pub use Reason.*
unfoldable pub use Rows.*
unfoldable pub use Store.*
pub use Laws.*
