-- ===== src/Accounts/Store.antt =====
-- The tables of accounts and sessions, and what the machine provides: the digest, and the calls that
-- change the accounts of Linux and Samba, which may fail. Columns that only the interface shows are
-- left out (backend/app/db/models/core.py).
use nebula_grid.Base.{ℕ, Bool, Option, List, ◌==◌}
use nebula_grid.Base.Text.{Text}
use nebula_grid.Base.Table.{first, update_first}
use nebula_grid.Model.{Role, UserState, UserSupervisor}

pub record Account : Type 0 where
  pub id : ℕ
  pub username : Text
  pub real_name : Text
  pub role : Role
  pub state : UserState
  pub password_hash : Text
  pub linux_account_name : Option Text
  pub samba_enabled : Bool
  pub samba_status : Text

pub record LoginSession : Type 0 where
  pub id : ℕ
  pub user_id : ℕ
  pub token_hash : Text
  pub ip : Text
  pub user_agent : Text
  pub device_id : Text
  pub created_at : ℕ
  pub last_seen_at : Option ℕ
  pub logout_at : Option ℕ
  pub revoked_at : Option ℕ

pub record AccountDb : Type 0 where
  pub now : ℕ
  pub accounts : List Account
  pub user_supervisors : List UserSupervisor
  pub sessions : List LoginSession
  pub next_id : ℕ

-- `sha256(...).hexdigest()`; whether a name may be a Linux account; whether a call that changes an
-- account of Linux or of Samba succeeds, and the status that a call of Samba reports.
pub record Host : Type 0 where
  pub sha256 : Text → Text
  pub main_linux_user : Text
  pub is_account_name : Text → Bool
  pub linux_call : Text → Bool
  pub samba_call : Text → Bool
  pub samba_report : Text → Text

-- `db.get(User, pk)`
unfoldable pub get_account : ℕ → AccountDb → Option Account
get_account pk db = first (λ a. a.id == pk) db.accounts

unfoldable pub set_account : ℕ → (Account → Account) → AccountDb → AccountDb
set_account pk f db = record db { accounts = update_first (λ a. a.id == pk) f db.accounts }
