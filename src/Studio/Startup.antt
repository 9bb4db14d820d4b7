-- ===== src/Studio/Startup.antt =====
-- crates/hemsidor24-admin/src/main.rs: what the back office needs to start, and how it refuses. The
-- disk with the signing cells and the framework with its accounts are parameters.
pub mod Cell
pub mod Administrator
pub mod Main
use hemsidor.Prelude.{ℕ, Bool, not, Option, none, some, is_empty, Result, ok, err, if◌then◌else◌}
use hemsidor.Text.{Text}
use hemsidor.Text.Trim.{trim}
use hemsidor.Env.{Env}

-- `StartupError`
pub data StartupError : Type 0 where
  missing : (var : Text) → StartupError
  invalid : (var reason : Text) → StartupError
  admin_error : Text → StartupError

abbrev pub required_value : Text → Option Text → Result StartupError Text
required_value var none = err (missing var)
required_value var (some v) = if not (is_empty (trim v)) then ok v else err (missing var)

-- `required`
unfoldable pub required : Env → Text → Result StartupError Text
required env var = required_value var (env var)

-- The directories that may hold a cell.
pub record Disks : Type 1 where
  pub Disk : Type 0
  pub CellStudio : Type 0
  -- `Studio::open(…).ok()` and `Studio::create(…).ok()`. No other process holds the cell.
  pub open_cell : Text → Disk → Option CellStudio
  pub create_cell : Text → Disk → Option CellStudio × Disk
  -- Writing the probe file, and removing it.
  pub write_probe : Text → Disk → Bool × Disk
  pub remove_probe : Text → Disk → Disk

-- The framework's own tables.
pub record Accounts : Type 1 where
  pub Db : Type 0
  pub User : Type 0
  pub Role : Type 0
  pub administrator : Role
  pub connect_db : Text → Db → Result Text (Unit {0})
  pub init_tables : Db → Result Text (Unit {0}) × Db
  pub ensure_table : Db → Result Text (Unit {0}) × Db
  pub find_user_by_email : Text → Db → Result Text (Option User)
  pub create_user : Text → Text → Role → Db → Result Text ℕ × Db
