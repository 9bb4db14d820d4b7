-- ===== src/Studio/Startup/Cell.antt =====
-- crates/hemsidor24-admin/src/signing.rs: proving at startup that signing works. A cell is created
-- only where that is asked for.
pub mod Laws
use hemsidor.Prelude.{
  Bool, true, false, Option, none, some, is_some, Result, ok, err, if◌then◌else◌,
}
use hemsidor.Text.{Text, codes}
use hemsidor.Env.{Env, optional}
use hemsidor.Studio.Startup.{StartupError, missing, invalid, Disks}

abbrev pub cell_var : Text
cell_var = codes "HANDOVER_CELL_DIR"

-- `INIT_VAR`
abbrev pub init_var : Text
init_var = codes "HANDOVER_CELL_INIT"

module _ (d : Disks) where
  open d use {Disk, CellStudio, open_cell, create_cell, write_probe, remove_probe}

  abbrev pub probed : Text → CellStudio → Bool × Disk → Result StartupError CellStudio × Disk
  probed path studio (true, disk) = (ok studio, remove_probe path disk)
  probed path studio (false, disk) = (
    err (invalid cell_var (codes "is not writable, so claims could be signed but never recorded")),
    disk,
  )

  abbrev pub created : Text → Option CellStudio × Disk → Result StartupError CellStudio × Disk
  created path (none, disk) =
      (err (invalid cell_var (codes "no cell could be created there")), disk)
  created path (some studio, disk) = probed path studio (write_probe path disk)

  abbrev pub opened : Text → Bool → Option CellStudio → Disk → Result StartupError CellStudio × Disk
  opened path may_create (some studio) disk = probed path studio (write_probe path disk)
  opened path false none disk = (
    err (
        invalid cell_var (
          codes
            "holds no cell that could be opened. Restore the cell directory from backup, or set HANDOVER_CELL_INIT=1 once to create a new cell with a new signing identity.")),
    disk,
  )
  opened path true none disk = created path (create_cell path disk)

  -- `check`
  unfoldable pub check : Option Text → Bool → Disk → Result StartupError CellStudio × Disk
  check none may_create disk = (err (missing cell_var), disk)
  check (some path) may_create disk = opened path may_create (open_cell path disk) disk

  -- `cell_dir`
  unfoldable pub cell_dir : Env → Option Text
  cell_dir env = optional env cell_var

  abbrev pub ready : Result StartupError CellStudio → Result StartupError (Unit {0})
  ready (ok studio) = ok tt
  ready (err e) = err e

  -- `init`, with the feature on or off.
  unfoldable pub init : Bool → Env → Disk → Result StartupError (Unit {0}) × Disk
  init false env disk = (ok tt, disk)
  init true env disk =
      let (result, after) = check (cell_dir env) (is_some (optional env init_var)) disk in
      (ready result, after)
