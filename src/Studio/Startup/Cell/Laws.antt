-- ===== src/Studio/Startup/Cell/Laws.antt =====
-- What starting does to the signing identity.
use hemsidor.Prelude.{
  Bool, true, false, ◌≡◌, refl, sym, ap, ◌∙◌, ◌⊎◌, inl, inr, Option, none, some, is_some, Result,
  ok, err, ok_injective, arith,
}
use hemsidor.Text.{Text}
use hemsidor.Env.{Env, optional}
use hemsidor.Studio.Startup.{StartupError, Disks}
use hemsidor.Studio.Startup.Cell.{init_var, probed, created, opened, check, cell_dir, ready, init}

module _ (d : Disks) where
  open d use {Disk, CellStudio, open_cell, create_cell, write_probe, remove_probe}

  -- What the startup relies on: a cell that was created opens, and the probe file is no part of a
  -- cell.
  pub record IsDisks : Type 0 where
    pub created_opens :
        (path : Text) (disk : Disk) (studio : CellStudio)
        → (create_cell path disk).0 ≡ some studio
        → open_cell path (create_cell path disk).1 ≡ some studio
    pub probe_keeps :
        (path other : Text) (disk : Disk)
        → (open_cell other (write_probe path disk).1 ≡ open_cell other disk)
          × (open_cell other (remove_probe path disk) ≡ open_cell other disk)

module _ (d : Disks) (laws : IsDisks d) where
  open d use {Disk, CellStudio, open_cell, create_cell, write_probe, remove_probe}

  -- The cell that opens after the check is the one there was, or one that was asked for.
  abbrev Kept : Text → Bool → CellStudio → Disk → Disk → Type 0
  Kept path may_create studio before after =
      (open_cell path after ≡ some studio)
      × ((open_cell path before ≡ some studio)
          ⊎ ((may_create ≡ true) × (open_cell path before ≡ none)))

  probed_opens :
      (path : Text) (studio : CellStudio) (disk : Disk) (result : Bool × Disk)
      → open_cell path disk ≡ some studio
      → open_cell path result.1 ≡ open_cell path disk
      → (other : CellStudio) → (probed d path studio result).0 ≡ ok other
      → (open_cell path (probed d path studio result).1 ≡ some other) × (other ≡ studio)
  probed_opens path studio disk (true, after) there same other h =
      let e = ok_injective studio other h in
      ((laws.probe_keeps path path after).1 ∙ (same ∙ (there ∙ ap some e)), sym e)
  probed_opens path studio disk (false, after) there same other h = absurd (ground arith)

  created_opens :
      (path : Text) (result : Option CellStudio × Disk)
      → ((studio : CellStudio) → result.0 ≡ some studio → open_cell path result.1 ≡ some studio)
      → (other : CellStudio) → (created d path result).0 ≡ ok other
      → open_cell path (created d path result).1 ≡ some other
  created_opens path (none, after) there other h = absurd (ground arith)
  created_opens path (some studio, after) there other h =
      (probed_opens path studio after (write_probe path after) (there studio refl)
        (laws.probe_keeps path path after).0 other h).0

  opened-Kept :
      (path : Text) (may_create : Bool) (found : Option CellStudio) (disk : Disk)
      → open_cell path disk ≡ found
      → (other : CellStudio) → (opened d path may_create found disk).0 ≡ ok other
      → Kept path may_create other disk (opened d path may_create found disk).1
  opened-Kept path may_create (some studio) disk there other h =
      let (now, same) =
        probed_opens path studio disk (write_probe path disk) there
          (laws.probe_keeps path path disk).0 other h in
      (now, inl (there ∙ ap some (sym same)))
  opened-Kept path false none disk there other h = absurd (ground arith)
  opened-Kept path true none disk there other h = (
    created_opens path (create_cell path disk) (laws.created_opens path disk) other h,
    inr (refl, there),
  )

  check-Kept :
      (dir : Option Text) (may_create : Bool) (disk : Disk) (studio : CellStudio)
      → (check d dir may_create disk).0 ≡ ok studio
      → (path : Text) × (dir ≡ some path)
        × Kept path may_create studio disk (check d dir may_create disk).1
  unfolding check
  check-Kept none may_create disk studio h = absurd (ground arith)
  check-Kept (some path) may_create disk studio h =
      (path, refl, opened-Kept path may_create (open_cell path disk) disk refl studio h)

  was_ready :
      (result : Result StartupError CellStudio)
      → ready d result ≡ ok tt
      → (studio : CellStudio) × (result ≡ ok studio)
  was_ready (ok studio) h = (studio, refl)
  was_ready (err e) h = absurd (ground arith)

  -- On disks that keep to IsDisks: where the back office starts with signing compiled in, a
  -- directory is configured and its cell opens from then on; it is the cell that opened there
  -- before, unless none did and HANDOVER_CELL_INIT asked for a new one.
  pub init-Opens :
      (env : Env) (disk : Disk)
      → (init d true env disk).0 ≡ ok tt
      → (path : Text) × (studio : CellStudio) × (cell_dir d env ≡ some path)
        × (open_cell path (init d true env disk).1 ≡ some studio)
        × ((open_cell path disk ≡ some studio)
            ⊎ ((is_some (optional env init_var) ≡ true) × (open_cell path disk ≡ none)))
  unfolding init
  init-Opens env disk h =
      let (studio, checked) =
        was_ready (check d (cell_dir d env) (is_some (optional env init_var)) disk).0 h in
      let (path, dir, (now, before)) =
        check-Kept (cell_dir d env) (is_some (optional env init_var)) disk studio checked in
      (path, studio, dir, now, before)
