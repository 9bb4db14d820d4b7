-- ===== src/Studio/Startup/Main/Ready.antt =====
-- What has been checked before the back office touches the database.
use hemsidor.Prelude.{
  ℕ, Bool, true, false, ◌≡◌, refl, ◌⊎◌, inl, inr, List, any, Bool-cases, ok, Result-cases,
}
use hemsidor.Text.{Text, codes, text_eq}
use hemsidor.Env.{Env}
use hemsidor.Notify.Notifier.{Lettre}
use hemsidor.Studio.Startup.{required, Disks, Accounts}
use hemsidor.Studio.Startup.Cell
use hemsidor.Studio.Startup.Main.{Framework, Machine, panel_host, panel_port, run, main}

-- The operator asks for a test message only.
abbrev pub only_test : List Text → Bool
only_test args = any (λ a. text_eq a (codes "--send-test-mail")) args

module _ (d : Disks) (f : Accounts) (w : Framework) (l : Lettre) where
  -- Signing works, and the settings of the server can be read.
  abbrev pub Checked : Bool → Env → Machine d f → Type 0
  Checked handover env m =
      ((Cell.init d handover env m.disk).0 ≡ ok tt)
      × ((url : Text) × (required env (codes "DATABASE_URL") ≡ ok url))
      × ((host : w.IpAddr) × (panel_host w.parse_ip env ≡ ok host))
      × ((port : ℕ) × (panel_port (env (codes "ADMIN_PORT")) ≡ ok port))

  run-Checked :
      (handover : Bool) (env : Env) (m : Machine d f)
      → ((run d f w l handover env m).1.db ≡ m.db) ⊎ Checked handover env m
  unfolding run
  run-Checked handover env m = elim (Result-cases (Cell.init d handover env m.disk).0) [
    | inr (e, cell) ↦ rw cell (inl refl)
    | inl (u, cell) ↦ elim (Result-cases (required env (codes "DATABASE_URL"))) [
      | inr (e, url) ↦ rw (cell, url) (inl refl)
      | inl (u', url) ↦ elim (Result-cases (panel_host w.parse_ip env)) [
        | inr (e, host) ↦ rw (cell, url, host) (inl refl)
        | inl (h, host) ↦ elim (Result-cases (panel_port (env (codes "ADMIN_PORT")))) [
          | inr (e, port) ↦ rw (cell, url, host, port) (inl refl)
          | inl (n, port) ↦ inr (cell, (u', url), (h, host), (n, port))
        ]
      ]
    ]
  ]

  -- Asked for a test message, the back office touches neither the disk nor the database. Started to
  -- serve, it leaves the database alone unless its signing cell is ready and the database's address,
  -- its own address and its port can be read.
  pub main-Checked :
      (handover : Bool) (args : List Text) (env : Env) (m : Machine d f)
      → ((only_test args ≡ true) × ((main d f w l handover args env m).1 ≡ m))
        ⊎ ((only_test args ≡ false)
            × (((main d f w l handover args env m).1.db ≡ m.db) ⊎ Checked handover env m))
  unfolding main
  main-Checked handover args env m = elim (Bool-cases (only_test args)) [
    | inl test ↦ rw test (inl (refl, refl))
    | inr serving ↦ rw serving (inr (refl, run-Checked handover env m))
  ]
