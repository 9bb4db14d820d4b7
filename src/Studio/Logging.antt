-- ===== src/Studio/Logging.antt =====
-- crates/hemsidor24-admin/src/logging.rs: the back office's logger. The `log` crate's levels and its
-- registry are parameters; a write to stderr that fails loses the line.
use hemsidor.Prelude.{
  ℕ, zero, suc, ◌-◌, Bool, true, false, Option, none, some, List, [], ◌∷◌, ◌++◌, length,
  if◌then◌else◌,
}
use hemsidor.Text.{Text, codes, text_eq}
use hemsidor.Text.Trim.{trim}
use hemsidor.Env.{Env}

-- What is used of the `log` crate.
pub record Facade : Type 1 where
  pub Level : Type 0
  pub error : Level
  pub warn : Level
  pub info : Level
  pub debug : Level
  pub trace : Level
  pub name : Level → Text
  -- `<=` on levels
  pub at_most : Level → Level → Bool
  pub Registry : Type 0
  -- `set_logger`, by the level of the logger; whether it was taken
  pub set_logger : Level → Registry → Bool × Registry
  -- `set_max_level(LevelFilter::Trace)`
  pub pass_everything : Registry → Registry

pub record Record (f : Facade) : Type 0 where
  pub level : f.Level
  pub target : Text
  pub args : Text

-- `{:<n}`
unfoldable pub padded : ℕ → Text → Text
padded n t = t ++ blanks (n - length t)
  where
    blanks : ℕ → Text
    blanks zero = []
    blanks (suc k) = b' ' ∷ blanks k

module _ (f : Facade) where
  open f use {Level, error, warn, info, debug, trace, name, at_most, Registry, set_logger}

  -- `StderrLogger`
  pub record StderrLogger : Type 0 where
    pub level : Level

  -- `enabled`
  unfoldable pub enabled : StderrLogger → Level → Bool
  enabled self level = at_most level self.level

  unfoldable pub log_line : Record f → Text
  log_line r = padded 5 (name r.level) ++ (codes " " ++ (r.target ++ (codes ": " ++ r.args)))

  -- `log`, on the lines written to stderr.
  unfoldable pub log : StderrLogger → Record f → List Text → List Text
  log self r lines = if enabled self r.level then lines ++ log_line r ∷ [] else lines

  -- The level that a trimmed `ADMIN_LOG` names.
  abbrev pub named_level : Option Text → Level
  named_level none = info
  named_level (some raw) =
      let t = trim raw in
      if text_eq t (codes "error")
      then error
      else if text_eq t (codes "warn")
      then warn
      else if text_eq t (codes "debug")
      then debug
      else if text_eq t (codes "trace")
      then trace
      else info

  abbrev pub installed : Bool × Registry → Registry
  installed (true, registry) = f.pass_everything registry
  installed (false, registry) = registry

  -- `init`
  unfoldable pub install : Env → Registry → Registry
  install env registry = installed (set_logger (named_level (env (codes "ADMIN_LOG"))) registry)
