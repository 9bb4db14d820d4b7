-- ===== src/Web/Shutdown.antt =====
-- crates/hemsidor24-web/src/main.rs: when the server that serves begins to shut down. The signals that
-- arrive are a list, in their order.
use hemsidor.Prelude.{
  Bool, true, false, ◌≡◌, refl, Option, none, some, List, [], ◌∷◌, if◌then◌else◌,
}

pub data Signal : Type 0 where
  interrupt terminate : Signal

-- Whether the system lets the server listen for the two signals.
pub record Listening : Type 0 where
  pub ctrl_c : Bool
  pub sigterm : Bool

-- The branches of the `select!` where the first has not completed by itself: what is left of the
-- arrivals when one completes. Without SIGTERM that branch is pending for ever.
abbrev pub select : Bool → List Signal → Option (List Signal)
select sigterm [] = none
select sigterm (interrupt ∷ later) = some later
select true (terminate ∷ later) = some later
select false (terminate ∷ later) = select false later

-- `shutdown_signal`: nothing while it waits. The first branch completes too where Ctrl-C cannot be
-- listened for.
unfoldable pub shutdown_signal : Listening → List Signal → Option (List Signal)
shutdown_signal l arrivals = if l.ctrl_c then select l.sigterm arrivals else some arrivals

-- A server that listens for both signals shuts down at the first, and waits until then.
shutdown_signal-first :
    (s : Signal) (later : List Signal)
    → (shutdown_signal (record { ctrl_c = true; sigterm = true }) [] ≡ none)
      × (shutdown_signal (record { ctrl_c = true; sigterm = true }) (s ∷ later) ≡ some later)
unfolding shutdown_signal
shutdown_signal-first interrupt later = (refl, refl)
shutdown_signal-first terminate later = (refl, refl)

-- A server that cannot listen for Ctrl-C shuts down though no signal has arrived.
shutdown_signal-at_once :
    (sigterm : Bool) → shutdown_signal (record { ctrl_c = false; sigterm = sigterm }) [] ≡ some []
unfolding shutdown_signal
shutdown_signal-at_once sigterm = refl
