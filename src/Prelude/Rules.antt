-- ===== src/Prelude/Rules.antt =====
-- Rule sets for the tactics.
use native.Mathlib.Omega.{arith}
use hemsidor.Prelude.Lists.{length-append}

pub ruleset list_sizes = (arith, length-append)
