-- ===== src/Studio/Interleaved/History.antt =====
-- One operator's history among those of others.
use hemsidor.Prelude.{ℕ, Bool, Option, List}
use hemsidor.Text.{Text}
use hemsidor.Studio.Backend.{Orm, IsOrm}
use hemsidor.Handover.Cell.{Cell}
use hemsidor.Studio.Monad.{World, Mail}
use hemsidor.Studio.Monad.Keeps.{Guarantees}
use hemsidor.Studio.Actions.{replay}
use hemsidor.Studio.Interleaved.{interleaved}
use hemsidor.Studio.Interleaved.Actions.{replay-Keeps}
use hemsidor.Studio.Interleaved.Retains.{Retains, statements-Retains}

-- What every statement keeps and the others keep, every statement among theirs keeps.
interleaved-Guarantees :
    {o : Orm} {R : o.Db → o.Db → Type 0} (g : Guarantees o R) (others : ℕ → o.Db → o.Db)
    (seen : o.Db → o.Db)
    → ((n : ℕ) (d : o.Db) → R d (others n d))
    → Guarantees (interleaved o others seen) (λ d e. R d.db e.db)
interleaved-Guarantees g others seen allowed = record {
  stays = λ d. g.stays d.db;
  goes_on = λ a b d p q. g.goes_on a.db b.db d.db p q;
  creates_customer = λ c d.
      g.goes_on d.db _ _ (allowed d.writes d.db) (g.creates_customer c (others d.writes d.db));
  creates_site =
      λ s d. g.goes_on d.db _ _ (allowed d.writes d.db) (g.creates_site s (others d.writes d.db));
  creates_delivery = λ r d.
      g.goes_on d.db _ _ (allowed d.writes d.db) (g.creates_delivery r (others d.writes d.db));
  executes =
      λ u d h. g.goes_on d.db _ _ (allowed d.writes d.db) (g.executes u (others d.writes d.db) h);
}

module _ (o : Orm) (laws : IsOrm o) (c : Cell) (mail : Option Mail) (signing : Bool)
    (others : ℕ → o.Db → o.Db) (seen : o.Db → o.Db)
    (allowed : (n : ℕ) (d : o.Db) → Retains (o.tables d) (o.tables (others n d))) where
  -- Where the database keeps to IsOrm: an operator runs any history of bulk actions, while before
  -- each of his writes other operators do to the database whatever keeps to Retains, and his reads
  -- meet any state at all. From his first statement to his last no row of the five tables is
  -- removed or moved, though rows may be added; what the customer typed stays as it was; an order
  -- whose status could be read has one that can be read; an order that had a customer has one; the
  -- customers and domains stay as they were, a moment that was stamped keeps its value and a
  -- transfer flag that was set stays set.
  pub replay-Retains :
      (history : List (Text × List ℕ)) (w : World (interleaved o others seen) c)
      → Retains
          (o.tables w.db.db)
          (o.tables (replay (interleaved o others seen) c mail signing history w).db.db)
  replay-Retains history w =
      replay-Keeps c (interleaved-Guarantees (statements-Retains o laws) others seen allowed) mail
        signing history w

module _ (o : Orm) (laws : IsOrm o) (c : Cell) (mail : Option Mail) (signing : Bool) where
  -- A history of bulk actions is among what the others may do.
  pub replay-Allowed :
      (history : List (Text × List ℕ)) (w : World o c)
      → Retains (o.tables w.db) (o.tables (replay o c mail signing history w).db)
  replay-Allowed history w = replay-Keeps c (statements-Retains o laws) mail signing history w
