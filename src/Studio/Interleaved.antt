-- ===== src/Studio/Interleaved.antt =====
-- Several operators at once. workflow.rs, accept.rs, publication.rs and cancellation.rs read a row,
-- check it, and then write by single statements that check nothing; between two statements of one
-- operator the statements of others run.
pub mod Actions
pub mod Retains
pub mod Runs
pub mod History
pub mod Races
use hemsidor.Prelude.{ℕ, ◌+◌, Result, ◌==◌, if◌then◌else◌}
use hemsidor.Studio.Backend.{Orm}
use hemsidor.Handover.Cell.{Cell}
use hemsidor.Studio.Monad.{World}

module _ (o : Orm) where
  -- What one operator has in front of him: the database, and how many writes he has made.
  pub record Shared : Type 0 where
    pub db : o.Db
    pub writes : ℕ

  abbrev Others : Type 0
  Others = ℕ → o.Db → o.Db

  -- A statement of this operator, which the others' statements precede.
  abbrev pub preceded : {A : Type 0} → Others → (o.Db → A × o.Db) → Shared → A × Shared
  preceded others statement d =
      let (answer, db) = statement (others d.writes d.db) in
      (answer, record { db = db; writes = d.writes + 1 })

  -- The database that one operator works on: `others n` is what the other operators do to it before
  -- his statement number `n`, and `seen` is the state that his reads meet.
  abbrev pub interleaved : Others → (o.Db → o.Db) → Orm
  interleaved others seen = record {
    Db = Shared;
    tables = λ d. o.tables d.db;
    now = λ d. o.now d.db;
    find_order = λ id d. o.find_order id (seen d.db);
    all_sites = λ d. o.all_sites (seen d.db);
    all_deliveries = λ d. o.all_deliveries (seen d.db);
    domain_name = λ id d. o.domain_name id (seen d.db);
    create_customer = λ c. preceded others (o.create_customer c);
    create_site = λ s. preceded others (o.create_site s);
    create_delivery = λ r. preceded others (o.create_delivery r);
    execute = λ u. preceded others (o.execute u);
  }

  -- The others act once, before the first write.
  abbrev pub once : (o.Db → o.Db) → Others
  once act n d = if n == 0 then act d else d

  -- The database of an operator behind whose check the others `act`.
  abbrev pub behind : (o.Db → o.Db) → Orm
  behind act = interleaved (once act) (λ d. d)

module _ {o : Orm} {c : Cell} where
  -- The operator begins with the database as it is.
  abbrev pub outrun : (act : o.Db → o.Db) → World o c → World (behind o act) c
  outrun act w = record { db = record { db = w.db; writes = 0 }; cell = w.cell; outbox = w.outbox }
