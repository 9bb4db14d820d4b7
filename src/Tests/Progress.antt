-- ===== src/Tests/Progress.antt =====
-- An order from the public page, taken to its approval.
use hemsidor.Prelude.{◌≡◌, refl, Option, some, none, List, [], ◌∷◌, ◌++◌, find, ◌==◌, ok}
use hemsidor.Text.{codes}
use hemsidor.Core.Order as Submitted
use hemsidor.Core.Status
use hemsidor.Core.Status.{godkand}
use hemsidor.Core.Style.{modern}
use hemsidor.Core.Package.{start}
use hemsidor.Notify.Message.{Message, proposal_ready, proposal_accepted}
use hemsidor.Web.Orders.{Backend, NewRow, new_row}
use hemsidor.Studio.Models.{Order}
use hemsidor.Studio.Monad.{World, Mail, handed}
use hemsidor.Studio.Workflow.{advance}
use hemsidor.Studio.Actions.{proposal_step, acceptance_step}
use hemsidor.Web.Orders.Table.{inserted}
use hemsidor.Studio.Progress.Approval.{Addressed, stored-approved}
use hemsidor.Tests.Memory.{memory, memory-Answers, memory-IsOrm, notebook}

abbrev ledger : Backend
ledger = record {
  Db = List NewRow;
  Post = List Message;
  insert_order = λ row db. (ok 1, row ∷ db);
  set_notified = λ id db. (ok tt, db);
  sha256_hex = λ t. t;
  send = λ message post. (ok tt, message ∷ post);
}

abbrev form : Submitted.Order
form = record {
  company = codes "Bageriet";
  city = codes "Lund";
  phone = codes "046-123456";
  email = codes "anna@bageriet.se";
  services = codes "Bröd" ∷ [];
  style = modern;
  «package» = start;
}

abbrev row : Order
row =
    record (inserted (new_row ledger form (record { ip = none; user_agent = none }) (codes "s")) 7
      1) { notified_at = some 2 }

abbrev desk : World memory notebook
desk = record {
  db = record { orders = row ∷ []; customers = []; domains = []; sites = []; deliveries = [] };
  cell = [];
  outbox = [];
}

abbrev mail : Option Mail
mail = some (record { studio = codes "studio@h.se"; from = codes "h@h.se" })

on_desk : find (λ r. r.id == 7) desk.db.orders ≡ some row
unfolding inserted
on_desk = refl

abbrev proposed : World memory notebook
proposed = (advance memory notebook mail 7 proposal_step desk).1

abbrev accepted : World memory notebook
accepted = (advance memory notebook mail 7 acceptance_step proposed).1

stored-approved_example :
    ((advance memory notebook mail 7 proposal_step desk).0 ≡ ok tt)
    × ((advance memory notebook mail 7 acceptance_step proposed).0 ≡ ok tt)
    × (find (λ r. r.id == 7) accepted.db.orders
        ≡ some (record row { status = Status.slug godkand }))
    × (accepted.outbox
        ≡ ([]
            ++ handed mail
                (λ m. proposal_ready form.company form.«package» form.email m.from m.studio))
          ++ handed mail
              (λ m. proposal_accepted form.company form.«package» form.email m.from m.studio))
    × ((m : Mail)
        → Addressed form.email m
            (proposal_ready form.company form.«package» form.email m.from m.studio)
          × Addressed form.email m
              (proposal_accepted form.company form.«package» form.email m.from m.studio))
stored-approved_example =
    stored-approved memory memory-IsOrm memory-Answers notebook mail ledger form
      (record { ip = none; user_agent = none }) (codes "s") 7 1 (some 2) desk on_desk
