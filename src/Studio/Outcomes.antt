-- ===== src/Studio/Outcomes.antt =====
-- What the studio's actions have found and done, by how they ended: what the proofs share.
pub mod Refund
pub mod Acceptance
pub mod Publication
use hemsidor.Prelude.{
  is_some, ℕ, Bool, true, false, not, ◌≡◌, refl, sym, ap, ◌∙◌, Option, none, some, List, [], ◌∷◌,
  ◌++◌, map, find, ◌==◌, ok, err, arith, to_option,
}
use mathlib.Core.Path.{subst}
use mathlib.Core.List.{append-nil}
use hemsidor.Text.{Text, codes, text_eq}
use hemsidor.Core.Status
use hemsidor.Core.Status.{
  OrderStatus, from_slug, can_transition_to, status_eq, avbruten, publicerad,
}
use hemsidor.Core.Package
use hemsidor.Core.Package.{Package}
use hemsidor.Notify.Message.{Message, refund_issued, site_published}
use hemsidor.Studio.Models.{Order, Customer, Site, Delivery}
use hemsidor.Studio.Tables.{
  Tables, is_id, perform, set_status, link_customer, stamp_published, transfer_flags,
  stamp_refunded, with_customer,
}
use hemsidor.Studio.Backend.{Orm, IsOrm}
use hemsidor.Handover.Cell.{Cell}
use hemsidor.Studio.Monad.{World, Action, Mail, Refusal, handed, notify}
use hemsidor.Studio.Monad.Ends.{
  Ends, Ends-require, Ends-read, Ends-write, Ends-guard, Ends-attempt, Ends-last_write, Ends-notify,
  delivered, Ends-ok, Ends-err,
}
use hemsidor.Studio.Monad.Calls.{
  Ends-load_order, Ends-site_for, Ends-delivery_for, Ends-domain_name, Ends-moment,
  Ends-sign_claims, domain_read,
}
use hemsidor.Studio.Accept.{accept_one, new_customer, new_site, new_delivery}
use hemsidor.Studio.Signing.{Artefacts, Signed, sign}
use hemsidor.Studio.Publication.{publish_one, non_blank}
use hemsidor.Studio.Cancellation.{refund_one}

pub none_of_not : (n : Option ℕ) → not (is_some n) ≡ true → n ≡ none
none_of_not n h = ground arith

pub delivered-outbox :
    {o : Orm} {c : Cell} (mail : Option Mail) (message : Mail → Message) (w : World o c)
    → (delivered mail message w).outbox ≡ w.outbox ++ handed mail message
delivered-outbox none message w = sym (append-nil w.outbox)
delivered-outbox (some m) message w = refl

pub delivered-db :
    {o : Orm} {c : Cell} (mail : Option Mail) (message : Mail → Message) (w : World o c)
    → (delivered mail message w).db ≡ w.db
delivered-db none message w = refl
delivered-db (some m) message w = refl

pub delivered-cell :
    {o : Orm} {c : Cell} (mail : Option Mail) (message : Mail → Message) (w : World o c)
    → (delivered mail message w).cell ≡ w.cell
delivered-cell none message w = refl
delivered-cell (some m) message w = refl

-- Nothing was handed to the mailer.
abbrev pub Quiet : {o : Orm} {c : Cell} → World o c → World o c → Type 0
Quiet w v = v.outbox ≡ w.outbox
