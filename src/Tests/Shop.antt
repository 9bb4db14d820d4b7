-- ===== src/Tests/Shop.antt =====
-- A shop with one order, its site, domain and delivery.
use hemsidor.Prelude.{ℕ, Option, none, some, [], ◌∷◌, false}
use hemsidor.Text.{Text, codes}
use hemsidor.Studio.Models.{Domain, Site, Delivery}
use hemsidor.Studio.Monad.{World, Mail}
use hemsidor.Tests.Memory.{memory, notebook, request}

abbrev pub bakery_site : Site
bakery_site = record {
  id = 1;
  customer_id = some 1;
  order_id = some 7;
  domain_id = some 4;
  repo_url = none;
  live_url = some (codes "https://bageriet.se");
  hosting_ref = none;
  «package» = codes "start";
  revisions_used = 0;
  published_at = none;
  notes = none;
  created_at = 2;
}

abbrev pub bakery_domain : Domain
bakery_domain = record {
  id = 4;
  customer_id = some 1;
  name = codes "bageriet.se";
  registrar = none;
  registered_to = codes "Bageriet";
  registered_at = none;
  expires_at = none;
  notes = none;
  created_at = 2;
}

abbrev pub bakery_delivery : Delivery
bakery_delivery = record {
  id = 1;
  site_id = some 1;
  customer_id = some 1;
  offered_at = none;
  accepted_at = none;
  domain_transferred = false;
  hosting_transferred = false;
  source_transferred = false;
  refunded_at = none;
  refund_reason = some (codes "Stängt");
  notes = none;
  created_at = 2;
}

abbrev pub shop : Text → Option ℕ → World memory notebook
shop status customer_id = record {
  db = record {
    orders = request status customer_id ∷ [];
    customers = [];
    domains = bakery_domain ∷ [];
    sites = bakery_site ∷ [];
    deliveries = bakery_delivery ∷ [];
  };
  cell = [];
  outbox = [];
}

abbrev pub post_office : Option Mail
post_office = some (record { studio = codes "studio@h.se"; from = codes "h@h.se" })
