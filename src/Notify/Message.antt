-- ===== src/Notify/Message.antt =====
-- crates/hemsidor24-notify/src/message.rs: the messages, word by word.
use hemsidor.Prelude.{ℕ, ◌/◌, Option, some, List, [], ◌∷◌, map}
use hemsidor.Text.{Text, codes, concat}
use hemsidor.Text.Decimal.{decimal}
use hemsidor.Text.Split.{join}
use hemsidor.Core.Order.{Order}
use hemsidor.Core.Package
use hemsidor.Core.Package.{Package}
use hemsidor.Core.Style

pub record Message : Type 0 where
  pub to : Text
  pub from : Text
  pub reply_to : Option Text
  pub subject : Text
  pub body : Text

-- The listed services of the studio's message.
unfoldable pub service_lines : List Text → Text
service_lines services = join (b'\n' ∷ []) (map (λ s. concat (codes "  - " ∷ s ∷ [])) services)

-- Whole kronor.
unfoldable pub kronor : ℕ → Text
kronor ore = concat (decimal (ore / 100) ∷ codes " kr" ∷ [])

unfoldable pub studio_notification : Order → ℕ → Text → Text → Message
studio_notification order order_id to from = record {
  to = to;
  from = from;
  reply_to = some order.email;
  subject = concat (
      codes "Ny beställning — "
      ∷ order.company
      ∷ codes " ("
      ∷ Package.label_sv order.«package»
      ∷ codes ")"
      ∷ []);
  body = concat (
      codes "Ny beställning #"
      ∷ decimal order_id
      ∷ codes "\n\n"
      ∷ codes "Företag:  "
      ∷ order.company
      ∷ codes "\n"
      ∷ codes "Ort:      "
      ∷ order.city
      ∷ codes "\n"
      ∷ codes "Telefon:  "
      ∷ order.phone
      ∷ codes "\n"
      ∷ codes "E-post:   "
      ∷ order.email
      ∷ codes "\n\n"
      ∷ codes "Paket:    "
      ∷ Package.label_sv order.«package»
      ∷ codes " ("
      ∷ decimal (Package.price_sek_ex_vat order.«package»)
      ∷ codes " kr exkl. moms)\n"
      ∷ codes "Stil:     "
      ∷ Style.label_sv order.style
      ∷ codes "\n\n"
      ∷ codes "Tjänster:\n"
      ∷ service_lines order.services
      ∷ codes "\n"
      ∷ []);
}

unfoldable pub customer_confirmation : Order → Text → Text → Message
customer_confirmation order to_studio from = record {
  to = order.email;
  from = from;
  reply_to = some to_studio;
  subject = codes "Tack för din beställning — Hemsidor24";
  body = concat (
      codes "Hej "
      ∷ order.company
      ∷ codes ",\n\n"
      ∷ codes "Tack för din beställning. Vi har tagit emot den och hör av oss med ett\n"
      ∷ codes "förslag inom ett dygn.\n\n"
      ∷ codes "Du betalar först när du sett sidan.\n\n"
      ∷ codes "Detta valde du:\n\n"
      ∷ codes "Paket:    "
      ∷ Package.label_sv order.«package»
      ∷ codes " ("
      ∷ decimal (Package.price_sek_ex_vat order.«package»)
      ∷ codes " kr exkl. moms)\n"
      ∷ codes "Stil:     "
      ∷ Style.label_sv order.style
      ∷ codes "\n\n"
      ∷ codes "Har du frågor, svara på det här mejlet.\n\n"
      ∷ codes "Hemsidor24\n"
      ∷ to_studio
      ∷ codes "\n"
      ∷ []);
}

unfoldable pub proposal_ready : Text → Package → Text → Text → Text → Message
proposal_ready company chosen to_customer from studio = record {
  to = to_customer;
  from = from;
  reply_to = some studio;
  subject = codes "Ditt förslag är klart — Hemsidor24";
  body = concat (
      codes "Hej "
      ∷ company
      ∷ codes ",\n\n"
      ∷ codes "Ditt förslag är klart. Vi hör av oss med en länk till sidan, så att du\n"
      ∷ codes "kan se den innan den publiceras.\n\n"
      ∷ codes "Du betalar först när du sett sidan och sagt ja. Vill du inte ha den\n"
      ∷ codes "kostar det ingenting.\n\n"
      ∷ codes "Detta gäller din beställning:\n\n"
      ∷ codes "Paket:    "
      ∷ Package.label_sv chosen
      ∷ codes " ("
      ∷ decimal (Package.price_sek_ex_vat chosen)
      ∷ codes " kr exkl. moms)\n\n"
      ∷ codes "Svara på det här mejlet om något ser fel ut.\n\n"
      ∷ codes "Hemsidor24\n"
      ∷ studio
      ∷ codes "\n"
      ∷ []);
}

unfoldable pub proposal_accepted : Text → Package → Text → Text → Text → Message
proposal_accepted company chosen to_customer from studio = record {
  to = to_customer;
  from = from;
  reply_to = some studio;
  subject = codes "Vi har registrerat ditt godkännande — Hemsidor24";
  body = concat (
      codes "Hej "
      ∷ company
      ∷ codes ",\n\n"
      ∷ codes "Tack. Vi har registrerat att du godkänt förslaget.\n\n"
      ∷ codes "Nu publicerar vi sidan. Domän, webbhotell och källkod ska stå i ditt\n"
      ∷ codes "namn, och vi hör av oss när allt är på plats.\n\n"
      ∷ codes "Detta gäller din beställning:\n\n"
      ∷ codes "Paket:    "
      ∷ Package.label_sv chosen
      ∷ codes " ("
      ∷ decimal (Package.price_sek_ex_vat chosen)
      ∷ codes " kr exkl. moms)\n\n"
      ∷ codes "Svara på det här mejlet om något ser fel ut.\n\n"
      ∷ codes "Hemsidor24\n"
      ∷ studio
      ∷ codes "\n"
      ∷ []);
}

unfoldable pub site_published : Text → Text → Text → Text → Text → Message
site_published company live_url to_customer from studio = record {
  to = to_customer;
  from = from;
  reply_to = some studio;
  subject = codes "Din sida är publicerad — Hemsidor24";
  body = concat (
      codes "Hej "
      ∷ company
      ∷ codes ",\n\n"
      ∷ codes "Din sida är publicerad:\n\n"
      ∷ live_url
      ∷ codes "\n\n"
      ∷ codes "Domän, webbhotell och källkod står i ditt namn. Du är inte bunden till\n"
      ∷ codes "oss — du kan när som helst låta någon annan arbeta vidare på sidan.\n\n"
      ∷ codes "Hör av dig om något behöver rättas.\n\n"
      ∷ codes "Hemsidor24\n"
      ∷ studio
      ∷ codes "\n"
      ∷ []);
}

unfoldable pub order_cancelled : Text → Text → Text → Text → Message
order_cancelled company to_customer from studio = record {
  to = to_customer;
  from = from;
  reply_to = some studio;
  subject = codes "Din beställning är avbruten — Hemsidor24";
  body = concat (
      codes "Hej "
      ∷ company
      ∷ codes ",\n\n"
      ∷ codes "Vi har avbrutit din beställning. Du är inte skyldig oss något.\n\n"
      ∷ codes "Har du redan betalat hör vi av oss om återbetalningen.\n\n"
      ∷ codes "Vill du börja om någon gång är du välkommen tillbaka.\n\n"
      ∷ codes "Hemsidor24\n"
      ∷ studio
      ∷ codes "\n"
      ∷ []);
}

unfoldable pub refund_issued : Text → Package → Text → Text → Text → Text → Message
refund_issued company chosen reason to_customer from studio = record {
  to = to_customer;
  from = from;
  reply_to = some studio;
  subject = codes "Återbetalning — Hemsidor24";
  body = concat (
      codes "Hej "
      ∷ company
      ∷ codes ",\n\n"
      ∷ codes "Vi betalar tillbaka "
      ∷ kronor (Package.price_ore_inc_vat chosen)
      ∷ codes " till dig.\n\n"
      ∷ codes "Anledning: "
      ∷ reason
      ∷ codes "\n\n"
      ∷ codes "Pengarna är på väg. Hör av dig om de inte kommit fram.\n\n"
      ∷ codes "Hemsidor24\n"
      ∷ studio
      ∷ codes "\n"
      ∷ []);
}
