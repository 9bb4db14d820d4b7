-- ===== src/Studio/Mailer.antt =====
-- crates/hemsidor24-admin/src/mail.rs: the back office's outbound mail, built once from the
-- environment. Log lines are left out, save that sending answers with the error it logs.
pub mod Agrees
use hemsidor.Prelude.{
  ℕ, Option, none, some, List, [], ◌∷◌, Result, ok, err, map_err, to_option, some_or, false,
}
use hemsidor.Text.{Text, codes}
use hemsidor.Env.{Env, optional, parse_port}
use hemsidor.Notify.Message.{Message}
use hemsidor.Notify.Notifier.{
  NotifyError, FakeNotifier, fake_send, SmtpConfig, default_smtp_port, Lettre, SmtpNotifier,
  connect, smtp_send,
}
use hemsidor.Studio.Monad.{Mail}

-- `FakeNotifier::new`
abbrev pub no_messages : FakeNotifier
no_messages = record { sent = []; fail = false }

-- Why no test message left.
pub data TestRefusal : Type 0 where
  not_configured : TestRefusal
  not_sent : NotifyError → TestRefusal

-- `SMTP_PORT`, where it holds a port.
unfoldable pub lenient_port : Option Text → ℕ
lenient_port none = default_smtp_port
lenient_port (some raw) = some_or default_smtp_port (parse_port raw)

module _ (l : Lettre) where
  -- `Mail`: who sends, and where mail goes.
  pub record Mailer : Type 0 where
    pub notifier : Option (SmtpNotifier l)
    pub fallback : FakeNotifier
    pub addresses : Mail

  -- `unconfigured`
  unfoldable pub unconfigured : Text → Text → Mailer
  unconfigured studio from = record {
    notifier = none;
    fallback = no_messages;
    addresses = record { studio = studio; from = from };
  }

  -- What `SmtpNotifier::connect` answered.
  abbrev pub connected_mailer : SmtpConfig → Result NotifyError (SmtpNotifier l) → Mailer
  connected_mailer config (ok notifier) = record {
    notifier = some notifier;
    fallback = no_messages;
    addresses = record { studio = config.notify_to; from = config.notify_from };
  }
  connected_mailer config (err e) = unconfigured config.notify_to config.notify_from

  -- The mailer where not all five variables are set.
  unfoldable pub partly_set : Env → Mailer
  partly_set env =
      let studio = some_or (codes "hej@hemsidor24.se") (optional env (codes "NOTIFY_TO")) in
      unconfigured studio (some_or studio (optional env (codes "NOTIFY_FROM")))

  -- By the five variables: host, user, password, recipient and sender.
  abbrev pub init_from :
      Env → Option Text → Option Text → Option Text → Option Text → Option Text → Mailer
  init_from env (some host) (some user) (some password) (some to) (some from) =
      let config : SmtpConfig = record {
        host = host;
        port = lenient_port (optional env (codes "SMTP_PORT"));
        user = user;
        password = password;
        notify_to = to;
        notify_from = from;
      } in
      connected_mailer config (connect l config)
  init_from env host user password to from = partly_set env

  -- `init`
  unfoldable pub init : Env → Mailer
  init env =
      init_from env (optional env (codes "SMTP_HOST")) (optional env (codes "SMTP_USER"))
        (optional env (codes "SMTP_PASSWORD")) (optional env (codes "NOTIFY_TO"))
        (optional env (codes "NOTIFY_FROM"))

  abbrev pub send_by :
      Option (SmtpNotifier l) → Mailer → Message → Result NotifyError (Unit {0}) × Mailer
  send_by (some smtp) self message = (smtp_send l smtp message, self)
  send_by none self message =
      let (result, fallback) = fake_send message self.fallback in
      (result, record self { fallback = fallback })

  -- `Mail::send`: its result is logged, never returned.
  unfoldable pub send : Mailer → Message → Result NotifyError (Unit {0}) × Mailer
  send self message = send_by self.notifier self message

  unfoldable pub test_message : Mail → Message
  test_message mail = record {
    to = mail.studio;
    from = mail.from;
    reply_to = some mail.studio;
    subject = codes "Hemsidor24 — testutskick";
    body =
        codes
          "Detta är ett testmeddelande från Hemsidor24:s backoffice.\n\nDet skickades avsiktligt för att kontrollera att e-post fungerar.\nIngen beställning och ingen kund berörs.\n";
  }

  abbrev pub send_test : Mailer → Option (SmtpNotifier l) → Result TestRefusal (Unit {0})
  send_test mail none = err not_configured
  send_test mail (some notifier) =
      map_err not_sent (smtp_send l notifier (test_message mail.addresses))

  -- `send_test_message`, in a process where nothing has built the mailer before.
  unfoldable pub send_test_message : Env → Result TestRefusal (Unit {0})
  send_test_message env = let mail = init env in send_test mail mail.notifier
