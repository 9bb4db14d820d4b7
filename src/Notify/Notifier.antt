-- ===== src/Notify/Notifier.antt =====
-- crates/hemsidor24-notify/src/lib.rs and smtp.rs: handing a message to the mail server, or to the
-- recorder that stands in for one. The mail library is a parameter: it parses addresses, builds an
-- email and delivers it, and may refuse each.
use hemsidor.Prelude.{
  ℕ, Bool, ◌≡◌, ◌⊎◌, Option, none, some, List, [], ◌∷◌, ◌++◌, arith, Result, ok, err, if◌then◌else◌,
}
use hemsidor.Text.{Text}
use hemsidor.Notify.Message.{Message}

pub data NotifyError : Type 0 where
  address : (given : Text) → NotifyError
  build transport simulated : NotifyError

-- The recorder that stands in for a mail server.
pub record FakeNotifier : Type 0 where
  pub sent : List Message
  pub fail : Bool

-- `FakeNotifier::send`
unfoldable pub fake_send : Message → FakeNotifier → Result NotifyError (Unit {0}) × FakeNotifier
fake_send message self =
    if self.fail
    then (err simulated, self)
    else (ok tt, record self { sent = self.sent ++ message ∷ [] })

-- `SmtpConfig`
pub record SmtpConfig : Type 0 where
  pub host : Text
  pub port : ℕ
  pub user : Text
  pub password : Text
  pub notify_to : Text
  pub notify_from : Text

-- `SmtpConfig::DEFAULT_PORT`
abbrev pub default_smtp_port : ℕ
default_smtp_port = 587

-- What the program uses of the mail library.
pub record Lettre : Type 1 where
  pub Mailbox : Type 0
  pub Email : Type 0
  pub Relay : Type 0
  pub Transport : Type 0
  pub parse : Text → Option Mailbox
  pub assemble : Mailbox → Mailbox → Option Mailbox → Text → Text → Option Email
  pub starttls_relay : Text → Option Relay
  -- A transport to the relay, by its port, its user and the password.
  pub transport : Relay → ℕ → Text → Text → Transport
  pub deliver : Transport → Email → Bool

module _ (l : Lettre) where
  open l use {Mailbox, Email, Relay, Transport, parse, assemble, starttls_relay, deliver}

  -- `SmtpNotifier`
  pub record SmtpNotifier : Type 0 where
    pub transport : Transport

  abbrev connected : Option Relay → SmtpConfig → Result NotifyError SmtpNotifier
  connected none config = err transport
  connected (some relay) config =
      ok (record { transport = l.transport relay config.port config.user config.password })

  -- `SmtpNotifier::connect`
  unfoldable pub connect : SmtpConfig → Result NotifyError SmtpNotifier
  connect config = connected (starttls_relay config.host) config

  unfoldable pub mailbox : Text → Result NotifyError Mailbox
  mailbox given = elim (parse given) [ some m ↦ ok m | none ↦ err (address given) ]

  -- The reply address, if the message has one.
  unfoldable pub reply_mailbox : Option Text → Result NotifyError (Option Mailbox)
  unfolding mailbox
  reply_mailbox none = ok none
  reply_mailbox (some given) = elim (mailbox given) [ ok m ↦ ok (some m) | err e ↦ err e ]

  unfoldable pub deliver_email : SmtpNotifier → Option Email → Result NotifyError (Unit {0})
  deliver_email self none = err build
  deliver_email self (some email) = if deliver self.transport email then ok tt else err transport

  -- `SmtpNotifier::send`
  unfoldable pub smtp_send : SmtpNotifier → Message → Result NotifyError (Unit {0})
  unfolding mailbox reply_mailbox deliver_email
  smtp_send self message = elim (mailbox message.from) [
    | err e ↦ err e
    | ok from ↦ elim (mailbox message.to) [
      | err e ↦ err e
      | ok to ↦ elim (reply_mailbox message.reply_to) [
        | err e ↦ err e
        | ok reply_to ↦ deliver_email self (assemble from to reply_to message.subject message.body)
      ]
    ]
  ]

  -- An address error of sending names a text that does not parse as an address and is the
  -- message's sender, its recipient or its reply address.
  smtp_send-address :
      (self : SmtpNotifier) (message : Message) (given : Text)
      → smtp_send self message ≡ err (address given)
      → (parse given ≡ none)
        × ((given ≡ message.from) ⊎ ((given ≡ message.to) ⊎ (message.reply_to ≡ some given)))
  unfolding smtp_send
  smtp_send-address self message given h = ground arith
