-- ===== src/Studio/Mailer/Agrees.antt =====
-- The public site and the back office read the same mail settings.
use hemsidor.Prelude.{
  ℕ, false, ◌≡◌, refl, sym, ap, ◌∙◌, inl, inr, Option, none, some, [], ◌∷◌, is_empty, not,
  if◌then◌else◌, Result, ok, err, ok_injective, is_some, arith,
}
use mathlib.Core.Path.{subst}
use hemsidor.Text.{Text}
use hemsidor.Text.Trim.{trim}
use hemsidor.Text.Decimal.{parse_unsigned}
use hemsidor.Env.{Env, optional, filled, parse_port}
use hemsidor.Notify.Notifier.{
  NotifyError, SmtpConfig, default_smtp_port, Lettre, SmtpNotifier, connect,
}
use hemsidor.Web.Config.{smtp_from_env, smtp_port}
use hemsidor.Web.Config.Smtp.{PortIs, Describes, smtp_from_env-Describes}
use hemsidor.Web.Start.{Postage, with_smtp, postage}
use hemsidor.Studio.Mailer.{Mailer, init, lenient_port, partly_set, unconfigured, connected_mailer}

unset : (o : Option Text) → is_some o ≡ false → o ≡ none
unset none h = refl
unset (some v) h = cc

-- A text that is read as a port is not blank.
port_filled : (raw : Text) (n : ℕ) → parse_port raw ≡ some n → filled (some raw) ≡ some raw
unfolding parse_port parse_unsigned
port_filled raw n h = read (trim raw) h
  where
    read :
        (t : Text)
        → parse_unsigned 65535 t ≡ some n
        → (if not (is_empty t) then some raw else none) ≡ some raw
    read [] h = cc
    read (c ∷ t) h = refl

some_injective : (a b : Text) → some a ≡ some b → a ≡ b
some_injective a b h = ground arith

lenient_port-PortIs :
    (raw : Option Text) (n : ℕ) → PortIs default_smtp_port raw n → lenient_port (filled raw) ≡ n
unfolding lenient_port
lenient_port-PortIs none n h = elim h [ inl (e, p) ↦ sym p | inr (t, e, p) ↦ cc ]
lenient_port-PortIs (some raw) n h = elim h [
  | inl (e, p) ↦ cc
  | inr (t, e, p) ↦
      let read : parse_port raw ≡ some n =
        subst (λ r. parse_port r ≡ some n) (sym (some_injective raw t e)) p in
      rw (port_filled raw n read, read) refl
]

module _ (l : Lettre) where
  -- The mailer is what the public site sends with.
  abbrev pub SameMail : Mailer l → Postage l → Type 0
  SameMail mailer post =
      (mailer.notifier ≡ post.notifier)
      × (mailer.addresses.studio ≡ post.notify_to)
      × (mailer.addresses.from ≡ post.notify_from)

  same_mail :
      (config : SmtpConfig) (post : Postage l) (r : Result NotifyError (SmtpNotifier l))
      → with_smtp l config r ≡ ok post
      → SameMail (connected_mailer l config r) post
  same_mail config post (ok n) h =
      subst (λ q. SameMail (connected_mailer l config (ok n)) q) (ok_injective _ post h)
        (refl, refl, refl)
  same_mail config post (err e) h = absurd (ground arith)

  -- What the back office sends with where all five variables are set.
  with_port : Env → SmtpConfig → ℕ → Mailer l
  with_port env config port =
      connected_mailer l (record config { port = port }) (connect l (record config { port = port }))

  init_full :
      (env : Env) (config : SmtpConfig)
      → Describes env (ok (some config))
      → init l env ≡ with_port env config (lenient_port (optional env smtp_port))
  unfolding init with_port
  init_full env config (h0, h1, h2, h3, h4, p) = rw (h0, h1, h2, h3, h4) refl

  -- In an environment in which the public site comes to have mail, or its recorder, the back office
  -- sends with the same notifier, from the same address, and names the same studio address.
  pub init-postage :
      (env : Env) (smtp : Option SmtpConfig) (post : Postage l)
      → smtp_from_env env ≡ ok smtp
      → postage l smtp ≡ ok post
      → SameMail (init l env) post
  unfolding init postage partly_set unconfigured with_port optional
  init-postage env none post read h =
      let (u0, (u1, (u2, (u3, (u4, u))))) =
        subst (Describes env) read (smtp_from_env-Describes env) in
      subst (SameMail (init l env)) (ok_injective _ post h)
        (rw (unset _ u0, unset _ u3, unset _ u4) (refl, refl, refl))
  init-postage env (some config) post read h =
      let all = subst (Describes env) read (smtp_from_env-Describes env) in
      let (h0, h1, h2, h3, h4, p) = all in
      subst (λ m. SameMail m post)
        (sym (
          init_full env config all
          ∙ ap (with_port env config) (lenient_port-PortIs (env smtp_port) config.port p)))
        (same_mail config post (connect l config) h)
