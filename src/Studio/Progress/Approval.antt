-- ===== src/Studio/Progress/Approval.antt =====
-- A new order, taken to its approval.
use hemsidor.Prelude.{ℕ, ◌≡◌, refl, ap, ◌∙◌, Option, some, ◌++◌, find, ◌==◌, ok}
use hemsidor.Text.{Text, text_eq}
use hemsidor.Core.Order as Submitted
use hemsidor.Core.Status
use hemsidor.Core.Status.{
  OrderStatus, ny, utkast_skickat, godkand, from_slug, can_transition_to, next_allowed,
}
use hemsidor.Core.Package.Laws
use hemsidor.Notify.Message.{Message, proposal_ready, proposal_accepted}
use hemsidor.Web.Orders.{Backend, RequestMeta, new_row}
use hemsidor.Studio.Backend.{Orm, IsOrm}
use hemsidor.Handover.Cell.{Cell}
use hemsidor.Studio.Monad.{World, Mail, handed}
use hemsidor.Studio.Workflow.{advance}
use hemsidor.Studio.Actions.{proposal_step, acceptance_step}
use hemsidor.Web.Orders.Table.{inserted}
use hemsidor.Studio.Progress.{Answers, step_taken}

-- The message goes to the customer, from the configured sender, and is answered to the studio.
abbrev pub Addressed : Text → Mail → Message → Type 0
Addressed customer mail message =
    (message.to ≡ customer) × (message.from ≡ mail.from) × (message.reply_to ≡ some mail.studio)

module _ (o : Orm) (laws : IsOrm o) (answers : Answers o) (c : Cell) (mail : Option Mail) where
  -- With a database that keeps to IsOrm and answers: an order that the public page stored, whether
  -- or not its notification is stamped, can be taken to its approval. Sending its proposal and then
  -- recording its acceptance both succeed; the order then stands as approved and is otherwise as it
  -- was; and the customer has been handed the proposal and after it the confirmation, both for the
  -- package that was ordered, where mail is configured. Both are addressed to the customer, from the
  -- configured sender, with the studio as the address for answers.
  pub stored-approved :
      (b : Backend) (form : Submitted.Order) (meta : RequestMeta) (salt : Text) (id received_at : ℕ)
      (notified : Option ℕ) (w : World o c)
      → find (λ row. row.id == id) (o.tables w.db).orders
        ≡ some
            (record (inserted (new_row b form meta salt) id received_at) { notified_at = notified })
      → let proposed = advance o c mail id proposal_step w in
        let accepted = advance o c mail id acceptance_step proposed.1 in
        (proposed.0 ≡ ok tt)
        × (accepted.0 ≡ ok tt)
        × (find (λ row. row.id == id) (o.tables accepted.1.db).orders
            ≡ some (record (inserted (new_row b form meta salt) id received_at) {
              status = Status.slug godkand;
              notified_at = notified;
            }))
        × (accepted.1.outbox
            ≡ (w.outbox
                ++ handed mail
                    (λ m. proposal_ready form.company form.«package» form.email m.from m.studio))
              ++ handed mail
                  (λ m. proposal_accepted form.company form.«package» form.email m.from m.studio))
        × ((m : Mail)
            → Addressed form.email m
                (proposal_ready form.company form.«package» form.email m.from m.studio)
              × Addressed form.email m
                  (proposal_accepted form.company form.«package» form.email m.from m.studio))
  unfolding inserted new_row proposal_step acceptance_step can_transition_to next_allowed from_slug
      Status.slug text_eq proposal_ready proposal_accepted
  stored-approved b form meta salt id received_at notified w found =
      let row = record (inserted (new_row b form meta salt) id received_at) {
        notified_at = notified;
      } in
      let (first, (found', told)) =
        step_taken o laws answers c mail id proposal_step w row ny form.«package» found refl refl
          (Laws.parse-slug form.«package») in
      let w' = (advance o c mail id proposal_step w).1 in
      let (second, (found'', told')) =
        step_taken o laws answers c mail id acceptance_step w'
          (record row { status = Status.slug utkast_skickat }) utkast_skickat form.«package» found'
          refl refl (Laws.parse-slug form.«package») in
      (
        first,
        second,
        found'',
        told'
            ∙ ap
                (λ out.
                  out
                  ++ handed mail (λ m.
                    proposal_accepted form.company form.«package» form.email m.from m.studio))
                told,
        λ m. ((refl, refl, refl), (refl, refl, refl)),
      )
