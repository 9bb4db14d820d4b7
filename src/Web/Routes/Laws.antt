-- ===== src/Web/Routes/Laws.antt =====
-- What the answer to a submitted form says of the order.
use hemsidor.Prelude.{
  ℕ, Bool, true, false, ◌≡◌, ◌≢◌, refl, ap, ◌∙◌, ok, err, Result, Result-cases, inl, inr, arith,
  if◌then◌else◌, Option, none, [], ◌∷◌, ◌++◌, any, ◌==◌,
}
use mathlib.Core.Option
use hemsidor.Text.{codes}
use hemsidor.Core.Validation.{ValidationErrors}
use hemsidor.Core.Order.{OrderForm, Order, validate}
use hemsidor.Core.Order.Revalidate.{written, validate-written}
use hemsidor.Notify.Message.{studio_notification, customer_confirmation}
use hemsidor.Studio.Models
use hemsidor.Web.Spam.{is_spam, check}
use hemsidor.Web.Form.{OrderSubmission, to_core, blank_form}
use hemsidor.Web.Orders.{Backend, Service, StoreError, RequestMeta, new_row, store, notify}
use hemsidor.Web.Orders.Table.{IsBackend, Told, inserted, noted-orders}
use hemsidor.Web.Routes.{AppState, Response, page, after_store, after_validate, submit_order}

-- The columns of a stored row, as a submission.
abbrev pub form_of : Models.Order → OrderForm
form_of row = record {
  company = row.company;
  city = row.city;
  phone = row.phone;
  email = row.email;
  services = row.services;
  style = row.style;
  «package» = row.«package»;
}

abbrev pub thanks : ℕ → Response
thanks now = page 200 (blank_form now) true

module _ (b : Backend) (laws : IsBackend b) (state : AppState) (submission : OrderSubmission)
    (meta : RequestMeta) where
  -- The second service has the rows of the first and one more, which reads back as the submission's
  -- order; what was sent between them is the studio's copy and then the customer's receipt.
  pub record Stored (s v : Service b) : Type 0 where
    pub order : Order
    pub row : Models.Order
    pub valid : validate (to_core submission) ≡ ok order
    pub added : laws.orders v.db ≡ laws.orders s.db ++ row ∷ []
    pub fresh : any (λ r. r.id == row.id) (laws.orders s.db) ≡ false
    pub reads_back : validate (form_of row) ≡ ok order
    pub status : row.status ≡ codes "ny"
    pub customer_id : row.customer_id ≡ none
    pub user_agent : row.user_agent ≡ meta.user_agent
    pub ip_hash : row.ip_hash ≡ Option.map (λ ip. b.sha256_hex (ip ++ state.ip_hash_salt)) meta.ip
    pub told :
        Told b laws
          (b.send (studio_notification order row.id state.notify_to state.notify_from) s.post).0
          row
    pub posted :
        v.post
        ≡ (b.send
            (customer_confirmation order state.notify_to state.notify_from)
            (b.send
              (studio_notification order row.id state.notify_to state.notify_from)
              s.post).1).1

  columns :
      (order : Order) (id received_at : ℕ) (n : Option ℕ)
      → form_of (record (inserted (new_row b order meta state.ip_hash_salt) id received_at) {
        notified_at = n;
      })
        ≡ written order
  unfolding new_row written inserted
  columns order id received_at n = refl

  store-Stored :
      (now : ℕ) (order : Order) (s : Service b)
      → validate (to_core submission) ≡ ok order
      → (after_store b state order now
          (store b order meta state.ip_hash_salt s).0
          (store b order meta state.ip_hash_salt s).1).0
        ≡ thanks now
      → Stored s
          (after_store b state order now
            (store b order meta state.ip_hash_salt s).0
            (store b order meta state.ip_hash_salt s).1).1
  unfolding store notify inserted new_row
  store-Stored now order s valid h =
      let columns_in = new_row b order meta state.ip_hash_salt in
      elim (Result-cases (b.insert_order columns_in s.db).0) [
        | inr (why, e) ↦ absurd (ground arith)
        | inl (id, e) ↦
            let fresh = laws.insert_key columns_in s.db id e in
            let (n, added, told) =
              noted-orders b laws
                (b.send (studio_notification order id state.notify_to state.notify_from) s.post).0
                columns_in id (laws.now s.db) (b.insert_order columns_in s.db).1 (laws.orders s.db)
                (laws.insert_ok columns_in s.db id e) fresh in
            rw e (record {
              order = order;
              row = record (inserted columns_in id (laws.now s.db)) { notified_at = n };
              valid = valid;
              added = added;
              fresh = fresh;
              reads_back =
                  ap validate (columns order id (laws.now s.db) n)
                  ∙ validate-written (to_core submission) order valid;
              status = refl;
              customer_id = refl;
              user_agent = refl;
              ip_hash = refl;
              told = told;
              posted = refl;
            })
      ]

  validated :
      (now : ℕ) (r : Result ValidationErrors Order) (s : Service b)
      → validate (to_core submission) ≡ r
      → (after_validate b state submission meta now r s).0 ≡ thanks now
      → Stored s (after_validate b state submission meta now r s).1
  validated now (err errors) s e h = absurd (ground arith)
  validated now (ok order) s e h = store-Stored now order s e h

  answered_if :
      (now : ℕ) (spam : Bool) (s : Service b) (r : Response × Service b)
      → spam ≡ false
      → (r.0 ≡ thanks now → Stored s r.1)
      → (if spam then (thanks now, s) else r).0 ≡ thanks now
      → Stored s (if spam then (thanks now, s) else r).1
  answered_if now true s r person k h = absurd (ground arith)
  answered_if now false s r person k h = k h

  -- With a database that keeps to IsBackend: a submission that the spam check passes and that is
  -- answered with the confirmation page is a valid order and has been stored. The table afterwards
  -- is the table before and one new row, under a key that no row had; its columns, validated as a
  -- submission, give that order again; it is new, belongs to no customer, and has the user agent and
  -- the digest of the salted address. What was handed to the notifier is the studio's copy and then
  -- the customer's receipt; where the copy was sent, the row is stamped as notified or the update
  -- failed, and where it was not, the row has no stamp.
  pub submit_order-Stored :
      (now : ℕ) (s : Service b)
      → is_spam (check submission.webbplats submission.oppnad now) ≡ false
      → (submit_order b state submission meta now s).0 ≡ thanks now
      → Stored s (submit_order b state submission meta now s).1
  unfolding submit_order
  submit_order-Stored now s person h =
      answered_if now (is_spam (check submission.webbplats submission.oppnad now)) s
        (after_validate b state submission meta now (validate (to_core submission)) s) person
        (validated now (validate (to_core submission)) s refl) h

module _ (b : Backend) (state : AppState) (submission : OrderSubmission) (meta : RequestMeta)
    (now : ℕ) where
  quiet_store :
      (order : Order) (r : Result StoreError ℕ) (s : Service b)
      → (after_store b state order now r s).0 ≢ thanks now
      → (after_store b state order now r s).1.post ≡ s.post
  quiet_store order (err error) s h = refl
  quiet_store order (ok id) s h = absurd (h refl)

  quiet_validate :
      (r : Result ValidationErrors Order) (s : Service b)
      → (after_validate b state submission meta now r s).0 ≢ thanks now
      → (after_validate b state submission meta now r s).1.post ≡ s.post
  unfolding store
  quiet_validate (err errors) s h = refl
  quiet_validate (ok order) s h = quiet_store order _ _ h

  quiet_if :
      (spam : Bool) (s : Service b) (r : Response × Service b)
      → (r.0 ≢ thanks now → r.1.post ≡ s.post)
      → (if spam then (thanks now, s) else r).0 ≢ thanks now
      → (if spam then (thanks now, s) else r).1.post ≡ s.post
  quiet_if true s r k h = refl
  quiet_if false s r k h = k h

  -- A submission that is not answered with the confirmation page leaves the postbox as it was: no
  -- message is sent.
  submit_order-quiet :
      (s : Service b)
      → (submit_order b state submission meta now s).0 ≢ thanks now
      → (submit_order b state submission meta now s).1.post ≡ s.post
  unfolding submit_order
  submit_order-quiet s =
      quiet_if (is_spam (check submission.webbplats submission.oppnad now)) s
        (after_validate b state submission meta now (validate (to_core submission)) s)
        (quiet_validate (validate (to_core submission)) s)
