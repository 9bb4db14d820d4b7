-- ===== src/Lib.antt =====
-- Hemsidor24, a studio that sells small web sites: the order form's rules, the studio's workflow over
-- its database, the messages that it sends and the claims that it signs when a site is handed over.
--
-- The program is a Rust workspace. A customer's form is checked for spam by the web crate, validated by
-- the core crate, and shown again by the web crate where it is refused. The back office
-- moves a stored order along a fixed diagram of statuses, writes to Postgres through rustio-admin,
-- sends mail through the notify crate, and signs into a local cell through the handover crate.
--
--   Prelude      names that are shared, `Result`, lists and Boolean tests on the native numbers
--   Text         a text is the list of its code points: trim, lines, split, join, words, decimal
--   Env          the process environment, which both servers read
--   Core         crates/hemsidor24-core/src: Scope (scope.rs), Validation (validation.rs), Package
--                (package.rs), Style (style.rs), Status (status.rs), Order (order.rs)
--   Notify       crates/hemsidor24-notify/src: Message (message.rs), Notifier (lib.rs, smtp.rs)
--   Handover     crates/hemsidor24-handover/src: Asset (asset.rs), Cell, Custody and History
--                (studio.rs), Receipt (receipt.rs)
--   Studio       crates/hemsidor24-admin/src: Models (models.rs), Tables (the SQL statements of the
--                actions), Backend (what is used of rustio-admin and Postgres), Monad (one action),
--                Workflow (workflow.rs), Accept (accept.rs), Signing (signing.rs), Publication
--                (publication.rs), Cancellation (cancellation.rs), Actions (proposal.rs,
--                acceptance.rs, cancellation.rs, models.rs), Mailer (mail.rs), Startup (main.rs and
--                the cell check of signing.rs), Panel (models.rs), Logging (logging.rs),
--                Interleaved (the actions where several operators work at once), Grows,
--                Consistent, Outcomes, Lives and Progress (proofs)
--   Web          crates/hemsidor24-web/src: Spam (spam.rs), Form (form.rs), Orders (orders.rs),
--                Routes and Router (routes.rs), Config (config.rs), Start and Shutdown
--                (main.rs)
--   Tests        a database in memory and each theorem at a concrete input
--
-- An action of the back office is a function from a world to an answer and a world. The world is
-- the database, the state of the signing cell and the messages that were handed to the mailer.
-- Nothing is rolled back on a refusal, as in the code. What is not the repository's own code is a
-- record of operations, each of which may fail: the database (Orm; Backend for the public page),
-- the signing cell (Cell, and Archive for the claims that it stores), the mail library (Lettre),
-- the disk with the cell directories (Disks), the framework's accounts (Accounts), what a server
-- starts on (Platform, Framework), what the router calls (Libraries) and the log crate (Facade).
-- IsOrm, IsBackend, IsCell, IsDisks and IsAccounts say what a success and a failure leave behind,
-- Answers that a database answers, and FreshKeys that it gives no key twice. Between two
-- statements of one action no other client writes, save in Interleaved, where the database of an
-- operator lets the others do what they like before each of his writes. The clock is the
-- database's; the code also reads its own when an order is accepted.
--
-- The loops run over lists. Only the printing of a decimal number counts down a bound, one more
-- than the number itself, which is enough: Text/Decimal/RoundTrip shows that every number that is
-- printed is read back. Prices wrap around at 32 bits as in the code. Identifiers and moments are
-- numbers; a text's length is counted in code points, as the code does, and in bytes where the
-- signing dialect bounds a reference.
--
-- Not modelled: the web server's own library, the log lines that the other parts write, the pages of
-- the panel, the schema beyond the defaults of a new order, the templates and the scripts.
mod Prelude
pub mod Text
pub mod Env
pub mod Core
pub mod Notify
pub mod Handover
pub mod Studio
pub mod Web
pub mod Tests
