-- ===== src/Tests/Memory.antt =====
-- A database held in memory that refuses nothing, a cell that signs everything, and their laws.
use hemsidor.Prelude.{
  any, map, false, ltb, if◌then◌else◌, ◌≤◌, ℕ, ◌+◌, ◌≡◌, refl, sym, ap, true, Option, none, some,
  List, [], ◌∷◌, ◌++◌, find, ◌==◌, Result, ok, ok_injective, err, length, arith,
}
use mathlib.Core.Option
use mathlib.Core.Path.{subst}
use hemsidor.Text.{Text, codes}
use hemsidor.Studio.Models.{Order}
use hemsidor.Studio.Tables.{Tables, perform}
use hemsidor.Studio.Backend.{Orm, IsOrm}
use hemsidor.Studio.Consistent.{site_ids, delivery_ids}
use hemsidor.Studio.Consistent.Inserts.{FreshKeys}
use hemsidor.Studio.Progress.{Answers}
use hemsidor.Handover.Cell.{Cell, IsCell, Handoff}

-- A key above all that are given.
abbrev pub next_key : List ℕ → ℕ
next_key [] = 1
next_key (n ∷ ns) = let k = next_key ns in if ltb n k then k else n + 1

above : (n : ℕ) (ns : List ℕ) → (n + 1 ≤ next_key (n ∷ ns)) × (next_key ns ≤ next_key (n ∷ ns))
above n ns = ground arith

pub next_key-fresh : (ns : List ℕ) (k : ℕ) → next_key ns ≤ k → any (λ m. m == k) ns ≡ false
next_key-fresh [] k h = refl
next_key-fresh (n ∷ ns) k h =
    let (head, tail) = above n ns in
    ground (arith, next_key-fresh ns k (omega (arith, h, tail)), head, h)

-- The clock stands at 9.
abbrev pub memory : Orm
memory = record {
  Db = Tables;
  tables = λ t. t;
  now = λ t. 9;
  find_order = λ id t. ok (find (λ row. row.id == id) t.orders);
  all_sites = λ t. ok t.sites;
  all_deliveries = λ t. ok t.deliveries;
  domain_name = λ id t. ok (Option.map (λ row. row.name) (find (λ row. row.id == id) t.domains));
  create_customer = λ c t. (
    ok (next_key (map (λ row. row.id) t.customers)),
    record t {
      customers = t.customers ++ record c { id = next_key (map (λ row. row.id) t.customers) } ∷ [];
    },
  );
  create_site = λ s t. (
    ok (next_key (map (λ row. row.id) t.sites)),
    record t { sites = t.sites ++ record s { id = next_key (map (λ row. row.id) t.sites) } ∷ [] },
  );
  create_delivery = λ r t. (
    ok (next_key (map (λ row. row.id) t.deliveries)),
    record t {
      deliveries =
          t.deliveries ++ record r { id = next_key (map (λ row. row.id) t.deliveries) } ∷ [];
    },
  );
  execute = λ u t. (ok tt, perform 9 u t);
}

ok_err : {A B : Type 0} (a : A) (e : Text) → ◌≡◌ {A = Result Text A} (ok a) (err e) → B
ok_err a e h = absurd (ground arith)

pub memory-IsOrm : IsOrm memory
memory-IsOrm = record {
  find_order_ok = λ id d r h. sym (ok_injective _ _ h);
  all_sites_ok = λ d rows h. sym (ok_injective _ _ h);
  all_deliveries_ok = λ d rows h. sym (ok_injective _ _ h);
  domain_name_ok = λ id d r h. sym (ok_injective _ _ h);
  create_customer_ok = λ c d id h.
      ap (λ (n : ℕ). record d { customers = d.customers ++ record c { id = n } ∷ [] })
        (ok_injective _ _ h);
  create_customer_err = λ c d e h. ok_err _ e h;
  create_site_ok = λ s d id h.
      ap (λ (n : ℕ). record d { sites = d.sites ++ record s { id = n } ∷ [] }) (ok_injective _ _ h);
  create_site_err = λ s d e h. ok_err _ e h;
  create_delivery_ok = λ r d id h.
      ap (λ (n : ℕ). record d { deliveries = d.deliveries ++ record r { id = n } ∷ [] })
        (ok_injective _ _ h);
  create_delivery_err = λ r d e h. ok_err _ e h;
  execute_ok = λ u d h. refl;
  execute_err = λ u d e h. ok_err _ e h;
}

pub memory-FreshKeys : FreshKeys memory
memory-FreshKeys = record {
  site = λ s d id h.
      subst (λ k. any (λ m. m == k) (site_ids d) ≡ false) (ok_injective _ _ h)
        (next_key-fresh (site_ids d) (next_key (site_ids d)) (omega arith));
  delivery = λ r d id h.
      subst (λ k. any (λ m. m == k) (delivery_ids d) ≡ false) (ok_injective _ _ h)
        (next_key-fresh (delivery_ids d) (next_key (delivery_ids d)) (omega arith));
}

pub memory-Answers : Answers memory
memory-Answers = record {
  finds = λ id d. (find (λ r. r.id == id) d.orders, refl);
  lists_sites = λ d. (d.sites, refl);
  executes = λ u d. refl;
}

abbrev pub notebook : Cell
notebook = record {
  State = List (ℕ × Handoff);
  claims = λ s. s;
  max_ref_len = 64;
  can_open = λ s. true;
  new_handoff = λ item event.
      ok (record {
        item = item;
        event = event;
        counterparty = none;
        acknowledges = none;
        note = [];
      });
  with_counterparty = λ name h. ok (record h { counterparty = some name });
  acknowledging = λ id h. record h { acknowledges = some id };
  issue = λ h s. (ok (length s), s ++ (length s, h) ∷ []);
}

pub notebook-IsCell : IsCell notebook
notebook-IsCell = record {
  issue_ok = λ h s id e. ap (λ (n : ℕ). s ++ (n, h) ∷ []) (ok_injective _ _ e);
  issue_err = λ h s why e. ok_err _ why e;
  acknowledging_item = λ id h. refl;
  new_handoff_item = λ item event h e. (
    ap (λ (k : Handoff). k.item) (sym (ok_injective _ _ e)),
    ap (λ (k : Handoff). k.event) (sym (ok_injective _ _ e)),
  );
  with_counterparty_item = λ name h k e. (
    ap (λ (k : Handoff). k.item) (sym (ok_injective _ _ e)),
    ap (λ (k : Handoff). k.event) (sym (ok_injective _ _ e)),
    ap (λ (k : Handoff). k.counterparty) (sym (ok_injective _ _ e)),
  );
}

abbrev pub request : Text → Option ℕ → Order
request status customer_id = record {
  id = 7;
  company = codes "Bageriet";
  city = codes "Lund";
  phone = codes "046-123456";
  email = codes "anna@bageriet.se";
  services = codes "Bröd";
  style = codes "naturlig";
  «package» = codes "start";
  status = status;
  received_at = 1;
  ip_hash = none;
  user_agent = none;
  notified_at = none;
  customer_id = customer_id;
}
