-- ===== src/Commission/Close/Effect.antt =====
-- What the transactions of the close do to the tables.
use devops_g_9_tillflow.Base.{
  ℕ, ◌+◌, ◌*◌, ◌/◌, ◌%◌, ◌≤◌, String, ◌≡◌, refl, sym, ◌∙◌, ap, subst, ◌⊎◌, inl, inr, Bool, true,
  ltb, Option, none, some, ◌∷◌, arith, Bool-cases, is_none,
}
use devops_g_9_tillflow.Base.Table.{any_where, update_where, In, Rowwise}
use devops_g_9_tillflow.Base.Table.Update.{Rowwise-refl, Rowwise-update}
use devops_g_9_tillflow.Base.Integers.{ℤ, pos, negsuc}
use devops_g_9_tillflow.Commission.Calc.{
  ClosePlan, plan_of, fold_carry_forward, sale_commission_minor,
}
use devops_g_9_tillflow.Commission.Tables.{
  LedgerRow, PayoutItem, Db, is_live_on, ledger_ok, item_clash, items_ok,
}
use devops_g_9_tillflow.Commission.Close.{
  Arrival, insert_item, item_of, record_amounts, record_sale, insert_ledger, is_unlinked,
  planned_row, follow_plan, close_attendant, today_total, carry_before,
}
use devops_g_9_tillflow.Commission.Close.Valid.{Valid, items_ok-update}

-- The item is the same, and a link that it has stays.
pub record Linked (i j : PayoutItem) : Type 0 where
  pub id : j.id ≡ i.id
  pub sale_id : j.sale_id ≡ i.sale_id
  pub commission : j.commission_minor ≡ i.commission_minor
  pub link : (i.payout_ledger_id ≡ none) ⊎ (j.payout_ledger_id ≡ i.payout_ledger_id)

pub Linked-refl : (i : PayoutItem) → Linked i i
Linked-refl i = record { id = refl; sale_id = refl; commission = refl; link = inr refl }

link_step :
    (i j k : PayoutItem)
    → (i.payout_ledger_id ≡ none) ⊎ (j.payout_ledger_id ≡ i.payout_ledger_id)
    → (j.payout_ledger_id ≡ none) ⊎ (k.payout_ledger_id ≡ j.payout_ledger_id)
    → (i.payout_ledger_id ≡ none) ⊎ (k.payout_ledger_id ≡ i.payout_ledger_id)
link_step i j k (inl e) h = inl e
link_step i j k (inr e) (inl f) = inl (sym e ∙ f)
link_step i j k (inr e) (inr f) = inr (f ∙ e)

pub Linked-trans : (i j k : PayoutItem) → Linked i j → Linked j k → Linked i k
Linked-trans i j k h n = record {
  id = n.id ∙ h.id;
  sale_id = n.sale_id ∙ h.sale_id;
  commission = n.commission ∙ h.commission;
  link = link_step i j k h.link n.link;
}

-- What recording a sale does: an item more, at most.
pub record Recorded (d e : Db) : Type 0 where
  pub ledger : e.payout_ledger ≡ d.payout_ledger
  pub items : (i : PayoutItem) → In i d.payout_items → In i e.payout_items

insert_item-Recorded : (p : PayoutItem) (d : Db) → Recorded d (insert_item p d)
unfolding insert_item
insert_item-Recorded p d = elim (Bool-cases (any_where (item_clash p) d.payout_items)) [
  | inl e ↦ rw e (record { ledger = refl; items = λ i m. m })
  | inr e ↦ rw e (record { ledger = refl; items = λ i m. inr m })
]

record_amounts-Recorded :
    (t b : String) (a : Arrival) (total rate : ℤ) (d : Db) {e : Db}
    → record_amounts t b a total rate d ≡ some e
    → Recorded d e
unfolding record_amounts sale_commission_minor
record_amounts-Recorded t b a (pos total) (pos rate) d {e} h =
    let p = item_of t b a total rate (total * rate / 10000) in
    let same : insert_item p d ≡ e = cc h in subst (Recorded d) same (insert_item-Recorded p d)
record_amounts-Recorded t b a (pos total) (negsuc rate) d h = absurd (cc h)
record_amounts-Recorded t b a (negsuc total) rate d h = absurd (cc h)

pub record_sale-Recorded :
    (t b : String) (a : Arrival) (d : Db) {e : Db} → record_sale t b a d ≡ some e → Recorded d e
unfolding record_sale
record_sale-Recorded t b a d h =
    record_amounts-Recorded t b a a.sale.total_minor a.sale.commission_rate_bps d h

-- What a row that the close plans is like.
pub record Payout (key_for : String → String → String → String) (payout_min_minor : ℕ)
    (p : LedgerRow) : Type 0 where
  pub key : p.idempotency_key ≡ key_for p.tenant_id p.attendant_id p.business_date
  pub whole : p.amount_minor % 100 ≡ 0
  pub least : payout_min_minor ≤ p.amount_minor

-- What a close does: a row more, at most, and links for items that had none.
pub record Closed (key_for : String → String → String → String) (payout_min_minor : ℕ) (d e : Db)
    : Type 0 where
  pub rows : (p : LedgerRow) → In p d.payout_ledger → In p e.payout_ledger
  pub planned :
      (p : LedgerRow)
      → In p e.payout_ledger
      → In p d.payout_ledger ⊎ Payout key_for payout_min_minor p
  pub ok : Valid d → Valid e
  pub items : Rowwise Linked d.payout_items e.payout_items

module _ (key_for : String → String → String → String) (t a b msisdn ledger_id : String)
    (now m : ℕ) where
  abbrev C : Db → Db → Type 0
  C = Closed key_for m

  unchanged :
      (d e : Db) → e.payout_ledger ≡ d.payout_ledger → e.payout_items ≡ d.payout_items → C d e
  unchanged d e h k = record {
    rows = λ p n. subst (In p) (sym h) n;
    planned = λ p n. inl (subst (In p) h n);
    ok = λ v. record { ledger = ap ledger_ok h ∙ v.ledger; items = rw k v.items };
    items =
        subst (Rowwise Linked d.payout_items) (sym k)
          (Rowwise-refl Linked Linked-refl d.payout_items);
  }

  link_items : PayoutItem → PayoutItem
  link_items i = record i { payout_ledger_id = some ledger_id }

  same_keys : (q : PayoutItem) → ((link_items q).id ≡ q.id) × ((link_items q).sale_id ≡ q.sale_id)
  unfolding link_items
  same_keys q = (refl, refl)

  plan_Payout :
      (amount : ℕ)
      → amount % 100 ≡ 0
      → m ≤ amount
      → Payout key_for m (planned_row key_for t a b msisdn ledger_id amount now)
  unfolding planned_row
  plan_Payout amount w l = record { key = refl; whole = w; least = l }

  Linked-row : (q : PayoutItem) → is_unlinked t a q ≡ true → Linked q (link_items q)
  unfolding is_unlinked link_items
  Linked-row q c = record {
    id = refl;
    sale_id = refl;
    commission = refl;
    link = inl (no_link q.payout_ledger_id (ground arith));
  }
    where
      no_link : (o : Option String) → is_none o ≡ true → o ≡ none
      no_link none h = refl
      no_link (some x) h = absurd (cc h)

  inserted :
      (amount : ℕ) (d : Db)
      → amount % 100 ≡ 0
      → m ≤ amount
      → ledger_ok (planned_row key_for t a b msisdn ledger_id amount now ∷ d.payout_ledger) ≡ true
      → (e : Db)
      → e.payout_ledger ≡ planned_row key_for t a b msisdn ledger_id amount now ∷ d.payout_ledger
      → e.payout_items ≡ update_where (is_unlinked t a) link_items d.payout_items
      → C d e
  inserted amount d w l fits e h k = record {
    rows = λ p n. subst (In p) (sym h) (inr n);
    planned = λ p n. split p (subst (In p) h n);
    ok = λ v. record {
      ledger = ap ledger_ok h ∙ fits;
      items =
          ap items_ok k
          ∙ items_ok-update link_items same_keys (is_unlinked t a) d.payout_items
          ∙ v.items;
    };
    items = subst (Rowwise Linked d.payout_items) (sym k) (
        Rowwise-update Linked (is_unlinked t a) link_items Linked-refl d.payout_items
          (λ q n c. Linked-row q c));
  }
    where
      row : LedgerRow
      row = planned_row key_for t a b msisdn ledger_id amount now

      split :
          (p : LedgerRow) → In p (row ∷ d.payout_ledger) → In p d.payout_ledger ⊎ Payout key_for m p
      split p (inl f) = inr (subst (Payout key_for m) (sym f) (plan_Payout amount w l))
      split p (inr n) = inl n

  plan_due :
      (available : ℕ)
      → ltb 0 (plan_of available m).payable_minor ≡ true
      → ((plan_of available m).payable_minor % 100 ≡ 0) × (m ≤ (plan_of available m).payable_minor)
  unfolding plan_of
  plan_due available h = ground arith

  follow_plan-Closed :
      (plan : ClosePlan) (d : Db) {closed : Bool} {e : Db}
      → (ltb 0 plan.payable_minor ≡ true
          → (plan.payable_minor % 100 ≡ 0) × (m ≤ plan.payable_minor))
      → follow_plan key_for t a b msisdn ledger_id now plan d ≡ some (closed, e)
      → C d e
  unfolding follow_plan insert_ledger link_items
  follow_plan-Closed plan d {closed} {e} w h = elim (Bool-cases (ltb 0 plan.payable_minor)) [
    | inr no_due ↦ let k = rw no_due at h in unchanged d e (cc k) (cc k)
    | inl due ↦
        elim (Bool-cases (
          ledger_ok (
            planned_row key_for t a b msisdn ledger_id plan.payable_minor now ∷ d.payout_ledger))) [
              | inr refused ↦ absurd (cc (rw (due, refused) at h))
              | inl fits ↦
                  let k = rw (due, fits) at h in
                  inserted plan.payable_minor d (w due).0 (w due).1 fits e (cc k) (cc k)
            ]
  ]

  pub close_attendant-Closed :
      (d : Db) {closed : Bool} {e : Db}
      → close_attendant key_for t m a b msisdn ledger_id now d ≡ some (closed, e)
      → Closed key_for m d e
  unfolding close_attendant fold_carry_forward
  close_attendant-Closed d {closed} {e} h =
      elim (Bool-cases (any_where (is_live_on t a b) d.payout_ledger)) [
        | inl live ↦ let k = rw live at h in unchanged d e (cc k) (cc k)
        | inr free ↦
            let k = rw free at h in
            follow_plan-Closed (plan_of (today_total t a b d + carry_before t a d) m) d
              (plan_due (today_total t a b d + carry_before t a d)) k
      ]
