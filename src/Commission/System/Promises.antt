-- ===== src/Commission/System/Promises.antt =====
-- What the commission service promises.
use devops_g_9_tillflow.Base.{
  ℕ, ◌%◌, ◌≤◌, ◌<◌, String, ◌≡◌, refl, sym, ◌∙◌, ap, subst, ◌⊎◌, inl, inr, Bool, true, false, not,
  ◌&&◌, ◌==◌, none, some, List, ◌∷◌, arith, eq_iff, test_of_eq,
}
use devops_g_9_tillflow.Base.Table.{any_where, In}
use devops_g_9_tillflow.Base.Table.Unique.{unique_by}
use devops_g_9_tillflow.Commission.Tables.{
  LedgerState, LedgerRow, PayoutItem, Db, empty, is_failed, is_live_on, ledger_clash, ledger_ok,
  item_clash, items_ok,
}
use devops_g_9_tillflow.Commission.Close.Effect.{Linked}
use devops_g_9_tillflow.Commission.Disburse.Moves.{rank}
use devops_g_9_tillflow.Commission.System.{Reach}
use devops_g_9_tillflow.Commission.System.Safety.{Good, Good-empty, Reach-result}

-- Two live rows of one attendant and day.
same_live_day : LedgerRow → LedgerRow → Bool
same_live_day p q =
    not (is_failed p.state) && is_live_on p.tenant_id p.attendant_id p.business_date q

same_live_day_sym : (p q : LedgerRow) → same_live_day p q ≡ true → same_live_day q p ≡ true
unfolding same_live_day is_live_on
same_live_day_sym p q h = ground (
  arith,
  eq_iff q.tenant_id p.tenant_id,
  eq_iff p.tenant_id q.tenant_id,
  eq_iff q.attendant_id p.attendant_id,
  eq_iff p.attendant_id q.attendant_id,
  eq_iff q.business_date p.business_date,
  eq_iff p.business_date q.business_date,
)

same_live_day_clash : (p q : LedgerRow) → same_live_day p q ≡ true → ledger_clash p q ≡ true
unfolding same_live_day ledger_clash
same_live_day_clash p q h = ground arith

same_id : LedgerRow → LedgerRow → Bool
same_id p q = p.id == q.id

same_id_sym : (p q : LedgerRow) → same_id p q ≡ true → same_id q p ≡ true
unfolding same_id
same_id_sym p q h = ground (arith, eq_iff p.id q.id, eq_iff q.id p.id)

same_id_clash : (p q : LedgerRow) → same_id p q ≡ true → ledger_clash p q ≡ true
unfolding same_id ledger_clash
same_id_clash p q h = ground arith

same_id_of : (p q : LedgerRow) → p.id ≡ q.id → same_id p q ≡ true
unfolding same_id
same_id_of p q e = test_of_eq p.id q.id e

ledger_parts :
    (p : LedgerRow) (ps : List LedgerRow)
    → ledger_ok (p ∷ ps) ≡ true
    → (any_where (ledger_clash p) ps ≡ false) × (ledger_ok ps ≡ true)
unfolding ledger_ok
ledger_parts p ps h = ground arith

same_sale : PayoutItem → PayoutItem → Bool
same_sale i j = i.sale_id == j.sale_id

same_sale_sym : (i j : PayoutItem) → same_sale i j ≡ true → same_sale j i ≡ true
unfolding same_sale
same_sale_sym i j h = ground (arith, eq_iff i.sale_id j.sale_id, eq_iff j.sale_id i.sale_id)

same_sale_of : (i j : PayoutItem) → i.sale_id ≡ j.sale_id → same_sale i j ≡ true
unfolding same_sale
same_sale_of i j e = test_of_eq i.sale_id j.sale_id e

same_sale_clash : (i j : PayoutItem) → same_sale i j ≡ true → item_clash i j ≡ true
unfolding same_sale item_clash
same_sale_clash i j h = ground arith

items_parts :
    (p : PayoutItem) (ps : List PayoutItem)
    → items_ok (p ∷ ps) ≡ true
    → (any_where (item_clash p) ps ≡ false) × (items_ok ps ≡ true)
unfolding items_ok
items_parts p ps h = ground arith

-- What became of a row that is at its end.
ended :
    (s t : LedgerState)
    → (s ≡ LedgerState.succeeded) ⊎ (s ≡ LedgerState.failed)
    → (t ≡ s) ⊎ ((rank s < rank t) × Unit {0})
    → t ≡ s
ended s t h (inl e) = e
ended LedgerState.planned t (inl e) (inr l) = absurd (cc e)
ended LedgerState.planned t (inr e) (inr l) = absurd (cc e)
ended LedgerState.requested t (inl e) (inr l) = absurd (cc e)
ended LedgerState.requested t (inr e) (inr l) = absurd (cc e)
ended LedgerState.succeeded LedgerState.planned h (inr l) = absurd (omega arith)
ended LedgerState.succeeded LedgerState.requested h (inr l) = absurd (omega arith)
ended LedgerState.succeeded LedgerState.succeeded h (inr l) = refl
ended LedgerState.succeeded LedgerState.failed h (inr l) = absurd (omega arith)
ended LedgerState.failed LedgerState.planned h (inr l) = absurd (omega arith)
ended LedgerState.failed LedgerState.requested h (inr l) = absurd (omega arith)
ended LedgerState.failed LedgerState.succeeded h (inr l) = absurd (omega arith)
ended LedgerState.failed LedgerState.failed h (inr l) = refl

module _ (key_for : String → String → String → String) (m : ℕ) (held_label : String → String) where
  abbrev reached : {d : Db} → Reach key_for m held_label empty d → Good key_for m held_label d
  reached {d} r = (Reach-result key_for m held_label empty d (Good-empty key_for m held_label) r).0

  -- After any interleaving from the empty tables, two payout rows of one attendant of one tenant for one
  -- business day that have both not FAILED are the same row.
  pub one_live_payout_per_day :
      (d : Db) (p q : LedgerRow)
      → Reach key_for m held_label empty d
      → In p d.payout_ledger
      → In q d.payout_ledger
      → p.tenant_id ≡ q.tenant_id
      → p.attendant_id ≡ q.attendant_id
      → p.business_date ≡ q.business_date
      → is_failed p.state ≡ false
      → is_failed q.state ≡ false
      → p ≡ q
  unfolding same_live_day is_live_on
  one_live_payout_per_day d p q r mp mq t a b lp lq =
      unique_by ledger_clash ledger_ok ledger_parts same_live_day same_live_day_sym
        same_live_day_clash d.payout_ledger (reached r).valid.ledger mp mq
        (ground (
          arith,
          test_of_eq q.tenant_id p.tenant_id (sym t),
          test_of_eq q.attendant_id p.attendant_id (sym a),
          test_of_eq q.business_date p.business_date (sym b),
        ))

  abbrev items_of_sale :
      {d : Db}
      → Good key_for m held_label d
      → (i j : PayoutItem) → In i d.payout_items
      → In j d.payout_items
      → i.sale_id ≡ j.sale_id
      → i ≡ j
  items_of_sale {d} g i j mi mj e =
      unique_by item_clash items_ok items_parts same_sale same_sale_sym same_sale_clash
        d.payout_items g.valid.items mi mj (same_sale_of i j e)

  -- From any state of the tables that the service reaches, and however its transactions interleave from
  -- there, two rows of payout_items for a sale that has a row already are the same row, and it has the
  -- id and the commission of the row that was there, and its payout row, if it had one.
  pub one_item_per_sale :
      (d e : Db) (i j k : PayoutItem)
      → Reach key_for m held_label empty d
      → Reach key_for m held_label d e
      → In i d.payout_items
      → In j e.payout_items
      → In k e.payout_items
      → j.sale_id ≡ i.sale_id
      → k.sale_id ≡ i.sale_id
      → (j ≡ k)
        × (j.id ≡ i.id)
        × (j.commission_minor ≡ i.commission_minor)
        × ((i.payout_ledger_id ≡ none) ⊎ (j.payout_ledger_id ≡ i.payout_ledger_id))
  one_item_per_sale d e i j k r s mi mj mk ej ek =
      let g = Reach-result key_for m held_label d e (reached r) s in
      let x = g.1.items i mi in
      let same : x.0 ≡ j = items_of_sale g.0 x.0 j x.1 mj (x.2.sale_id ∙ sym ej) in
      let l : Linked i j = subst (Linked i) same x.2 in
      (items_of_sale g.0 j k mj mk (ej ∙ sym ek), l.id, l.commission, l.link)

  -- After any interleaving from the empty tables, every payout row is for whole shillings and for no less
  -- than the minimum, and its idempotency key is the one derived from its tenant, attendant and business
  -- day, so every request for it is made under the same key.
  pub payouts_are_whole :
      (d : Db) (p : LedgerRow)
      → Reach key_for m held_label empty d
      → In p d.payout_ledger
      → (p.amount_minor % 100 ≡ 0)
        × (m ≤ p.amount_minor)
        × (p.idempotency_key ≡ key_for p.tenant_id p.attendant_id p.business_date)
  payouts_are_whole d p r n = let g = (reached r).payouts p n in (g.whole, g.least, g.key)

  -- From any state of the tables that the service reaches, and however its transactions interleave from
  -- there, a payout row is never deleted and keeps its amount and its key, and its state stays or rises
  -- in the order of PLANNED (rank 0), REQUESTED (rank 1) and then SUCCEEDED or FAILED (rank 2 both),
  -- where it may pass over REQUESTED.
  pub payouts_move_forward :
      (d e : Db) (p : LedgerRow)
      → Reach key_for m held_label empty d
      → Reach key_for m held_label d e
      → In p d.payout_ledger
      → (q : LedgerRow) × In q e.payout_ledger
        × (q.id ≡ p.id)
        × (q.amount_minor ≡ p.amount_minor)
        × (q.idempotency_key ≡ p.idempotency_key)
        × ((q.state ≡ p.state) ⊎ (rank p.state < rank q.state))
  payouts_move_forward d e p r s n =
      let k = (Reach-result key_for m held_label d e (reached r) s).1 in
      let q = k.rows p n in (q.0, q.1, q.2.id, q.2.amount, q.2.key, onward q.2.goes)
    where
      onward :
          {s t : LedgerState}
          → (t ≡ s) ⊎ ((rank s < rank t) × Unit {0})
          → (t ≡ s) ⊎ (rank s < rank t)
      onward (inl e) = inl e
      onward (inr l) = inr l.0

  -- In any state that the service reaches, a payout row that has SUCCEEDED or FAILED has, however the
  -- transactions interleave from there, the same state ever after.
  pub terminal_payouts_stay :
      (d e : Db) (p q : LedgerRow)
      → Reach key_for m held_label empty d
      → Reach key_for m held_label d e
      → In p d.payout_ledger
      → In q e.payout_ledger
      → q.id ≡ p.id
      → (p.state ≡ LedgerState.succeeded) ⊎ (p.state ≡ LedgerState.failed)
      → q.state ≡ p.state
  terminal_payouts_stay d e p q r s mp mq same h =
      let k = Reach-result key_for m held_label d e (reached r) s in
      let x = k.1.rows p mp in
      let one : x.0 ≡ q =
        unique_by ledger_clash ledger_ok ledger_parts same_id same_id_sym same_id_clash
          e.payout_ledger k.0.valid.ledger x.1 mq (same_id_of x.0 q (x.2.id ∙ sym same)) in
      ap (λ (y : LedgerRow). y.state) (sym one) ∙ ended p.state x.0.state h x.2.goes

  -- From any state of the tables that the service reaches, and however its transactions interleave from
  -- there, an item that is linked to a payout row stays, with the same sale and commission, linked to
  -- that row.
  pub linked_items_stay :
      (d e : Db) (i : PayoutItem) (ledger_id : String)
      → Reach key_for m held_label empty d
      → Reach key_for m held_label d e
      → In i d.payout_items
      → i.payout_ledger_id ≡ some ledger_id
      → (j : PayoutItem) × In j e.payout_items
        × (j.sale_id ≡ i.sale_id)
        × (j.commission_minor ≡ i.commission_minor)
        × (j.payout_ledger_id ≡ some ledger_id)
  linked_items_stay d e i ledger_id r s n linked =
      let k = (Reach-result key_for m held_label d e (reached r) s).1 in
      let j = k.items i n in (j.0, j.1, j.2.sale_id, j.2.commission, link j.0 j.2.link)
    where
      link :
          (j : PayoutItem)
          → (i.payout_ledger_id ≡ none) ⊎ (j.payout_ledger_id ≡ i.payout_ledger_id)
          → j.payout_ledger_id ≡ some ledger_id
      link j (inl x) = absurd (cc (x, linked))
      link j (inr x) = x ∙ linked
