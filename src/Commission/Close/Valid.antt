-- ===== src/Commission/Close/Valid.antt =====
-- The constraints hold after each transaction of the close, and the check that `_close_attendant` makes
-- is the index that its INSERT could break.
use devops_g_9_tillflow.Base.{
  ℕ, ◌*◌, ◌/◌, ◌<◌, subst, String, ◌≡◌, refl, ◌∙◌, Bool, true, false, ◌||◌, ltb, ◌==◌, Option, some,
  List, [], ◌∷◌, arith, Bool-cases, if◌then◌else◌, inl, inr,
}
use devops_g_9_tillflow.Base.Table.{any_where, update_where}
use devops_g_9_tillflow.Base.Integers.{ℤ, pos, negsuc}
use devops_g_9_tillflow.Commission.Calc.{ClosePlan, sale_commission_minor, fold_carry_forward}
use devops_g_9_tillflow.Commission.Tables.{
  LedgerRow, PayoutItem, Db, is_failed, is_live_on, ledger_clash, ledger_ok, item_clash, items_ok,
}
use devops_g_9_tillflow.Commission.Close.{
  Arrival, insert_item, item_of, record_amounts, record_sale, insert_ledger, is_unlinked,
  planned_row, follow_plan, close_attendant,
}

pub record Valid (d : Db) : Type 0 where
  pub ledger : ledger_ok d.payout_ledger ≡ true
  pub items : items_ok d.payout_items ≡ true

insert_item-Valid : (p : PayoutItem) (d : Db) → Valid d → Valid (insert_item p d)
unfolding insert_item items_ok
insert_item-Valid p d v = elim (Bool-cases (any_where (item_clash p) d.payout_items)) [
  | inl e ↦ rw e v
  | inr e ↦ rw e (record { ledger = v.ledger; items = rw e v.items })
]

record_amounts-Valid :
    (t b : String) (a : Arrival) (total rate : ℤ) (d : Db) {e : Db}
    → Valid d
    → record_amounts t b a total rate d ≡ some e
    → Valid e
unfolding record_amounts sale_commission_minor
record_amounts-Valid t b a (pos total) (pos rate) d {e} v h =
    let p = item_of t b a total rate (total * rate / 10000) in
    let same : insert_item p d ≡ e = cc h in subst Valid same (insert_item-Valid p d v)
record_amounts-Valid t b a (pos total) (negsuc rate) d v h = absurd (cc h)
record_amounts-Valid t b a (negsuc total) rate d v h = absurd (cc h)

any_where-or :
    {R : Type 0} (f g : R → Bool) (xs : List R)
    → any_where f xs ≡ false
    → any_where g xs ≡ false
    → any_where (λ q. f q || g q) xs ≡ false
unfolding any_where
any_where-or f g [] h k = refl
any_where-or f g (x ∷ xs) h k = ground (arith, any_where-or f g xs)

module _ (f : PayoutItem → PayoutItem)
    (keeps : (q : PayoutItem) → ((f q).id ≡ q.id) × ((f q).sale_id ≡ q.sale_id)) where
  image_clash :
      (c : PayoutItem → Bool) (p q : PayoutItem)
      → item_clash (if c p then f p else p) (if c q then f q else q) ≡ item_clash p q
  unfolding item_clash
  image_clash c p q = ground (arith, keeps p, keeps q)

  any_where-image :
      (c : PayoutItem → Bool) (p : PayoutItem) (xs : List PayoutItem)
      → any_where (item_clash (if c p then f p else p)) (update_where c f xs)
        ≡ any_where (item_clash p) xs
  unfolding any_where update_where
  any_where-image c p [] = refl
  any_where-image c p (x ∷ xs) = rw (image_clash c p x, any_where-image c p xs)

  pub items_ok-update :
      (c : PayoutItem → Bool) (xs : List PayoutItem) → items_ok (update_where c f xs) ≡ items_ok xs
  unfolding items_ok update_where
  items_ok-update c [] = refl
  items_ok-update c (x ∷ xs) = rw (any_where-image c x xs, items_ok-update c xs)

-- Recording a sale keeps the constraints.
pub record_sale-Valid :
    (t b : String) (a : Arrival) (d : Db) {e : Db}
    → Valid d
    → record_sale t b a d ≡ some e
    → Valid e
unfolding record_sale
record_sale-Valid t b a d v h =
    record_amounts-Valid t b a a.sale.total_minor a.sale.commission_rate_bps d v h

-- The id is not taken.
abbrev pub IsFresh : String → Db → Type 0
IsFresh ledger_id d = any_where (λ (q : LedgerRow). ledger_id == q.id) d.payout_ledger ≡ false

module _ (key_for : String → String → String → String) (t a b msisdn ledger_id : String)
    (now : ℕ) where
  abbrev row : ℕ → LedgerRow
  row amount = planned_row key_for t a b msisdn ledger_id amount now

  row_fits :
      (amount : ℕ) (d : Db)
      → Valid d
      → IsFresh ledger_id d
      → any_where (is_live_on t a b) d.payout_ledger ≡ false
      → 0 < amount
      → ledger_ok (row amount ∷ d.payout_ledger) ≡ true
  unfolding ledger_ok ledger_clash planned_row is_failed
  row_fits amount d v f l pos_amount = ground (
    arith,
    v.ledger,
    any_where-or (λ (q : LedgerRow). ledger_id == q.id) (is_live_on t a b) d.payout_ledger f l,
  )

  link : PayoutItem → PayoutItem
  link i = record i { payout_ledger_id = some ledger_id }

  linked_ok :
      (xs : List PayoutItem)
      → items_ok xs ≡ true
      → items_ok
          (update_where (is_unlinked t a) (λ i. record i { payout_ledger_id = some ledger_id }) xs)
        ≡ true
  unfolding link
  linked_ok xs h = items_ok-update link (λ q. (refl, refl)) (is_unlinked t a) xs ∙ h

  abbrev Commits : Option (Bool × Db) → Type 0
  Commits r = (b : Bool) × (e : Db) × (r ≡ some (b, e)) × Valid e

  follow_plan-Commits :
      (plan : ClosePlan) (d : Db)
      → Valid d
      → IsFresh ledger_id d
      → any_where (is_live_on t a b) d.payout_ledger ≡ false
      → Commits (follow_plan key_for t a b msisdn ledger_id now plan d)
  unfolding follow_plan insert_ledger
  follow_plan-Commits plan d v f l = elim (Bool-cases (ltb 0 plan.payable_minor)) [
    | inr none_due ↦ rw none_due (false, _, refl, record { ledger = v.ledger; items = v.items })
    | inl due ↦
        let fits = row_fits plan.payable_minor d v f l (ground arith) in
        rw (due, fits)
          (true, _, refl, record { ledger = fits; items = linked_ok d.payout_items v.items })
  ]

  -- From tables that meet their constraints and with an id that is not taken, the transaction of
  -- close_attendant is never refused, and the constraints hold after it.
  pub close_attendant_commits :
      (payout_min_minor : ℕ) (d : Db)
      → Valid d
      → IsFresh ledger_id d
      → (closed : Bool) × (e : Db) × (close_attendant key_for t payout_min_minor a b msisdn
            ledger_id now d
          ≡ some (closed, e))
        × Valid e
  unfolding close_attendant fold_carry_forward
  close_attendant_commits payout_min_minor d v f =
      elim (Bool-cases (any_where (is_live_on t a b) d.payout_ledger)) [
        | inl live ↦ rw live (false, d, refl, v)
        | inr open_day ↦ rw open_day (follow_plan-Commits _ d v f open_day)
      ]
