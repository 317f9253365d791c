-- ===== src/Commission/System/Account.antt =====
-- How each transaction changes what an attendant has earned on a day, and the attendant's account.
use devops_g_9_tillflow.Base.{
  ℕ, ◌*◌, ◌/◌, String, ◌≡◌, refl, sym, ◌∙◌, ap, inl, inr, Bool, true, false, ◌&&◌, ◌==◌, some, List,
  [], ◌∷◌, arith, Bool-cases, if◌then◌else◌, eq_iff,
}
use devops_g_9_tillflow.Base.Table.{any_where, find?, rows_where, update_where, sum_of}
use devops_g_9_tillflow.Base.Table.Update.{sum_of-Rowwise}
use devops_g_9_tillflow.Base.Integers.{ℤ, pos, negsuc}
use devops_g_9_tillflow.Commission.Calc.{ClosePlan, fold_carry_forward, sale_commission_minor}
use devops_g_9_tillflow.Commission.Tables.{
  LedgerState, PayoutItem, CarryRow, Db, is_live_on, is_carry_of, item_clash,
}
use devops_g_9_tillflow.Commission.Close.{
  Arrival, insert_item, item_of, record_amounts, record_sale, insert_ledger, carry_of, set_carry,
  is_of_day, is_unlinked, today_total, carry_before, planned_row, follow_plan, close_attendant,
}
use devops_g_9_tillflow.Commission.Close.Adds.{account, planned_total}
use devops_g_9_tillflow.Commission.Disburse.Moves.{Moved, DbMoved}

-- The attendant `a` of tenant `t`, against another one.
abbrev pub other : (t a t' a' : String) → Bool
other t a t' a' = if t' == t then (if a' == a then false else true) else true

module _ (t a : String) where
  module _ (t' b' : String) (s : Arrival) where
    -- The sale is no sale of the attendant on day `b`.
    abbrev pub Elsewhere : String → Type 0
    Elsewhere b = is_of_day t a b (item_of t' b' s 0 0 0) ≡ false

    inserted_earns :
        (total rate c : ℕ) (b : String) (d : Db)
        → Elsewhere b
        → today_total t a b (insert_item (item_of t' b' s total rate c) d) ≡ today_total t a b d
    unfolding today_total insert_item rows_where sum_of is_of_day item_of
    inserted_earns total rate c b d h =
        elim (Bool-cases (any_where (item_clash (item_of t' b' s total rate c)) d.payout_items)) [
          | inl e ↦ rw e refl
          | inr e ↦ rw (e, h) refl
        ]

    inserted_account :
        (total rate c : ℕ) (d : Db)
        → account t a (insert_item (item_of t' b' s total rate c) d) ≡ account t a d
    unfolding insert_item planned_total carry_before
    inserted_account total rate c d =
        elim (Bool-cases (any_where (item_clash (item_of t' b' s total rate c)) d.payout_items)) [
          | inl e ↦ rw e refl
          | inr e ↦ rw e refl
        ]

  link_earns :
      (b t' a' l : String) (xs : List PayoutItem)
      → sum_of
          (λ i. i.commission_minor)
          (rows_where
            (is_of_day t a b)
            (update_where (is_unlinked t' a') (λ i. record i { payout_ledger_id = some l }) xs))
        ≡ sum_of (λ i. i.commission_minor) (rows_where (is_of_day t a b) xs)
  unfolding sum_of rows_where update_where is_of_day
  link_earns b t' a' l [] = refl
  link_earns b t' a' l (x ∷ xs) = ground (arith, link_earns b t' a' l xs)

  found_other :
      (t' a' : String) (n now : ℕ) (xs : List CarryRow)
      → other t a t' a' ≡ true
      → carry_of (
          find? (is_carry_of t a) (
            update_where
              (is_carry_of t' a')
              (λ r. record r { amount_minor = n; updated_at = now })
              xs))
        ≡ carry_of (find? (is_carry_of t a) xs)
  unfolding find? update_where is_carry_of
  found_other t' a' n now [] h = refl
  found_other t' a' n now (x ∷ xs) h = ground (
    arith,
    found_other t' a' n now xs h,
    eq_iff x.tenant_id t,
    eq_iff x.tenant_id t',
    eq_iff x.attendant_id a,
    eq_iff x.attendant_id a',
    eq_iff t' t,
    eq_iff a' a,
  )

  set_carry-other :
      (t' a' : String) (n now : ℕ) (xs : List CarryRow)
      → other t a t' a' ≡ true
      → carry_of (find? (is_carry_of t a) (set_carry t' a' n now xs))
        ≡ carry_of (find? (is_carry_of t a) xs)
  unfolding set_carry find? is_carry_of
  set_carry-other t' a' n now xs h = elim (Bool-cases (any_where (is_carry_of t' a') xs)) [
    | inl e ↦ rw e (found_other t' a' n now xs h)
    | inr e ↦ rw e (ground arith)
  ]

  -- The passes leave the account and the earnings alone.
  pub DbMoved-account :
      (Says : String → LedgerState → Type 0) (d e : Db)
      → DbMoved Says d e
      → account t a e ≡ account t a d
  unfolding planned_total carry_before
  DbMoved-account Says d e h =
      let rows =
        sum_of-Rowwise (Moved Says)
          (λ r. if r.tenant_id == t && r.attendant_id == a then r.amount_minor else 0)
          (λ p q m. ground (arith, m.amount, m.tenant_id, m.attendant_id)) d.payout_ledger
          e.payout_ledger h.rows in
      omega (arith, rows, ap (λ c. carry_of (find? (is_carry_of t a) c)) h.carry)

  pub DbMoved-earns :
      (Says : String → LedgerState → Type 0) (d e : Db) (b : String)
      → DbMoved Says d e
      → today_total t a b e ≡ today_total t a b d
  unfolding today_total
  DbMoved-earns Says d e b h =
      ap (λ x. sum_of (λ (i : PayoutItem). i.commission_minor) (rows_where (is_of_day t a b) x))
        h.items

  record_amounts_earns :
      (t' b' : String) (s : Arrival) (total rate : ℤ) (d : Db) {e : Db}
      → record_amounts t' b' s total rate d ≡ some e
      → (account t a e ≡ account t a d)
        × ((b : String) → Elsewhere t' b' s b → today_total t a b e ≡ today_total t a b d)
  unfolding record_amounts sale_commission_minor
  record_amounts_earns t' b' s (pos total) (pos rate) d {e} h =
      let c = total * rate / 10000 in
      let same : insert_item (item_of t' b' s total rate c) d ≡ e = cc h in
      (
        ap (account t a) (sym same) ∙ inserted_account t' b' s total rate c d,
        λ b x. ap (today_total t a b) (sym same) ∙ inserted_earns t' b' s total rate c b d x,
      )
  record_amounts_earns t' b' s (pos total) (negsuc rate) d h = absurd (cc h)
  record_amounts_earns t' b' s (negsuc total) rate d h = absurd (cc h)

  -- A sale leaves the account alone, and what was earned on any day that is not its own.
  pub record_sale_earns :
      (t' b' : String) (s : Arrival) (d : Db) {e : Db}
      → record_sale t' b' s d ≡ some e
      → (account t a e ≡ account t a d)
        × ((b : String) → Elsewhere t' b' s b → today_total t a b e ≡ today_total t a b d)
  unfolding record_sale
  record_sale_earns t' b' s d h =
      record_amounts_earns t' b' s s.sale.total_minor s.sale.commission_rate_bps d h

  module _ (key_for : String → String → String → String) (t' a' b' msisdn ledger_id : String)
      (now m : ℕ) where
    follow_plan_earns :
        (plan : ClosePlan) (d : Db) {closed : Bool} {e : Db} (b : String)
        → follow_plan key_for t' a' b' msisdn ledger_id now plan d ≡ some (closed, e)
        → today_total t a b e ≡ today_total t a b d
    unfolding follow_plan insert_ledger today_total
    follow_plan_earns plan d {closed} {e} b h =
        ground (arith, link_earns b t' a' ledger_id d.payout_items)

    follow_plan-other :
        (plan : ClosePlan) (d : Db) {closed : Bool} {e : Db}
        → other t a t' a' ≡ true
        → follow_plan key_for t' a' b' msisdn ledger_id now plan d ≡ some (closed, e)
        → account t a e ≡ account t a d
    unfolding follow_plan insert_ledger planned_total carry_before planned_row sum_of
    follow_plan-other plan d {closed} {e} o h =
        ground (arith, set_carry-other t' a' plan.new_carry_forward_minor now d.carry_forward o)

    -- A close counts what was earned and does not change it.
    pub close_attendant_earns :
        (d : Db) {closed : Bool} {e : Db} (b : String)
        → close_attendant key_for t' m a' b' msisdn ledger_id now d ≡ some (closed, e)
        → today_total t a b e ≡ today_total t a b d
    unfolding close_attendant fold_carry_forward
    close_attendant_earns d {closed} {e} b h =
        elim (Bool-cases (any_where (is_live_on t' a' b') d.payout_ledger)) [
          | inl live ↦ let k = rw live at h in ap (today_total t a b) (cc k)
          | inr free ↦ let k = rw free at h in follow_plan_earns _ d b k
        ]

    -- The close of another attendant leaves the account alone.
    pub close_attendant-other :
        (d : Db) {closed : Bool} {e : Db}
        → other t a t' a' ≡ true
        → close_attendant key_for t' m a' b' msisdn ledger_id now d ≡ some (closed, e)
        → account t a e ≡ account t a d
    unfolding close_attendant fold_carry_forward
    close_attendant-other d {closed} {e} o h =
        elim (Bool-cases (any_where (is_live_on t' a' b') d.payout_ledger)) [
          | inl live ↦ let k = rw live at h in ap (account t a) (cc k)
          | inr free ↦ let k = rw free at h in follow_plan-other _ d o k
        ]
