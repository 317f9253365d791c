-- ===== src/Commission/System/Daily.antt =====
-- One attendant whose days are each closed once, after their last sale, while everything else goes on as
-- it may.
use devops_g_9_tillflow.Base.{
  ℕ, ◌+◌, String, ◌≡◌, refl, sym, ◌∙◌, ap, subst, Bool, true, false, ◌&&◌, ◌||◌, ◌==◌, some, List,
  [], ◌∷◌, arith, eq_iff, eq_of_test,
}
use devops_g_9_tillflow.Base.Table.{any_where, sum_of, find?}
use devops_g_9_tillflow.Commission.Tables.{LedgerRow, Db, empty, is_live_on}
use devops_g_9_tillflow.Commission.Common.{Reply, classify_payout_response, terminal_payments_state}
use devops_g_9_tillflow.Commission.Close.{
  Arrival, record_sale, close_attendant, today_total, carry_before, is_of_day, item_of,
}
use devops_g_9_tillflow.Commission.Close.Day.{log_run}
use devops_g_9_tillflow.Commission.Close.Adds.{
  account, planned_total, open_day_adds, live_day_stays,
}
use devops_g_9_tillflow.Commission.Disburse.{handle_outcome, bump_backoff, reconcile_state}
use devops_g_9_tillflow.Commission.Disburse.Moves.{DbMoved, DbMoved-refl, bump_backoff-Moved}
use devops_g_9_tillflow.Commission.Disburse.Pass.{handle_outcome-Moved, reconcile_state-Moved}
use devops_g_9_tillflow.Commission.System.Safety.{Anyhow}
use devops_g_9_tillflow.Commission.System.Account.{
  other, Elsewhere, record_sale_earns, close_attendant_earns, close_attendant-other,
  DbMoved-account, DbMoved-earns,
}

abbrev pub listed : String → List String → Bool
listed b [] = false
listed b (x ∷ xs) = b == x || listed b xs

module _ (key_for : String → String → String → String) (m : ℕ) (held_label : String → String)
    (t a : String) where
  -- A sale of the attendant on a day that is closed.
  abbrev pub is_late : (t' b' : String) → Arrival → List String → Bool
  is_late t' b' s days = t' == t && s.sale.attendant_id == a && listed b' days

  -- The days of the attendant that were closed, and the tables.
  pub data Daily : List String → Db → Type 0 where
    start : Daily [] empty
    sale :
        {days : List String} {d e : Db}
        → Daily days d
        → (t' b' : String) (s : Arrival) → is_late t' b' s days ≡ false
        → record_sale t' b' s d ≡ some e
        → Daily days e
    close :
        {days : List String} {d e : Db}
        → Daily days d
        → (b msisdn ledger_id : String) (now : ℕ) (closed : Bool) → listed b days ≡ false
        → any_where (is_live_on t a b) d.payout_ledger ≡ false
        → close_attendant key_for t m a b msisdn ledger_id now d ≡ some (closed, e)
        → Daily (b ∷ days) e
    close_again :
        {days : List String} {d e : Db}
        → Daily days d
        → (b msisdn ledger_id : String) (now : ℕ) (closed : Bool)
        → any_where (is_live_on t a b) d.payout_ledger ≡ true
        → close_attendant key_for t m a b msisdn ledger_id now d ≡ some (closed, e)
        → Daily days e
    close_other :
        {days : List String} {d e : Db}
        → Daily days d
        → (t' a' b msisdn ledger_id : String) (now : ℕ) (closed : Bool) → other t a t' a' ≡ true
        → close_attendant key_for t' m a' b msisdn ledger_id now d ≡ some (closed, e)
        → Daily days e
    log :
        {days : List String} {d e : Db}
        → Daily days d
        → (t' b : String) (sales_seen attendants_closed ran_at : ℕ)
        → e ≡ log_run t' b sales_seen attendants_closed ran_at d
        → Daily days e
    answer :
        {days : List String} {d e : Db}
        → Daily days d
        → (now : ℕ) (row : LedgerRow) (status : ℕ) (r : Reply)
        → e ≡ handle_outcome held_label now row r (classify_payout_response status r) d
        → Daily days e
    check :
        {days : List String} {d e : Db}
        → Daily days d
        → (now : ℕ) (row : LedgerRow) (r : Reply)
        → e ≡ (reconcile_state now row r.failure_reason (terminal_payments_state r.state) d).1
        → Daily days e
    no_answer :
        {days : List String} {d e : Db}
        → Daily days d
        → (now : ℕ) (row : LedgerRow) → e ≡ bump_backoff now row d
        → Daily days e

  -- The commission of the attendant's items on these days.
  abbrev pub earned : List String → Db → ℕ
  earned days d = sum_of (λ b. today_total t a b d) days

  same_earned :
      (days : List String) (d e : Db)
      → ((b : String) → listed b days ≡ true → today_total t a b e ≡ today_total t a b d)
      → earned days e ≡ earned days d
  unfolding sum_of
  same_earned [] d e h = refl
  same_earned (x ∷ xs) d e h =
      omega
        (arith, h x (ground (arith, eq_iff x x)), same_earned xs d e (λ b l. h b (ground arith)))

  not_late :
      (t' b' : String) (s : Arrival) (days : List String) (b : String)
      → is_late t' b' s days ≡ false
      → listed b days ≡ true
      → Elsewhere t a t' b' s b
  unfolding is_of_day item_of
  not_late t' b' s days b h l =
      ground (arith, λ (e : (b' == b) ≡ true). ap (λ x. listed x days) (eq_of_test b' b e))

  moved :
      (days : List String) (d e : Db)
      → DbMoved Anyhow d e
      → account t a d ≡ earned days d
      → account t a e ≡ earned days e
  moved days d e h k =
      DbMoved-account t a Anyhow d e h
      ∙ k
      ∙ sym (same_earned days d e (λ b l. DbMoved-earns t a Anyhow d e b h))

  nothing_yet : account t a empty ≡ earned [] empty
  unfolding planned_total carry_before sum_of find?
  nothing_yet = refl

  earned_cons :
      (b : String) (days : List String) (d : Db)
      → earned (b ∷ days) d ≡ today_total t a b d + earned days d
  unfolding sum_of
  earned_cons b days d = refl

  log_run-Moved :
      (t' b : String) (seen closed ran_at : ℕ) (d : Db)
      → DbMoved Anyhow d (log_run t' b seen closed ran_at d)
  unfolding log_run
  log_run-Moved t' b seen closed ran_at d = record {
    rows = (DbMoved-refl Anyhow d).rows;
    items = refl;
    carry = refl;
  }

  -- If each of the attendant's days is closed once, and again only while it has a live payout row, and no
  -- sale of a day comes after its close, then whatever else happens in between (sales and closes of
  -- others, answers of Payments, reconciliations), the amounts of all the attendant's payout rows and the
  -- carry forward sum to the commission of the items on the days that were closed.
  pub each_day_counts_once :
      {days : List String} {d : Db} → Daily days d → account t a d ≡ earned days d
  each_day_counts_once start = nothing_yet
  each_day_counts_once (sale {days = days} {d = d} {e = e} h t' b' s late r) =
      let k = record_sale_earns t a t' b' s d r in
      k.0
      ∙ each_day_counts_once h
      ∙ sym (same_earned days d e (λ b l. k.1 b (not_late t' b' s days b late l)))
  each_day_counts_once (close {days = days} {d = d} {e = e} h b msisdn id now closed l free r) =
      let k = open_day_adds key_for t a b msisdn id now m d free r in
      let same =
        same_earned days d e
          (λ x y. close_attendant_earns t a key_for t a b msisdn id now m d x r) in
      let today = close_attendant_earns t a key_for t a b msisdn id now m d b r in
      omega (arith, k, today, same, each_day_counts_once h, earned_cons b days e)
  each_day_counts_once (close_again {days = days} {d = d} {e = e} h b msisdn id now closed live r) =
      subst (λ (x : Db). account t a x ≡ earned days x)
        (sym (live_day_stays key_for t a b msisdn id now m d live r)) (each_day_counts_once h)
  each_day_counts_once
        (close_other {days = days} {d = d} {e = e} h t' a' b msisdn id now closed o r) =
      close_attendant-other t a key_for t' a' b msisdn id now m d o r
      ∙ each_day_counts_once h
      ∙ sym (
          same_earned days d e
            (λ x l. close_attendant_earns t a key_for t' a' b msisdn id now m d x r))
  each_day_counts_once (log {days = days} {d = d} {e = e} h t' b n c w q) =
      moved days d e (subst (DbMoved Anyhow d) (sym q) (log_run-Moved t' b n c w d))
        (each_day_counts_once h)
  each_day_counts_once (answer {days = days} {d = d} {e = e} h now row status r q) =
      moved days d e
        (subst (DbMoved Anyhow d) (sym q)
          (handle_outcome-Moved Anyhow now row held_label status r d _ refl (λ t a. tt)))
        (each_day_counts_once h)
  each_day_counts_once (check {days = days} {d = d} {e = e} h now row r q) =
      moved days d e
        (subst (DbMoved Anyhow d) (sym q)
          (reconcile_state-Moved Anyhow now row r d _ refl (λ t a. tt)))
        (each_day_counts_once h)
  each_day_counts_once (no_answer {days = days} {d = d} {e = e} h now row q) =
      moved days d e (subst (DbMoved Anyhow d) (sym q) (bump_backoff-Moved Anyhow now row d))
        (each_day_counts_once h)
