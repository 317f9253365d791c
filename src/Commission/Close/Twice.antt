-- ===== src/Commission/Close/Twice.antt =====
-- A day that is closed again before it has a payout row.
use devops_g_9_tillflow.Base.{
  ℕ, ◌+◌, ◌*◌, ◌/◌, ◌<◌, String, ◌≡◌, Bool, true, false, ltb, some, arith,
}
use devops_g_9_tillflow.Base.Table.{any_where}
use devops_g_9_tillflow.Commission.Calc.{fold_carry_forward, plan_of, shilling_minor}
use devops_g_9_tillflow.Commission.Tables.{Db, is_live_on}
use devops_g_9_tillflow.Commission.Close.{today_total, carry_before, follow_plan, close_attendant}
use devops_g_9_tillflow.Commission.Close.Adds.{account, open_day_adds}

module _ (key_for : String → String → String → String) (t a b msisdn : String) where
  -- A close with too little to pay leaves everything but the carry forward.
  below_minimum :
      (m : ℕ) (ledger_id : String) (now : ℕ) (d : Db) {closed : Bool} {e : Db}
      → any_where (is_live_on t a b) d.payout_ledger ≡ false
      → ltb (((today_total t a b d + carry_before t a d) / shilling_minor) * shilling_minor) m
        ≡ true
      → close_attendant key_for t m a b msisdn ledger_id now d ≡ some (closed, e)
      → (e.payout_ledger ≡ d.payout_ledger) × (e.payout_items ≡ d.payout_items)
  unfolding close_attendant fold_carry_forward follow_plan plan_of
  below_minimum m ledger_id now d {closed} {e} free low h =
      let k = rw (free, low) at h in (cc k, cc k)

  same_day :
      (d e : Db) → e.payout_items ≡ d.payout_items → today_total t a b e ≡ today_total t a b d
  unfolding today_total
  same_day d e h = rw h

  -- If a day has no live payout row, and its commission and the carry forward are together below the
  -- minimum, then closing it, and closing it once more with no sale in between, adds the commission of
  -- the day's items to the attendant's payout rows and carry forward twice.
  pub reclosed_day_counts_twice :
      (m : ℕ) (id1 id2 : String) (now1 now2 : ℕ) (d : Db) {b1 b2 : Bool} {e f : Db}
      → any_where (is_live_on t a b) d.payout_ledger ≡ false
      → today_total t a b d + carry_before t a d < m
      → close_attendant key_for t m a b msisdn id1 now1 d ≡ some (b1, e)
      → close_attendant key_for t m a b msisdn id2 now2 e ≡ some (b2, f)
      → account t a f ≡ account t a d + 2 * today_total t a b d
  reclosed_day_counts_twice m id1 id2 now1 now2 d {b1} {b2} {e} {f} free low h k =
      let same =
        below_minimum m id1 now1 d free
          (ground (arith, (today_total t a b d + carry_before t a d) / 100 * 100)) h in
      let still : any_where (is_live_on t a b) e.payout_ledger ≡ false = rw same.0 free in
      omega (
        arith,
        open_day_adds key_for t a b msisdn id1 now1 m d free h,
        open_day_adds key_for t a b msisdn id2 now2 m e still k,
        same_day d e same.1,
      )
