-- ===== src/Commission/Close/Returns.antt =====
-- A close of a day runs to its end.
use devops_g_9_tillflow.Base.{
  ℕ, ◌+◌, ◌*◌, ◌/◌, String, ◌≡◌, refl, sym, ◌∙◌, ap, inl, inr, true, false, ◌==◌, some, List, [],
  ◌∷◌, arith, Bool-cases,
}
use devops_g_9_tillflow.Base.Text.{length}
use devops_g_9_tillflow.Base.Table.{any_where}
use devops_g_9_tillflow.Base.Integers.{pos}
use devops_g_9_tillflow.Commission.Calc.{sale_commission_minor}
use devops_g_9_tillflow.Commission.Tables.{LedgerRow, Db}
use devops_g_9_tillflow.Commission.Close.{
  Arrival, insert_item, item_of, record_amounts, record_sale, touch,
}
use devops_g_9_tillflow.Commission.Close.Day.{
  Feed, CloseReport, report_of, finished, Seen, nothing_seen, record_sales, Draws, log_run,
  close_seen, close_business_day,
}
use devops_g_9_tillflow.Commission.Close.Valid.{Valid, IsFresh, record_sale-Valid}
use devops_g_9_tillflow.Commission.Close.Effect.{record_sale-Recorded}
use devops_g_9_tillflow.Commission.Close.Ready.{attendants_return}

-- No amount of the sale is negative.
pub record IsPlain (a : Arrival) : Type 0 where
  pub total : ℕ
  pub rate : ℕ
  pub total_minor : a.sale.total_minor ≡ pos total
  pub commission_rate_bps : a.sale.commission_rate_bps ≡ pos rate

abbrev pub AllPlain : List Arrival → Type 0
AllPlain [] = Unit
AllPlain (a ∷ r) = IsPlain a × AllPlain r

plain_records :
    (t b : String) (a : Arrival) (d : Db) → IsPlain a → (e : Db) × (record_sale t b a d ≡ some e)
unfolding record_sale record_amounts sale_commission_minor
plain_records t b a d p = (
  insert_item (item_of t b a p.total p.rate (p.total * p.rate / 10000)) d,
  ap (λ x. record_amounts t b a x a.sale.commission_rate_bps d) p.total_minor
      ∙ ap (λ x. record_amounts t b a (pos p.total) x d) p.commission_rate_bps,
)

sales_return :
    (t b : String) (arrivals : List Arrival) (s : Seen) (d : Db)
    → AllPlain arrivals
    → Valid d
    → (s' : Seen) × (e : Db) × (record_sales t b arrivals s d ≡ finished s' e)
      × (s'.sales_seen ≡ s.sales_seen + length arrivals)
      × Valid e
      × (e.payout_ledger ≡ d.payout_ledger)
unfolding record_sales
sales_return t b [] s d p v = (s, d, refl, omega arith, v, refl)
sales_return t b (a ∷ r) s d p v =
    let one = plain_records t b a d p.0 in
    let rest =
      sales_return t b r
        (record {
          sales_seen = s.sales_seen + 1;
          touched = touch a.sale.attendant_id a.sale.attendant_msisdn s.touched;
        })
        one.0 p.1 (record_sale-Valid t b a d v one.1) in
    (
      rest.0,
      rest.1,
      rw (one.1, record_sales) rest.2,
      omega (arith, rest.3),
      rest.4,
      rest.5 ∙ (record_sale-Recorded t b a d one.1).ledger,
    )

module _ (key_for : String → String → String → String) (m : ℕ) (t b : String) (draws : Draws)
    (differ : (x y : String) → draws.ledger_id x ≡ draws.ledger_id y → x ≡ y) where
  seen_returns :
      (s : Seen) (d : Db)
      → Valid d
      → ((x : String) → IsFresh (draws.ledger_id x) d)
      → (r : CloseReport) × (e : Db) × (close_seen key_for m t b draws s d ≡ finished r e)
        × (r.sales_seen ≡ s.sales_seen)
        × (r.aborted ≡ false)
        × Valid e
  unfolding close_seen log_run
  seen_returns s d v f =
      let k = attendants_return key_for m t b draws differ s.touched 0 d v (λ x. inl (f x)) in
      (
        report_of t b s.sales_seen k.0 false,
        log_run t b s.sales_seen k.0 draws.ran_at k.1,
        rw (k.2, close_seen) refl,
        refl,
        refl,
        record { ledger = k.3.ledger; items = k.3.items },
      )

  -- From tables that meet their constraints, with a uuid of its own for each attendant that no payout row
  -- has yet, and for sales without negative amounts, close_business_day returns a report and is never
  -- ended by a constraint: the report counts every sale that POS gave, it is aborted exactly when POS
  -- failed, and the constraints hold after it.
  pub close_business_day_returns :
      (feed : Feed) (d : Db)
      → Valid d
      → ((x : String) → IsFresh (draws.ledger_id x) d)
      → AllPlain feed.arrivals
      → (r : CloseReport) × (e : Db) × (close_business_day key_for m t b draws feed d
          ≡ finished r e)
        × (r.sales_seen ≡ length feed.arrivals)
        × (r.aborted ≡ feed.pos_error)
        × Valid e
  unfolding close_business_day
  close_business_day_returns feed d v f p =
      let k = sales_return t b feed.arrivals nothing_seen d p v in
      elim (Bool-cases feed.pos_error) [
        | inl lost ↦ (
          report_of t b k.0.sales_seen 0 true,
          k.1,
          rw (k.2, close_business_day, lost) refl,
          omega (arith, k.3),
          sym lost,
          k.4,
        )
        | inr all ↦
            let r =
              seen_returns k.0 k.1 k.4
                (λ x. ap (any_where (λ (q : LedgerRow). draws.ledger_id x == q.id)) k.5 ∙ f x) in
            (
              r.0,
              r.1,
              rw (k.2, close_business_day, all) r.2,
              omega (arith, k.3, r.3),
              r.4 ∙ sym all,
              r.5,
            )
      ]
