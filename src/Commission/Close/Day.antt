-- ===== src/Commission/Close/Day.antt =====
-- `close_business_day` of services/commission/ledger/close.py: the sales that POS reports, page by page,
-- then the attendants that they name, then the run's own row.
use devops_g_9_tillflow.Base.{
  ℕ, ◌+◌, String, Bool, true, false, none, some, List, [], ◌∷◌, if◌then◌else◌,
}
use devops_g_9_tillflow.Commission.Tables.{Db}
use devops_g_9_tillflow.Commission.Close.{Arrival, record_sale, touch, close_attendant}

-- What the iterator of `paid_sales` yields, and whether it then raises `POSError`.
pub record Feed : Type 0 where
  pub arrivals : List Arrival
  pub pos_error : Bool

pub record CloseReport : Type 0 where
  pub tenant_id : String
  pub business_date : String
  pub sales_seen : ℕ
  pub attendants_closed : ℕ
  pub aborted : Bool

abbrev pub report_of :
    (tenant_id business_date : String) (sales_seen attendants_closed : ℕ) (aborted : Bool)
    → CloseReport
report_of tenant_id business_date sales_seen attendants_closed aborted = record {
  tenant_id = tenant_id;
  business_date = business_date;
  sales_seen = sales_seen;
  attendants_closed = attendants_closed;
  aborted = aborted;
}

-- The tables as they are when a loop ends or an exception leaves it.
pub data Ran (A : Type 0) : Type 0 where
  finished : A → Db → Ran A
  raised : Db → Ran A

pub record Seen : Type 0 where
  pub sales_seen : ℕ
  pub touched : List (String × String)

abbrev pub nothing_seen : Seen
nothing_seen = record { sales_seen = 0; touched = [] }

unfoldable pub record_sales :
    (tenant_id business_date : String) → List Arrival → Seen → Db → Ran Seen
record_sales tenant_id business_date [] s d = finished s d
record_sales tenant_id business_date (a ∷ r) s d = elim (record_sale tenant_id business_date a d) [
  | none ↦ raised d
  | some e ↦
      record_sales tenant_id business_date r
        (record {
          sales_seen = s.sales_seen + 1;
          touched = touch a.sale.attendant_id a.sale.attendant_msisdn s.touched;
        })
        e
]

-- The uuid and the clock of each attendant's transaction.
pub record Draws : Type 0 where
  pub ledger_id : (attendant_id : String) → String
  pub now : (attendant_id : String) → ℕ
  pub ran_at : ℕ

unfoldable pub log_run :
    (tenant_id business_date : String) (sales_seen attendants_closed ran_at : ℕ) → Db → Db
log_run tenant_id business_date sales_seen attendants_closed ran_at d = record d {
  close_runs =
      record {
        tenant_id = tenant_id;
        business_date = business_date;
        sales_seen = sales_seen;
        attendants_closed = attendants_closed;
        ran_at = ran_at;
      }
      ∷ d.close_runs;
}

module _ (idempotency_key_for : (tenant_id attendant_id payout_period : String) → String)
    (payout_min_minor : ℕ) (tenant_id business_date : String) (draws : Draws) where
  unfoldable pub close_attendants : List (String × String) → ℕ → Db → Ran ℕ
  close_attendants [] closed d = finished closed d
  close_attendants ((attendant_id, msisdn) ∷ r) closed d =
      elim (close_attendant idempotency_key_for tenant_id payout_min_minor attendant_id
        business_date msisdn (draws.ledger_id attendant_id) (draws.now attendant_id) d) [
          | none ↦ raised d
          | some (b, e) ↦ close_attendants r (if b then closed + 1 else closed) e
        ]

  unfoldable pub close_seen : Seen → Db → Ran CloseReport
  close_seen s d = elim (close_attendants s.touched 0 d) [
    | raised e ↦ raised e
    | finished closed e ↦
        finished (report_of tenant_id business_date s.sales_seen closed false)
          (log_run tenant_id business_date s.sales_seen closed draws.ran_at e)
  ]

  unfoldable pub close_business_day : Feed → Db → Ran CloseReport
  close_business_day feed d =
      elim (record_sales tenant_id business_date feed.arrivals nothing_seen d) [
        | raised e ↦ raised e
        | finished s e ↦
            if feed.pos_error
            then finished (report_of tenant_id business_date s.sales_seen 0 true) e
            else close_seen s e
      ]
