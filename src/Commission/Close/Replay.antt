-- ===== src/Commission/Close/Replay.antt =====
-- Sales that POS reports again.
use devops_g_9_tillflow.Base.{ℕ, String, ◌≡◌, Bool, true, ◌==◌, List, [], ◌∷◌}
use devops_g_9_tillflow.Base.Table.{any_where}
use devops_g_9_tillflow.Base.Integers.{pos}
use devops_g_9_tillflow.Commission.Tables.{PayoutItem, Db}
use devops_g_9_tillflow.Commission.Close.{Arrival}

abbrev pub has_item : String → Db → Bool
has_item sale_id d = any_where (λ (q : PayoutItem). sale_id == q.sale_id) d.payout_items

-- The sale has an item already, and no amount of it is negative.
pub record IsKnown (d : Db) (a : Arrival) : Type 0 where
  pub total : ℕ
  pub rate : ℕ
  pub total_minor : a.sale.total_minor ≡ pos total
  pub commission_rate_bps : a.sale.commission_rate_bps ≡ pos rate
  pub known : has_item a.sale.sale_id d ≡ true

abbrev pub AllKnown : Db → List Arrival → Type 0
AllKnown d [] = Unit
AllKnown d (a ∷ r) = IsKnown d a × AllKnown d r
