-- ===== src/Payments/Payout/KillSwitch.antt =====
-- A failure for want of funds or configuration pauses payouts.
use devops_g_9_tillflow.Base.{
  ℕ, String, ◌≡◌, refl, ap, subst, ◌⊎◌, inl, inr, Bool, true, false, Option, some, List, [], ◌∷◌,
  Bool-cases, test_of_eq, ◌==◌, if◌then◌else◌,
}
use devops_g_9_tillflow.Base.Table.{In, find?, any_where, update_where}
use devops_g_9_tillflow.Payments.States.{DisbursementState}
use devops_g_9_tillflow.Payments.Tables.{FailureReason, DisbursementRow, EventType, FlagRow, Db}
use devops_g_9_tillflow.Payments.Tx.{Tx, ok, after, pure, >>=-ok, ◌>>◌}
use devops_g_9_tillflow.Payments.Store.{get_flag, set_flag, anomaly}
use devops_g_9_tillflow.Payments.Store.Disbursement.{set_failure_reason, set_raw_code}
use devops_g_9_tillflow.Payments.Service.{Settings, DisburseAnswer}
use devops_g_9_tillflow.Payments.Payout.Parse.{PayoutRequest}
use devops_g_9_tillflow.Payments.Payout.Outcomes.{
  fail, move, event, trip, is_tripping, flag_payouts_enabled,
}
use devops_g_9_tillflow.Payments.Payout.Create.{PayoutHashes, DisbursementRequest, create_parsed}
use devops_g_9_tillflow.Payments.Payout.Create.Gate.{payout_needs_permission}

abbrev named : String → FlagRow → Bool
named name f = f.name == name

abbrev put : Bool → ℕ → FlagRow → FlagRow
put value now f = record f { value = value; updated_at = now }

-- The flag as it is found after an UPDATE that touches it.
abbrev Holds : String → Bool → List FlagRow → Type 0
Holds name value rows = (r : FlagRow) × (find? (named name) rows ≡ some r) × (r.value ≡ value)

update_flag-Holds :
    (name : String) (value : Bool) (now : ℕ) (rows : List FlagRow)
    → any_where (named name) rows ≡ true
    → Holds name value (update_where (named name) (put value now) rows)
unfolding any_where find? update_where
update_flag-Holds name value now [] h = absurd (cc h)
update_flag-Holds name value now (x ∷ xs) h = elim (Bool-cases (x.name == name)) [
  | inl t ↦ (put value now x, rw t (rw t refl), refl)
  | inr f ↦ let k = update_flag-Holds name value now xs (rw f at h) in (k.0, rw f (rw f k.1), k.2)
]

get_flag-Holds :
    (name : String) (default value : Bool) (d : Db)
    → Holds name value d.flags
    → get_flag name default d ≡ value
unfolding get_flag
get_flag-Holds name default value d h = rw (h.1, get_flag) h.2

set_flag-Holds :
    (name : String) (value : Bool) (now : ℕ) (d : Db)
    → Holds name value (after (set_flag name value now d)).flags
unfolding set_flag find?
set_flag-Holds name value now d = elim (Bool-cases (any_where (named name) d.flags)) [
  | inl t ↦ rw (t, Holds) (update_flag-Holds name value now d.flags t)
  | inr f ↦
      rw (f, Holds)
        (
          record { name = name; value = value; updated_at = now },
          rw (test_of_eq name name refl) refl,
          refl,
        )
]

trip-Holds :
    (now : ℕ) (id : String) (d : Db)
    → Holds flag_payouts_enabled false (after (trip now id d)).flags
unfolding trip set_flag anomaly
trip-Holds now id d = set_flag-Holds flag_payouts_enabled false now d

fail-Holds :
    (now : ℕ) (row : DisbursementRow) (reason : FailureReason) (raw : Option String) (d : Db)
    {e : Db}
    → is_tripping reason ≡ true
    → fail now row reason raw d ≡ ok tt e
    → Holds flag_payouts_enabled false e.flags
unfolding fail
fail-Holds now row reason raw d {e} t h =
    let last : Tx (Unit {0}) =
      if is_tripping reason then trip now row.disbursement_id else pure tt in
    let r =
      >>=-ok
        (move now row DisbursementState.failed (set_failure_reason reason ∷ set_raw_code raw ∷ []))
        (λ _. event now row EventType.payout_failed >> last) d h in
    let r' = >>=-ok (event now row EventType.payout_failed) (λ _. last) r.1 r.3 in
    subst (λ x. Holds flag_payouts_enabled false (after x).flags) (rw t at r'.3)
      (trip-Holds now row.disbursement_id r'.1)

none_of :
    (calls : List DisbursementRequest) → ((c : DisbursementRequest) → ¬ In c calls) → calls ≡ []
none_of [] h = refl
none_of (c ∷ cs) h = absurd (h c (inl refl))

pausing :
    (reason : FailureReason)
    → (reason ≡ FailureReason.insufficient_funds) ⊎ (reason ≡ FailureReason.configuration)
    → is_tripping reason ≡ true
unfolding is_tripping
pausing reason (inl e) = ap is_tripping e
pausing reason (inr e) = ap is_tripping e

-- When a disbursement has failed for want of funds or for a configuration error, then from the tables
-- that the failure leaves, no request for a payout calls the provider, whatever the configured
-- default of the kill switch is.
pub tripping_failure_stops_payouts :
    (now : ℕ) (row : DisbursementRow) (reason : FailureReason) (raw : Option String) (d : Db)
    {e : Db}
    → (reason ≡ FailureReason.insufficient_funds) ⊎ (reason ≡ FailureReason.configuration)
    → fail now row reason raw d ≡ ok tt e
    → (hashes : PayoutHashes) (cfg : Settings) (now2 later2 : ℕ) (id key : String)
      (req : PayoutRequest) (answer : DisburseAnswer)
    → (create_parsed hashes cfg now2 later2 id key req answer e).1 ≡ []
tripping_failure_stops_payouts now row reason raw d {e} t h hashes cfg now2 later2 id key req
      answer =
    none_of (create_parsed hashes cfg now2 later2 id key req answer e).1 (λ c m. cc (
      (payout_needs_permission hashes cfg now2 later2 id key req answer e c m).0,
      get_flag-Holds flag_payouts_enabled cfg.payouts_enabled false e
          (fail-Holds now row reason raw d (pausing reason t) h),
    ))
