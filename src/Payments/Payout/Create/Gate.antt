-- ===== src/Payments/Payout/Create/Gate.antt =====
-- When `create_payout` calls the provider.
use devops_g_9_tillflow.Base.{
  ap, sym, ◌∙◌, ℕ, ◌%◌, ◌≤◌, String, ◌≡◌, refl, inl, inr, true, none, List, [], ◌∷◌, arith,
  Bool-cases, Option-cases,
}
use devops_g_9_tillflow.Base.Table.{In}
use devops_g_9_tillflow.Payments.Tables.{Db, disbursement_create}
use devops_g_9_tillflow.Payments.Tx.{
  pure, Tx, Result, ok, raised, Result-cases, integrity_error, illegal_transition, stale_state,
  none_row, key_error,
}
use devops_g_9_tillflow.Payments.Store.{get_flag, idem_lookup}
use devops_g_9_tillflow.Payments.Service.{Settings, DisburseAnswer}
use devops_g_9_tillflow.Payments.Collect.Create.{Begun, answered, begun}
use devops_g_9_tillflow.Payments.Payout.Parse.{PayoutRequest, limit_error}
use devops_g_9_tillflow.Payments.Payout.Outcomes.{flag_payouts_enabled}
use devops_g_9_tillflow.Payments.Payout.Create.{
  begin_tx, idem_reply, finish_create, PayoutHashes, DisbursementRequest, finish, attempt_payout,
  check_payout, create_parsed,
}

-- `_limit_error` lets exactly the whole shilling amounts between the minimum and both ceilings pass.
pub limit_error-none :
    (cfg : Settings) (n : ℕ)
    → limit_error cfg n ≡ none
    → (n % 100 ≡ 0) × (1000 ≤ n) × (n ≤ cfg.payout_max_minor) × (n ≤ 25000000)
unfolding limit_error
limit_error-none cfg n h = ground arith

-- All calls are one call, for the requested amount.
abbrev Only : PayoutRequest → DisbursementRequest → List DisbursementRequest → Type 0
Only req c calls = (calls ≡ c ∷ []) × (c.amount_minor ≡ req.amount_minor)

single :
    (req : PayoutRequest) (x : DisbursementRequest) {c : DisbursementRequest}
    → x.amount_minor ≡ req.amount_minor
    → In c (x ∷ [])
    → Only req c (x ∷ [])
single req x a (inl e) =
    (ap (λ y. y ∷ []) (sym e), ap (λ (y : DisbursementRequest). y.amount_minor) e ∙ a)
single req x a (inr m) = absurd m

module _ (hashes : PayoutHashes) (cfg : Settings) (now later : ℕ) (id key : String)
    (req : PayoutRequest) (answer : DisburseAnswer) (d : Db) (c : DisbursementRequest) where
  finish_calls :
      (d' : Db)
      → In c (finish hashes later id key req answer d').1
      → Only req c (finish hashes later id key req answer d').1
  unfolding finish
  finish_calls d' m = elim (Result-cases (finish_create later id req.tenant_id key answer d')) [
    | inl (body, e, q) ↦ rw (q, finish, Only) (single req _ refl (rw (q, finish) at m))
    | inr (x, e, q) ↦ rw (q, finish, Only) (single req _ refl (rw (q, finish) at m))
  ]

  abbrev begin_here : Tx Begun
  begin_here =
      let payout_key = hashes.payout_key req.tenant_id req.attendant_id req.payout_period in
      begin_tx cfg now id (hashes.originator_id id) payout_key key
        (hashes.fingerprint req payout_key) req

  -- One clause for each way the first transaction may end.
  attempt_calls :
      (r : Result Begun)
      → begin_here d ≡ r
      → In c (attempt_payout hashes cfg now later id key req answer d).1
      → Only req c (attempt_payout hashes cfg now later id key req answer d).1
  unfolding attempt_payout
  attempt_calls (ok (answered r) e) q m = absurd (rw (q, attempt_payout) at m)
  attempt_calls (ok begun e) q m =
      rw (q, attempt_payout, Only) (finish_calls e (rw (q, attempt_payout) at m))
  attempt_calls (raised integrity_error e) q m = absurd (rw (q, attempt_payout) at m)
  attempt_calls (raised illegal_transition e) q m = absurd (rw (q, attempt_payout) at m)
  attempt_calls (raised stale_state e) q m = absurd (rw (q, attempt_payout) at m)
  attempt_calls (raised none_row e) q m = absurd (rw (q, attempt_payout) at m)
  attempt_calls (raised key_error e) q m = absurd (rw (q, attempt_payout) at m)

  abbrev Allowed : List DisbursementRequest → Type 0
  Allowed calls =
      (get_flag flag_payouts_enabled cfg.payouts_enabled d ≡ true)
      × (limit_error cfg req.amount_minor ≡ none)
      × Only req c calls

  check_calls :
      In c (check_payout hashes cfg now later id key req answer d).1
      → Allowed (check_payout hashes cfg now later id key req answer d).1
  unfolding check_payout
  check_calls m = elim (Option-cases (limit_error cfg req.amount_minor)) [
    | inr (e, q) ↦ absurd (rw (q, check_payout) at m)
    | inl q ↦ elim (Bool-cases (get_flag flag_payouts_enabled cfg.payouts_enabled d)) [
      | inr off ↦ absurd (rw (q, off, check_payout) at m)
      | inl on ↦
          rw (q, on, check_payout, Allowed)
            (refl, refl, attempt_calls (begin_here d) refl (rw (q, on, check_payout) at m))
    ]
  ]

  earlier_reply : Result Begun
  earlier_reply =
      idem_reply (idem_lookup req.tenant_id disbursement_create key d)
        (hashes.fingerprint req
          (hashes.payout_key req.tenant_id req.attendant_id req.payout_period))
        (pure begun) d

  created_calls :
      (r : Result Begun)
      → earlier_reply ≡ r
      → In c (create_parsed hashes cfg now later id key req answer d).1
      → Allowed (create_parsed hashes cfg now later id key req answer d).1
  unfolding create_parsed earlier_reply
  created_calls (ok (answered r) e) q m = absurd (rw (q, create_parsed) at m)
  created_calls (ok begun e) q m =
      rw (q, create_parsed, Allowed) (check_calls (rw (q, create_parsed) at m))
  created_calls (raised x e) q m = absurd (rw (q, create_parsed) at m)

  -- `create_payout` calls the provider, for a request that parses, at most once, and only when payouts
  -- are enabled: by the kill switch in the tables, or by the configuration where the tables hold none.
  -- The call is for the requested amount, which is in whole shillings and within the minimum, the
  -- configured ceiling and the provider's ceiling.
  pub payout_needs_permission :
      In c (create_parsed hashes cfg now later id key req answer d).1
      → (get_flag flag_payouts_enabled cfg.payouts_enabled d ≡ true)
        × ((create_parsed hashes cfg now later id key req answer d).1 ≡ c ∷ [])
        × (c.amount_minor ≡ req.amount_minor)
        × (req.amount_minor % 100 ≡ 0)
        × (1000 ≤ req.amount_minor)
        × (req.amount_minor ≤ cfg.payout_max_minor)
        × (req.amount_minor ≤ 25000000)
  payout_needs_permission m =
      let k = created_calls earlier_reply refl m in
      let l = limit_error-none cfg req.amount_minor k.1 in (k.0, k.2.0, k.2.1, l.0, l.1, l.2, l.3)
