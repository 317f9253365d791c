-- ===== src/Payments/Tx.antt =====
-- A write transaction of services/payments/core/db.py as a state monad with exceptions. The state
-- stays with a raised exception, since Python code that catches it inside the transaction goes on
-- from there; `tx` rolls it back when the exception leaves the block. One writer at a time is what
-- BEGIN IMMEDIATE and the advisory lock give, so a block is one step.
pub mod Keeps
use devops_g_9_tillflow.Base.{◌≡◌, refl, ◌⊎◌, inl, inr, Option, none, some}
use devops_g_9_tillflow.Payments.Tables.{Db}

-- Exceptions: a violated constraint, `IllegalTransition`, `StaleStateError`, a subscript of
-- the `None` that `fetchone()` returns when there is no row, and a key that a dict lacks.
pub data Error : Type 0 where
  integrity_error illegal_transition stale_state none_row key_error : Error

pub data Result (A : Type 0) : Type 0 where
  ok : A → Db → Result A
  raised : Error → Db → Result A

abbrev pub Tx : Type 0 → Type 0
Tx A = Db → Result A

-- The database as the statements so far have left it.
abbrev pub after : {A : Type 0} → Result A → Db
after (ok a d) = d
after (raised e d) = d

module _ {A : Type 0} where
  abbrev pub pure : A → Tx A
  pure a d = ok a d

  abbrev pub raise : Error → Tx A
  raise e d = raised e d

  -- SELECT
  abbrev pub gets : (Db → A) → Tx A
  gets f d = ok (f d) d

  -- `row["column"]` of a `fetchone()`
  abbrev pub row_of : Option A → Tx A
  row_of none = raise none_row
  row_of (some a) = pure a

  abbrev pub catch_illegal : Tx A → Result A → Result A
  catch_illegal k (raised illegal_transition d) = k d
  catch_illegal k r = r

  -- try: m except IllegalTransition: k
  abbrev pub on_illegal : Tx A → Tx A → Tx A
  on_illegal m k d = catch_illegal k (m d)

infixl 5 ◌>>=◌ ◌>>◌
abbrev pub ◌>>=◌ : {A B : Type 0} → Tx A → (A → Tx B) → Tx B
◌>>=◌ m f d = elim (m d) [ ok a d' ↦ f a d' | raised e d' ↦ raised e d' ]

abbrev pub ◌>>◌ : {A B : Type 0} → Tx A → Tx B → Tx B
m >> k = m >>= λ _. k

abbrev pub modify : (Db → Db) → Tx (Unit {0})
modify f d = ok tt (f d)

-- `with store.tx() as conn: m`, by one who stays to see how it ended.
abbrev pub tx : {A : Type 0} → Tx A → Db → Result A
tx m d = elim (m d) [ ok a d' ↦ ok a d' | raised e d' ↦ raised e d ]

pub Result-cases :
    {A : Type 0} (r : Result A)
    → ((a : A) × (d : Db) × (r ≡ ok a d)) ⊎ ((e : Error) × (d : Db) × (r ≡ raised e d))
Result-cases (ok a d) = inl (a, d, refl)
Result-cases (raised e d) = inr (e, d, refl)

-- A bind that returned.
pub >>=-ok :
    {A B : Type 0} (m : Tx A) (f : A → Tx B) (d : Db) {b : B} {e : Db}
    → (m >>= f) d ≡ ok b e
    → (a : A) × (d' : Db) × (m d ≡ ok a d') × (f a d' ≡ ok b e)
>>=-ok m f d {b} {e} h = elim (Result-cases (m d)) [
  | inl (a, d', q) ↦ (a, d', q, rw (q, ◌>>=◌) at h)
  | inr (x, d', q) ↦ absurd (cc (q, h))
]
