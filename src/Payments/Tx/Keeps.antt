-- ===== src/Payments/Tx/Keeps.antt =====
-- Transactions that keep the tables within a relation, whether they return or raise, with one rule
-- for each way to build a transaction.
use devops_g_9_tillflow.Base.{◌≡◌, refl, Bool, true, false, Option, none, some, if◌then◌else◌}
use devops_g_9_tillflow.Payments.Tables.{Db}
use devops_g_9_tillflow.Payments.Tx.{
  Error, integrity_error, illegal_transition, stale_state, none_row, key_error, Result, ok, raised,
  Tx, after, pure, raise, gets, row_of, on_illegal, catch_illegal, ◌>>=◌,
}

-- A relation between the tables before and after.
pub record Frame (K : Db → Db → Type 0) : Type 0 where
  pub same : (d : Db) → K d d
  pub trans : (a b c : Db) → K a b → K b c → K a c

pub record Keeps (K : Db → Db → Type 0) {A : Type 0} (m : Tx A) : Type 0 where
  pub at : (d : Db) → K d (after (m d))

module _ {K : Db → Db → Type 0} ⦃F : Frame K⦄ where
  module _ {A : Type 0} where
    pub Keeps-pure : (a : A) → Keeps K (pure a)
    Keeps-pure a = record { at = F.same }

    pub Keeps-raise : (e : Error) → Keeps K (raise {A = A} e)
    Keeps-raise e = record { at = F.same }

    pub Keeps-gets : (f : Db → A) → Keeps K (gets f)
    Keeps-gets f = record { at = F.same }

    pub Keeps-row_of : (o : Option A) → Keeps K (row_of o)
    Keeps-row_of none = record { at = F.same }
    Keeps-row_of (some a) = record { at = F.same }

    pub Keeps-if :
        (b : Bool) (m n : Tx A)
        → (b ≡ true → Keeps K m)
        → (b ≡ false → Keeps K n)
        → Keeps K (if b then m else n)
    Keeps-if true m n hm hn = hm refl
    Keeps-if false m n hm hn = hn refl

    catch_at :
        (d : Db) (k : Tx A) (r : Result A)
        → K d (after r)
        → Keeps K k
        → K d (after (catch_illegal k r))
    catch_at d k (ok a e) h q = h
    catch_at d k (raised illegal_transition e) h q = F.trans d e (after (k e)) h (q.at e)
    catch_at d k (raised integrity_error e) h q = h
    catch_at d k (raised stale_state e) h q = h
    catch_at d k (raised none_row e) h q = h
    catch_at d k (raised key_error e) h q = h

    pub Keeps-on_illegal : (m k : Tx A) → Keeps K m → Keeps K k → Keeps K (on_illegal m k)
    Keeps-on_illegal m k hm hk = record { at = λ d. catch_at d k (m d) (hm.at d) hk }

  module _ {A B : Type 0} where
    bind_at :
        (d : Db) (r : Result A) (f : A → Tx B)
        → K d (after r)
        → ((a : A) → Keeps K (f a))
        → K d (after (◌>>=◌ (λ _. r) f d))
    bind_at d (ok a e) f h k = F.trans d e (after (f a e)) h ((k a).at e)
    bind_at d (raised x e) f h k = h

    pub Keeps-bind :
        (m : Tx A) (f : A → Tx B) → Keeps K m → ((a : A) → Keeps K (f a)) → Keeps K (m >>= f)
    Keeps-bind m f hm hf = record { at = λ d. bind_at d (m d) f (hm.at d) hf }
