-- ===== src/Base/Table/Unique.antt =====
-- In a table without clashes a key names one row.
use mathlib.Core.Path.{◌≡◌, sym, ◌∙◌, ap}
use mathlib.Core.Logic.{inl, inr}
use mathlib.Core.Bool.{Bool, true, false}
use mathlib.Core.List.{List, [], ◌∷◌}
use devops_g_9_tillflow.Base.Table.{any_where, In}
use devops_g_9_tillflow.Base.Table.Update.{any_where-false-In}

-- `ok` says that no two rows clash, and `same` is a test that implies a clash both ways.
module _ {R : Type 0} (clash : R → R → Bool) (ok : List R → Bool)
    (parts : (p : R) (ps : List R)
      → ok (p ∷ ps) ≡ true
      → (any_where (clash p) ps ≡ false) × (ok ps ≡ true))
    (same : R → R → Bool) (sym_same : (p q : R) → same p q ≡ true → same q p ≡ true)
    (clashes : (p q : R) → same p q ≡ true → clash p q ≡ true) where
  pub unique_by :
      (ps : List R) {p q : R} → ok ps ≡ true → In p ps → In q ps → same p q ≡ true → p ≡ q
  unique_by [] h mp mq s = absurd mp
  unique_by (x ∷ xs) h (inl e) (inl f) s = e ∙ sym f
  unique_by (x ∷ xs) {p} {q} h (inl e) (inr m) s =
      cc (any_where-false-In (clash x) xs (parts x xs h).0 m, clashes p q s, ap (λ a. clash a q) e)
  unique_by (x ∷ xs) {p} {q} h (inr m) (inl f) s = cc (
    any_where-false-In (clash x) xs (parts x xs h).0 m,
    clashes q p (sym_same p q s),
    ap (λ a. clash a p) f,
  )
  unique_by (x ∷ xs) h (inr m) (inr n) s = unique_by xs (parts x xs h).1 m n s
