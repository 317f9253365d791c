-- ===== src/Base/Table/Update.antt =====
-- What a selection finds, and what an update keeps.
use Prim.Native.Nat.{ℕ, ◌+◌, ◌*◌}
use mathlib.Core.Path.{◌≡◌, refl, sym, subst}
use mathlib.Core.Logic.{inl, inr}
use mathlib.Core.Bool.{Bool, true, false}
use mathlib.Core.Option.{none, some}
use mathlib.Core.List.{List, [], ◌∷◌}
use native.Mathlib.Omega.{arith}
use devops_g_9_tillflow.Base.Tests.{if◌then◌else◌, Bool-cases}
use devops_g_9_tillflow.Base.Table.{
  find?, any_where, update_where, count_where, sum_of, In, Rowwise,
}

module _ {R : Type 0} where
  pub find?-In : (c : R → Bool) (xs : List R) {q : R} → find? c xs ≡ some q → In q xs × (c q ≡ true)
  unfolding find?
  find?-In c [] h = cc
  find?-In c (x ∷ xs) {q} h = ground (arith, find?-In c xs {q = q})

  pub find?-none-In :
      (c : R → Bool) (xs : List R) {q : R} → find? c xs ≡ none → In q xs → c q ≡ false
  unfolding find?
  find?-none-In c [] h m = absurd m
  find?-none-In c (x ∷ xs) {q} h m = ground (arith, find?-none-In c xs {q = q})

  pub any_where-false-In :
      (c : R → Bool) (xs : List R) {q : R} → any_where c xs ≡ false → In q xs → c q ≡ false
  unfolding any_where
  any_where-false-In c [] h m = absurd m
  any_where-false-In c (x ∷ xs) {q} h m = ground (arith, any_where-false-In c xs {q = q})

  pub Rowwise-refl : (K : R → R → Type 0) → ((q : R) → K q q) → (xs : List R) → Rowwise K xs xs
  Rowwise-refl K r [] = tt
  Rowwise-refl K r (x ∷ xs) = (r x, Rowwise-refl K r xs)

  pub Rowwise-trans :
      (K : R → R → Type 0)
      → ((a b c : R) → K a b → K b c → K a c)
      → (xs ys zs : List R) → Rowwise K xs ys
      → Rowwise K ys zs
      → Rowwise K xs zs
  Rowwise-trans K t [] [] [] h k = tt
  Rowwise-trans K t (x ∷ xs) (y ∷ ys) (z ∷ zs) h k =
      (t x y z h.0 k.0, Rowwise-trans K t xs ys zs h.1 k.1)
  Rowwise-trans K t [] [] (z ∷ zs) h k = absurd k
  Rowwise-trans K t [] (y ∷ ys) zs h k = absurd h
  Rowwise-trans K t (x ∷ xs) [] zs h k = absurd h
  Rowwise-trans K t (x ∷ xs) (y ∷ ys) [] h k = absurd k

  pub Rowwise-map :
      (K L : R → R → Type 0)
      → ((a b : R) → K a b → L a b)
      → (xs ys : List R) → Rowwise K xs ys
      → Rowwise L xs ys
  Rowwise-map K L t [] [] h = tt
  Rowwise-map K L t (x ∷ xs) (y ∷ ys) h = (t x y h.0, Rowwise-map K L t xs ys h.1)
  Rowwise-map K L t [] (y ∷ ys) h = absurd h
  Rowwise-map K L t (x ∷ xs) [] h = absurd h

  -- A row that the update touches, and one that it leaves.
  pub Rowwise-update_split :
      (K : R → R → Type 0) (c : R → Bool) (f : R → R) (xs : List R)
      → ((q : R) → In q xs → c q ≡ true → K q (f q))
      → ((q : R) → In q xs → c q ≡ false → K q q)
      → Rowwise K xs (update_where c f xs)
  unfolding update_where
  Rowwise-update_split K c f [] h k = tt
  Rowwise-update_split K c f (x ∷ xs) h k =
      (step (c x) refl, Rowwise-update_split K c f xs (λ q m. h q (inr m)) (λ q m. k q (inr m)))
    where
      step : (b : Bool) → c x ≡ b → K x (if b then f x else x)
      step true e = h x (inl refl) e
      step false e = k x (inl refl) e

  pub any_where-true-In :
      (c : R → Bool) (xs : List R) → any_where c xs ≡ true → (q : R) × In q xs × (c q ≡ true)
  unfolding any_where
  any_where-true-In c [] h = absurd (cc h)
  any_where-true-In c (x ∷ xs) h = elim (Bool-cases (c x)) [
    | inl e ↦ (x, inl refl, e)
    | inr e ↦ let r = any_where-true-In c xs (rw e at h) in (r.0, inr r.1, r.2)
  ]

  -- An update relates each row to its image if it does so for the rows that it touches.
  pub Rowwise-update :
      (K : R → R → Type 0) (c : R → Bool) (f : R → R)
      → ((q : R) → K q q)
      → (xs : List R) → ((q : R) → In q xs → c q ≡ true → K q (f q))
      → Rowwise K xs (update_where c f xs)
  Rowwise-update K c f r xs h = Rowwise-update_split K c f xs h (λ q m e. r q)

  -- From a row of the one table to its partner in the other.
  pub Rowwise-In :
      (K : R → R → Type 0) (xs ys : List R) {q : R}
      → Rowwise K xs ys
      → In q xs
      → (q' : R) × In q' ys × K q q'
  Rowwise-In K (x ∷ xs) (y ∷ ys) h (inl e) = (y, inl refl, subst (λ a. K a y) (sym e) h.0)
  Rowwise-In K (x ∷ xs) (y ∷ ys) h (inr m) = let r = Rowwise-In K xs ys h.1 m in (r.0, inr r.1, r.2)
  Rowwise-In K [] ys h m = absurd m
  Rowwise-In K (x ∷ xs) [] h m = absurd h

  pub Rowwise-In_back :
      (K : R → R → Type 0) (xs ys : List R) {q' : R}
      → Rowwise K xs ys
      → In q' ys
      → (q : R) × In q xs × K q q'
  Rowwise-In_back K (x ∷ xs) (y ∷ ys) h (inl e) = (x, inl refl, subst (K x) (sym e) h.0)
  Rowwise-In_back K (x ∷ xs) (y ∷ ys) h (inr m) =
      let r = Rowwise-In_back K xs ys h.1 m in (r.0, inr r.1, r.2)
  Rowwise-In_back K xs [] h m = absurd m
  Rowwise-In_back K [] (y ∷ ys) h m = absurd h

  pub sum_of-Rowwise :
      (K : R → R → Type 0) (v : R → ℕ)
      → ((a b : R) → K a b → v b ≡ v a)
      → (xs ys : List R) → Rowwise K xs ys
      → sum_of v ys ≡ sum_of v xs
  unfolding sum_of
  sum_of-Rowwise K v e [] [] h = refl
  sum_of-Rowwise K v e (x ∷ xs) (y ∷ ys) h =
      omega (arith, e x y h.0, sum_of-Rowwise K v e xs ys h.1)
  sum_of-Rowwise K v e [] (y ∷ ys) h = absurd h
  sum_of-Rowwise K v e (x ∷ xs) [] h = absurd h

  -- An update that adds `n` to the value of each row that it touches.
  pub sum_of-update :
      (v : R → ℕ) (n : ℕ) (c : R → Bool) (f : R → R) (xs : List R)
      → ((q : R) → In q xs → c q ≡ true → v (f q) ≡ v q + n)
      → sum_of v (update_where c f xs) ≡ sum_of v xs + count_where c xs * n
  unfolding sum_of update_where count_where
  sum_of-update v n c f [] h = omega arith
  sum_of-update v n c f (x ∷ xs) h = elim (Bool-cases (c x)) [
    | inl e ↦ rw e (omega (arith, h x (inl refl) e, sum_of-update v n c f xs (λ q m. h q (inr m))))
    | inr e ↦ rw e (omega (arith, sum_of-update v n c f xs (λ q m. h q (inr m))))
  ]
