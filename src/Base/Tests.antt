-- ===== src/Base/Tests.antt =====
-- Boolean tests on numbers, texts and optional values, and the conditional.
use Prim.Native.Nat.{ℕ, compare, Ordering}
use Prim.Native.String.{String}
use mathlib.Core.Path.{◌≡◌, refl}
use mathlib.Core.Logic.{◌⊎◌, inl, inr}
use mathlib.Core.Bool.{Bool, true, false, ◌&&◌, ◌||◌}
use mathlib.Core.Option.{Option, none, some}
use native.Mathlib.Omega.{arith}
use text.Mathlib.Text.{◌==◌ as str_eq}
use text.Mathlib.TextEquality.{eq_iff}

abbrev pub ltb : ℕ → ℕ → Bool
ltb a b = elim (compare a b) [ Ordering.lt ↦ true | _ ↦ false ]

abbrev pub leb : ℕ → ℕ → Bool
leb a b = elim (compare a b) [ Ordering.gt ↦ false | _ ↦ true ]

abbrev pub nat_eq : ℕ → ℕ → Bool
nat_eq a b = elim (compare a b) [ Ordering.eq ↦ true | _ ↦ false ]

-- Texts (ids, keys, hashes) are compared by `==`.
infix 50 ◌==◌
abbrev pub ◌==◌ : String → String → Bool
a == b = str_eq a b

infix 1 if◌then◌else◌
abbrev pub if◌then◌else◌ {ℓ} : {A : Type ℓ} → Bool → A → A → A
if true then x else y = x
if false then x else y = y

-- SQL's `column = ?`, and `=` between two columns: NULL equals nothing.
unfoldable pub holds_text : Option String → String → Bool
holds_text none t = false
holds_text (some s) t = s == t

unfoldable pub same_text : Option String → Option String → Bool
unfolding holds_text
same_text o none = false
same_text o (some t) = holds_text o t

abbrev pub is_none {ℓ} : {A : Type ℓ} → Option A → Bool
is_none none = true
is_none (some _) = false

abbrev pub or_default {ℓ} : {A : Type ℓ} → Option A → A → A
or_default none d = d
or_default (some a) d = a

pub eq_of_test : (a b : String) → (a == b) ≡ true → a ≡ b
eq_of_test a b h = (eq_iff a b).0 h

pub test_of_eq : (a b : String) → a ≡ b → (a == b) ≡ true
test_of_eq a b h = (eq_iff a b).1 h

pub holds_text-eq : (o : Option String) (t : String) → holds_text o t ≡ true → o ≡ some t
unfolding holds_text
holds_text-eq none t h = ground arith
holds_text-eq (some s) t h = ground (arith, eq_iff s t)

pub holds_text-some : (t : String) → holds_text (some t) t ≡ true
unfolding holds_text
holds_text-some t = test_of_eq t t refl

pub same_text-some : (t : String) → same_text (some t) (some t) ≡ true
unfolding same_text
same_text-some t = test_of_eq t t refl

pub Bool-cases : (b : Bool) → (b ≡ true) ⊎ (b ≡ false)
Bool-cases true = inl refl
Bool-cases false = inr refl

pub Option-cases {ℓ} : {A : Type ℓ} (o : Option A) → (o ≡ none) ⊎ ((a : A) × (o ≡ some a))
Option-cases none = inl refl
Option-cases (some a) = inr (a, refl)

pub and-true : (a b : Bool) → (a && b) ≡ true → (a ≡ true) × (b ≡ true)
and-true a b h = ground arith

pub or-false : (a b : Bool) → (a || b) ≡ false → (a ≡ false) × (b ≡ false)
or-false a b h = ground arith

pub same_text_sym : (a b : Option String) → same_text a b ≡ true → same_text b a ≡ true
unfolding same_text
same_text_sym none none h = h
same_text_sym none (some b) h = ground arith
same_text_sym (some a) none h = ground arith
same_text_sym (some a) (some b) h = ground (arith, eq_iff a b, eq_iff b a)
