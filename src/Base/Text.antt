-- ===== src/Base/Text.antt =====
-- Texts as the code points that Python's `re`, `len` and slices see.
use Prim.Native.Nat.{ℕ, zero, suc}
use Prim.Native.Char.{code}
use Prim.Native.String.{String}
use mathlib.Core.Bool.{Bool, true, ◌&&◌, ◌||◌}
use mathlib.Core.List.{List, [], ◌∷◌}
use devops_g_9_tillflow.Base.Tests.{leb, nat_eq, if◌then◌else◌}

abbrev pub codes : String → List ℕ
codes String.[] = []
codes (String.◌∷◌ c s) = code c ∷ codes s

abbrev pub length {ℓ} : {A : Type ℓ} → List A → ℕ
length [] = 0
length (x ∷ xs) = suc (length xs)

abbrev pub take {ℓ} : {A : Type ℓ} → ℕ → List A → List A
take zero xs = []
take (suc n) [] = []
take (suc n) (x ∷ xs) = x ∷ take n xs

abbrev pub drop {ℓ} : {A : Type ℓ} → ℕ → List A → List A
drop zero xs = xs
drop (suc n) [] = []
drop (suc n) (x ∷ xs) = drop n xs

unfoldable pub all_in : (ℕ → Bool) → List ℕ → Bool
all_in c [] = true
all_in c (x ∷ xs) = c x && all_in c xs

-- Python's `$` also matches before a newline that ends the text.
unfoldable pub drop_newline : List ℕ → List ℕ
drop_newline [] = []
drop_newline (x ∷ []) = if nat_eq x 10 then [] else x ∷ []
drop_newline (x ∷ y ∷ r) = x ∷ drop_newline (y ∷ r)

abbrev pub is_digit : ℕ → Bool
is_digit c = leb b'0' c && leb c b'9'

abbrev pub is_alnum : ℕ → Bool
is_alnum c = is_digit c || (leb b'A' c && leb c b'Z') || (leb b'a' c && leb c b'z')

-- `^[c]{lo,hi}$`
unfoldable pub matches : (ℕ → Bool) → ℕ → ℕ → List ℕ → Bool
matches c lo hi s = let w = drop_newline s in all_in c w && leb lo (length w) && leb (length w) hi
