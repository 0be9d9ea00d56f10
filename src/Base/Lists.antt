-- ===== src/Base/Lists.antt =====
-- Lists with native lengths, and the Boolean scans that Python writes as comprehensions.
use Prim.Native.Nat.{ℕ, zero, suc, ◌≤◌}
use mathlib.Core.Bool.{Bool, false, ◌||◌}
use mathlib.Core.List.{List, [], ◌∷◌, ◌++◌, map}
use mathlib.Core.Path.{◌≡◌, refl, ap}
use Prim.Native.String.{String}
use text.Mathlib.Text.{◌==◌ as str_eq}
use ip_montior.Base.Tests.{if◌then◌else◌, leb}

module _ {ℓ} {A : Type ℓ} where
  abbrev pub length : List A → ℕ
  length [] = 0
  length (_ ∷ xs) = suc (length xs)

  -- `[x for x in xs if test(x)]`
  abbrev pub filter : (A → Bool) → List A → List A
  filter test [] = []
  filter test (x ∷ xs) = if test x then x ∷ filter test xs else filter test xs

  abbrev pub any : (A → Bool) → List A → Bool
  any test [] = false
  any test (x ∷ xs) = test x || any test xs

  abbrev pub All {κ} : (A → Type κ) → List A → Type κ
  All P [] = Unit
  All P (x ∷ xs) = P x × All P xs

-- `s in xs` for a list of texts
abbrev pub contains : String → List String → Bool
contains s = any (λ x. str_eq x s)

module _ {ℓ} {A : Type ℓ} (P : A → Type 0) where
  pub All-middle : (xs : List A) (y : A) (zs : List A) → All P (xs ++ y ∷ zs) → P y
  All-middle [] y zs h = h.0
  All-middle (x ∷ xs) y zs h = All-middle xs y zs h.1

  pub All-replace :
      (xs : List A) (y : A) (zs : List A) {z : A}
      → All P (xs ++ y ∷ zs)
      → P z
      → All P (xs ++ z ∷ zs)
  All-replace [] y zs h p = (p, h.1)
  All-replace (x ∷ xs) y zs h p = (h.0, All-replace xs y zs h.1 p)

module _ {ℓ} {A : Type ℓ} where
  abbrev pub take : ℕ → List A → List A
  take zero xs = []
  take (suc n) [] = []
  take (suc n) (x ∷ xs) = x ∷ take n xs

  -- Insertion by a key into an ascending list, in front of what has the same key.
  abbrev pub insert_by : (A → ℕ) → A → List A → List A
  insert_by key x [] = x ∷ []
  insert_by key x (y ∷ ys) = if leb (key x) (key y) then x ∷ y ∷ ys else y ∷ insert_by key x ys

  -- `ORDER BY key`
  abbrev pub sort_by : (A → ℕ) → List A → List A
  sort_by key [] = []
  sort_by key (x ∷ xs) = insert_by key x (sort_by key xs)

  -- Every row's key is at most those of the rows after it.
  abbrev pub IsSortedBy : (A → ℕ) → List A → Type 0
  IsSortedBy key [] = Unit
  IsSortedBy key (x ∷ xs) = All (λ y. key x ≤ key y) xs × IsSortedBy key xs

module _ {ℓ κ} {A : Type ℓ} {B : Type κ} (f : A → B) where
  pub length-map : (xs : List A) → length (map f xs) ≡ length xs
  length-map [] = refl
  length-map (x ∷ xs) = ap suc (length-map xs)

  pub any-map : (test : B → Bool) (xs : List A) → any test (map f xs) ≡ any (λ x. test (f x)) xs
  any-map test [] = refl
  any-map test (x ∷ xs) = rw (any-map test xs) refl
