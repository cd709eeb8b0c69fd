-- ===== src/Common/Lists.antt =====
-- Lists measured by native numbers, tests on lists, and predicates on all elements.
use Prim.Native.Nat.{ℕ, zero, suc, ◌+◌}
use mathlib.Core.Path.{◌≡◌, refl, sym}
use mathlib.Core.Logic.{inl, inr}
use mathlib.Core.Bool.{Bool, true, false, ◌||◌}
use mathlib.Core.Option.{Option, none, some}
use mathlib.Core.List.{List, [], ◌∷◌, ◌++◌, foldl, Memᴰ}
use native.Mathlib.Omega.{arith}
use cloudhost_firewall_autou.Common.Tests.{Eq, ◌==◌, ==_iff, Bool-cases, if◌then◌else◌}

module _ {ℓ} {A : Type ℓ} where
  abbrev pub length : List A → ℕ
  length [] = 0
  length (x ∷ xs) = suc (length xs)

  abbrev pub take : ℕ → List A → List A
  take zero xs = []
  take (suc n) [] = []
  take (suc n) (x ∷ xs) = x ∷ take n xs

  abbrev pub drop : ℕ → List A → List A
  drop zero xs = xs
  drop (suc n) [] = []
  drop (suc n) (x ∷ xs) = drop n xs

  pub length-append : (xs ys : List A) → length (xs ++ ys) ≡ length xs + length ys
  length-append [] ys = omega arith
  length-append (x ∷ xs) ys = omega (arith, length-append xs ys)

  -- The test of an empty slice or string.
  abbrev pub is_empty : List A → Bool
  is_empty [] = true
  is_empty (x ∷ xs) = false

  -- A nil slice is an empty one.
  abbrev pub or_empty : Option (List A) → List A
  or_empty none = []
  or_empty (some xs) = xs

  -- The elements that pass a test, in their order.
  unfoldable pub select : (A → Bool) → List A → List A
  select p [] = []
  select p (x ∷ xs) = if p x then x ∷ select p xs else select p xs

  unfoldable pub sum_by : (A → ℕ) → List A → ℕ
  sum_by f [] = 0
  sum_by f (x ∷ xs) = f x + sum_by f xs

  unfoldable pub any : (A → Bool) → List A → Bool
  any p [] = false
  any p (x ∷ xs) = p x || any p xs

module _ {ℓ κ} {A : Type ℓ} where
  abbrev pub All : (A → Type κ) → List A → Type κ
  All P [] = Unit
  All P (x ∷ xs) = P x × All P xs

module _ {ℓ κ} {A : Type ℓ} (P : A → Type κ) where
  pub All-append : (xs ys : List A) → All P xs → All P ys → All P (xs ++ ys)
  All-append [] ys hx hy = hy
  All-append (x ∷ xs) ys hx hy = (hx.0, All-append xs ys hx.1 hy)

  pub All-mem : (xs : List A) → All P xs → (x : A) → Memᴰ x xs → P x
  All-mem [] h y m = elim m [ ]
  All-mem (x ∷ xs) h y (Memᴰ.head e) = rw e h.0
  All-mem (x ∷ xs) h y (Memᴰ.tail m) = All-mem xs h.1 y m

  pub All-of_mem : (xs : List A) → ((x : A) → Memᴰ x xs → P x) → All P xs
  All-of_mem [] h = tt
  All-of_mem (x ∷ xs) h = (h x (Memᴰ.head refl), All-of_mem xs (λ y m. h y (Memᴰ.tail m)))

module _ {ℓ κ} {A : Type ℓ} (P Q : A → Type κ) where
  pub All-mono : (xs : List A) → ((x : A) → P x → Q x) → All P xs → All Q xs
  All-mono [] f h = tt
  All-mono (x ∷ xs) f h = (f x h.0, All-mono xs f h.1)

-- An invariant of the body of a loop over a slice is one of the loop.
pub foldl_inv {ℓ κ μ} :
    {A : Type ℓ} {S : Type κ} (P : S → Type μ) (f : S → A → S)
    → ((s : S) (x : A) → P s → P (f s x))
    → (xs : List A) (s : S) → P s
    → P (foldl f s xs)
foldl_inv P f keep [] s h = h
foldl_inv P f keep (x ∷ xs) s h = foldl_inv P f keep xs (f s x) (keep s x h)

module _ {ℓ} {A : Type ℓ} ⦃e : Eq A⦄ where
  unfoldable pub contains : List A → A → Bool
  contains [] a = false
  contains (x ∷ xs) a = (x == a) || contains xs a

  pub contains→mem : (xs : List A) (a : A) → contains xs a ≡ true → Memᴰ a xs
  unfolding contains
  contains→mem [] a h = absurd (ground arith)
  contains→mem (x ∷ xs) a h = elim (Bool-cases (x == a)) [
    | inl same ↦ Memᴰ.head (sym ((==_iff x a).0 same))
    | inr differ ↦ Memᴰ.tail (contains→mem xs a (ground arith))
  ]

  pub mem→contains : (xs : List A) (a : A) → Memᴰ a xs → contains xs a ≡ true
  unfolding contains
  mem→contains [] a m = elim m [ ]
  mem→contains (x ∷ xs) a (Memᴰ.head e) = ground (arith, ==_iff x a)
  mem→contains (x ∷ xs) a (Memᴰ.tail m) = ground (arith, mem→contains xs a m)
