-- ===== src/Common/Tests.antt =====
-- Boolean tests on numbers, the conditional, and the interface of types with a Boolean equality.
use Prim.Native.Nat.{ℕ, compare, Ordering}
use mathlib.Core.Path.{◌≡◌, refl, ap}
use mathlib.Core.Logic.{◌≢◌, ◌↔◌, ◌⊎◌, inl, inr}
use mathlib.Core.Bool.{Bool, true, false, ◌&&◌, false≢true}
use mathlib.Core.Option.{Option, none, some}
use mathlib.Core.List.{List, [], ◌∷◌}
use native.Mathlib.Omega.{arith}

abbrev pub ltb : ℕ → ℕ → Bool
ltb a b = elim (compare a b) [ Ordering.lt ↦ true | _ ↦ false ]

abbrev pub leb : ℕ → ℕ → Bool
leb a b = elim (compare a b) [ Ordering.gt ↦ false | _ ↦ true ]

abbrev pub nat_beq : ℕ → ℕ → Bool
nat_beq a b = elim (compare a b) [ Ordering.eq ↦ true | _ ↦ false ]

infix 1 if◌then◌else◌
abbrev pub if◌then◌else◌ {ℓ} : {A : Type ℓ} → Bool → A → A → A
if true then x else y = x
if false then x else y = y

abbrev pub is_none {ℓ} : {A : Type ℓ} → Option A → Bool
is_none none = true
is_none (some a) = false

-- A type whose values the program compares with `==`.
pub record Eq {ℓ} (A : Type ℓ) : Type ℓ where
  pub beq : A → A → Bool
  pub beq_iff : (x y : A) → (beq x y ≡ true) ↔ (x ≡ y)

pub Bool-cases : (b : Bool) → (b ≡ true) ⊎ (b ≡ false)
Bool-cases true = inl refl
Bool-cases false = inr refl

pub Option-cases {ℓ} : {A : Type ℓ} (o : Option A) → (o ≡ none) ⊎ ((a : A) × (o ≡ some a))
Option-cases none = inl refl
Option-cases (some a) = inr (a, refl)

pub List-cases {ℓ} : {A : Type ℓ} (l : List A) → (l ≡ []) ⊎ ((x : A) × (xs : List A) × (l ≡ x ∷ xs))
List-cases [] = inl refl
List-cases (x ∷ xs) = inr (x, xs, refl)

pub nat_beq_iff : (a b : ℕ) → (nat_beq a b ≡ true) ↔ (a ≡ b)
nat_beq_iff a b = ground arith

instance abbrev pub nat_eq : Eq ℕ
nat_eq = record { beq = nat_beq; beq_iff = nat_beq_iff }

infix 50 ◌==◌
abbrev pub ◌==◌ {ℓ} : {A : Type ℓ} ⦃e : Eq A⦄ → A → A → Bool
◌==◌ ⦃e⦄ = e.beq

module _ {ℓ} {A : Type ℓ} ⦃e : Eq A⦄ where
  pub ==_iff : (a b : A) → ((a == b) ≡ true) ↔ (a ≡ b)
  ==_iff = e.beq_iff

  pub ==_refl : (a : A) → (a == a) ≡ true
  ==_refl a = (e.beq_iff a a).1 refl

  pub ==-eq_false : (a b : A) → a ≢ b → (a == b) ≡ false
  ==-eq_false a b h = elim (Bool-cases (a == b)) [
    | inl same ↦ absurd (h ((e.beq_iff a b).0 same))
    | inr differ ↦ differ
  ]

  unfoldable pub list_beq : List A → List A → Bool
  list_beq [] [] = true
  list_beq [] (y ∷ ys) = false
  list_beq (x ∷ xs) [] = false
  list_beq (x ∷ xs) (y ∷ ys) = (x == y) && list_beq xs ys

  pub list_beq_iff : (xs ys : List A) → (list_beq xs ys ≡ true) ↔ (xs ≡ ys)
  unfolding list_beq
  list_beq_iff [] [] = ground arith
  list_beq_iff [] (y ∷ ys) = ground arith
  list_beq_iff (x ∷ xs) [] = ground arith
  list_beq_iff (x ∷ xs) (y ∷ ys) = ground (arith, list_beq_iff xs ys, e.beq_iff x y)

instance abbrev pub list_eq {ℓ} : {A : Type ℓ} ⦃e : Eq A⦄ → Eq (List A)
list_eq = record { beq = list_beq; beq_iff = list_beq_iff }

-- A function with one value replaced.
abbrev pub update {ℓ κ} : {K : Type ℓ} {V : Type κ} ⦃e : Eq K⦄ → (K → V) → K → V → K → V
update f k v j = if j == k then v else f j

differ_true : {b : Bool} → b ≡ false → b ≡ true → false ≡ true
differ_true f t = ground (arith, f, t)

pub update-cases {ℓ} :
    {A : Type ℓ} (f : ℕ → A) (i : ℕ) (a : A) (j : ℕ)
    → ((j ≡ i) × (update f i a j ≡ a)) ⊎ ((j ≢ i) × (update f i a j ≡ f j))
update-cases f i a j = elim (Bool-cases (j == i)) [
  | inl same ↦ inl ((==_iff j i).0 same, ap (λ b. if b then a else f j) same)
  | inr differ ↦ inr (
    λ e. false≢true (differ_true differ ((==_iff j i).1 e)),
    ap (λ b. if b then a else f j) differ,
  )
]
