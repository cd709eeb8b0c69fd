-- ===== src/Common/Sort.antt =====
-- sort.Strings, sort.Ints and sort.SliceStable: a stable sort by a test `lt`. A stable sort has one
-- result only, and insertion gives it.
use Prim.Native.Nat.{suc}
use mathlib.Core.Path.{◌≡◌, refl}
use mathlib.Core.Bool.{Bool, true, false}
use mathlib.Core.Logic.{◌↔◌, inl, inr}
use mathlib.Core.List.{List, [], ◌∷◌, Memᴰ}
use mathlib.Core.List.Memᴰ.{cases_cons}
use native.Mathlib.Omega.{arith}
use cloudhost_firewall_autou.Common.Tests.{if◌then◌else◌}
use cloudhost_firewall_autou.Common.Lists.{length, All}

module _ {ℓ} {A : Type ℓ} (lt : A → A → Bool) where
  unfoldable pub insert_sorted : A → List A → List A
  insert_sorted x [] = x ∷ []
  insert_sorted x (y ∷ ys) = if lt y x then y ∷ insert_sorted x ys else x ∷ y ∷ ys

  unfoldable pub sort_by : List A → List A
  unfolding insert_sorted
  sort_by [] = []
  sort_by (x ∷ xs) = insert_sorted x (sort_by xs)

  length-insert_sorted : (x : A) (xs : List A) → length (insert_sorted x xs) ≡ suc (length xs)
  unfolding insert_sorted
  length-insert_sorted x [] = refl
  length-insert_sorted x (y ∷ ys) = ground (arith, length-insert_sorted x ys)

  pub length-sort_by : (xs : List A) → length (sort_by xs) ≡ length xs
  unfolding sort_by
  length-sort_by [] = refl
  length-sort_by (x ∷ xs) = omega (arith, length-insert_sorted x (sort_by xs), length-sort_by xs)

module _ {ℓ κ} {A : Type ℓ} (lt : A → A → Bool) (P : A → Type κ) where
  pub All-insert_sorted : (x : A) (xs : List A) → P x → All P xs → All P (insert_sorted lt x xs)
  unfolding insert_sorted
  All-insert_sorted x [] px h = (px, tt)
  All-insert_sorted x (y ∷ ys) px h = place (lt y x) (All-insert_sorted x ys px h.1)
    where
      place :
          (b : Bool)
          → All P (insert_sorted lt x ys)
          → All P (if b then y ∷ insert_sorted lt x ys else x ∷ y ∷ ys)
      place true rest = (h.0, rest)
      place false rest = (px, h)

  pub All-sort_by : (xs : List A) → All P xs → All P (sort_by lt xs)
  unfolding sort_by
  All-sort_by [] h = tt
  All-sort_by (x ∷ xs) h = All-insert_sorted x (sort_by lt xs) h.0 (All-sort_by xs h.1)

module _ {ℓ} {A : Type ℓ} (lt : A → A → Bool) where
  insert_sorted-mem :
      (x : A) (xs : List A) (a : A) → Memᴰ a (insert_sorted lt x xs) ↔ Memᴰ a (x ∷ xs)
  unfolding insert_sorted
  insert_sorted-mem x [] a = (λ m. m, λ m. m)
  insert_sorted-mem x (y ∷ ys) a = place (lt y x) (insert_sorted-mem x ys a)
    where
      swap : {p q : A} {l : List A} → Memᴰ a (p ∷ q ∷ l) → Memᴰ a (q ∷ p ∷ l)
      swap m = elim (cases_cons m) [
        | inl here ↦ Memᴰ.tail (Memᴰ.head here)
        | inr later ↦ elim (cases_cons later) [
          | inl here ↦ Memᴰ.head here
          | inr rest ↦ Memᴰ.tail (Memᴰ.tail rest)
        ]
      ]

      under : {q : A} {l l' : List A} → (Memᴰ a l → Memᴰ a l') → Memᴰ a (q ∷ l) → Memᴰ a (q ∷ l')
      under f m = elim (cases_cons m) [
        | inl here ↦ Memᴰ.head here
        | inr later ↦ Memᴰ.tail (f later)
      ]

      place :
          (b : Bool)
          → (Memᴰ a (insert_sorted lt x ys) ↔ Memᴰ a (x ∷ ys))
          → Memᴰ a (if b then y ∷ insert_sorted lt x ys else x ∷ y ∷ ys) ↔ Memᴰ a (x ∷ y ∷ ys)
      place false rest = (λ m. m, λ m. m)
      place true rest = (λ m. swap (under rest.0 m), λ m. under rest.1 (swap m))

  -- A sorted list has the members of the list.
  pub mem-sort_by : (xs : List A) (a : A) → Memᴰ a (sort_by lt xs) ↔ Memᴰ a xs
  unfolding sort_by
  mem-sort_by [] a = (λ m. m, λ m. m)
  mem-sort_by (x ∷ xs) a =
      let rest = mem-sort_by xs a in
      let placed = insert_sorted-mem x (sort_by lt xs) a in
      (
        λ m. elim (cases_cons (placed.0 m)) [
          | inl here ↦ Memᴰ.head here
          | inr later ↦ Memᴰ.tail (rest.0 later)
        ],
        λ m. placed.1 (elim (cases_cons m) [
          | inl here ↦ Memᴰ.head here
          | inr later ↦ Memᴰ.tail (rest.1 later)
        ]),
      )
