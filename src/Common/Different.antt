-- ===== src/Common/Different.antt =====
-- Lists whose keys are pairwise different.
use mathlib.Core.Path.{sym, ◌∙◌}
use mathlib.Core.Logic.{◌≢◌, ◌↔◌, inl, inr}
use mathlib.Core.Bool.{Bool, true, false, false≢true}
use mathlib.Core.List.Memᴰ
use mathlib.Core.List.{List, [], ◌∷◌, ◌++◌, map}
use cloudhost_firewall_autou.Common.Tests.{Eq, if◌then◌else◌, Bool-cases}
use cloudhost_firewall_autou.Common.Lists.{All, All-append, All-of_mem, contains, mem→contains}
use cloudhost_firewall_autou.Common.Sort.{insert_sorted, sort_by, All-insert_sorted, All-sort_by}

abbrev pub Distinct {ℓ} : {A : Type ℓ} → List A → Type ℓ
Distinct [] = Unit
Distinct (x ∷ xs) = All (λ y. y ≢ x) xs × Distinct xs

module _ {ℓ} {A : Type ℓ} where
  pub Distinct-append_one :
      (xs : List A) (a : A) → Distinct xs → All (λ y. a ≢ y) xs → Distinct (xs ++ a ∷ [])
  Distinct-append_one [] a d h = (tt, tt)
  Distinct-append_one (x ∷ xs) a d h =
      (All-append (λ y. y ≢ x) xs (a ∷ []) d.0 (h.0, tt), Distinct-append_one xs a d.1 h.1)

module _ {ℓ κ} {A : Type ℓ} {K : Type κ} (f : A → K) where
  All-map : (P : K → Type κ) (xs : List A) → All P (map f xs) ↔ All (λ x. P (f x)) xs
  All-map P [] = (λ h. tt, λ h. tt)
  All-map P (x ∷ xs) = let (to, from) = All-map P xs in (λ h. (h.0, to h.1), λ h. (h.0, from h.1))

  insert-Distinct :
      (lt : A → A → Bool) (x : A) (xs : List A)
      → All (λ y. f y ≢ f x) xs
      → Distinct (map f xs)
      → Distinct (map f (insert_sorted lt x xs))
  unfolding insert_sorted
  insert-Distinct lt x [] h d = (tt, tt)
  insert-Distinct lt x (y ∷ ys) h d = place (lt y x) (insert-Distinct lt x ys h.1 d.1)
    where
      place :
          (b : Bool)
          → Distinct (map f (insert_sorted lt x ys))
          → Distinct (map f (if b then y ∷ insert_sorted lt x ys else x ∷ y ∷ ys))
      place true rest = (
        (All-map (λ k. k ≢ f y) (insert_sorted lt x ys)).1 (
            All-insert_sorted lt (λ z. f z ≢ f y) x ys (λ e. h.0 (sym e))
              ((All-map (λ k. k ≢ f y) ys).0 d.0)),
        rest,
      )
      place false rest = ((All-map (λ k. k ≢ f x) (y ∷ ys)).1 h, d)

  -- Sorting keeps the keys different.
  pub sort_by-Distinct :
      (lt : A → A → Bool) (xs : List A) → Distinct (map f xs) → Distinct (map f (sort_by lt xs))
  unfolding sort_by
  sort_by-Distinct lt [] d = tt
  sort_by-Distinct lt (x ∷ xs) d =
      insert-Distinct lt x (sort_by lt xs)
        (All-sort_by lt (λ y. f y ≢ f x) xs ((All-map (λ k. k ≢ f x) xs).0 d.0))
        (sort_by-Distinct lt xs d.1)

module _ {ℓ} {A : Type ℓ} ⦃e : Eq A⦄ where
  -- The append of an element that is not there yet.
  pub Distinct-add :
      (xs : List A) (a : A) → Distinct xs → Distinct (if contains xs a then xs else xs ++ a ∷ [])
  Distinct-add xs a d = elim (Bool-cases (contains xs a)) [
    | inl there ↦ rw there d
    | inr new ↦ rw new (
        Distinct-append_one xs a d (
          All-of_mem (λ y. a ≢ y) xs
            (λ y m same. false≢true (sym new ∙ mem→contains xs a (Memᴰ.cast same m)))))
  ]
