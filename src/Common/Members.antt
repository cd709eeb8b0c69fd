-- ===== src/Common/Members.antt =====
-- Membership in what `select`, `any` and `map` compute.
use mathlib.Core.List.Memᴰ.{cases_cons}
use mathlib.Core.Path.{◌≡◌, refl, ap, subst}
use mathlib.Core.Logic.{◌↔◌, ◌⊎◌, inl, inr}
use mathlib.Core.Bool.{Bool, true, false, not, false≢true}
use mathlib.Core.List.{List, [], ◌∷◌, ◌++◌, map, foldl, Memᴰ}
use native.Mathlib.Omega.{arith}
use cloudhost_firewall_autou.Common.Tests.{Bool-cases}
use cloudhost_firewall_autou.Common.Lists.{length, is_empty, select, any}

module _ {ℓ} {A : Type ℓ} (p : A → Bool) where
  select-mem : (xs : List A) (x : A) → Memᴰ x (select p xs) → Memᴰ x xs × (p x ≡ true)
  unfolding select
  select-mem [] x m = elim m [ ]
  select-mem (y ∷ ys) x m = elim (Bool-cases (p y)) [
    | inl pass ↦ elim (cases_cons (rw pass at m)) [
      | inl here ↦ (Memᴰ.head here, rw here pass)
      | inr later ↦ let h = select-mem ys x later in (Memᴰ.tail h.0, h.1)
    ]
    | inr fail ↦ let h = select-mem ys x (rw fail at m) in (Memᴰ.tail h.0, h.1)
  ]

  mem-select_of : (xs : List A) (x : A) → Memᴰ x xs → p x ≡ true → Memᴰ x (select p xs)
  unfolding select
  mem-select_of [] x m h = elim m [ ]
  mem-select_of (y ∷ ys) x (Memᴰ.head e) h = rw (subst (λ z. p z ≡ true) e h) (Memᴰ.head e)
  mem-select_of (y ∷ ys) x (Memᴰ.tail m) h = elim (Bool-cases (p y)) [
    | inl pass ↦ rw pass (Memᴰ.tail (mem-select_of ys x m h))
    | inr fail ↦ rw fail (mem-select_of ys x m h)
  ]

  -- `select` keeps exactly the elements that pass.
  pub mem-select : (xs : List A) (x : A) → Memᴰ x (select p xs) ↔ (Memᴰ x xs × (p x ≡ true))
  mem-select xs x = (select-mem xs x, λ h. mem-select_of xs x h.0 h.1)

  pub select-eq_nil : (xs : List A) → ((x : A) → Memᴰ x xs → p x ≡ false) → select p xs ≡ []
  unfolding select
  select-eq_nil [] h = refl
  select-eq_nil (y ∷ ys) h = rw (h y (Memᴰ.head refl)) (select-eq_nil ys (λ x m. h x (Memᴰ.tail m)))

  pub any-eq_false : (xs : List A) → any p xs ≡ false → (x : A) → Memᴰ x xs → p x ≡ false
  unfolding any
  any-eq_false [] h x m = elim m [ ]
  any-eq_false (y ∷ ys) h x (Memᴰ.head e) = rw e (ground arith)
  any-eq_false (y ∷ ys) h x (Memᴰ.tail m) = any-eq_false ys (ground arith) x m

  pub any_of_mem : (xs : List A) (x : A) → Memᴰ x xs → p x ≡ true → any p xs ≡ true
  unfolding any
  any_of_mem [] x m h = elim m [ ]
  any_of_mem (y ∷ ys) x (Memᴰ.head e) h = rw (subst (λ z. p z ≡ true) e h)
  any_of_mem (y ∷ ys) x (Memᴰ.tail m) h = ground (arith, any_of_mem ys x m h)

  pub mem_of_any : (xs : List A) → any p xs ≡ true → (x : A) × Memᴰ x xs × (p x ≡ true)
  unfolding any
  mem_of_any [] h = absurd (false≢true h)
  mem_of_any (y ∷ ys) h = elim (Bool-cases (p y)) [
    | inl pass ↦ (y, Memᴰ.head refl, pass)
    | inr fail ↦ let (x, m, px) = mem_of_any ys (ground arith) in (x, Memᴰ.tail m, px)
  ]

module _ {ℓ κ} {A : Type ℓ} {B : Type κ} (f : A → B) where
  pub mem-map : (xs : List A) (x : A) → Memᴰ x xs → Memᴰ (f x) (map f xs)
  mem-map [] x m = elim m [ ]
  mem-map (y ∷ ys) x (Memᴰ.head e) = Memᴰ.head (ap f e)
  mem-map (y ∷ ys) x (Memᴰ.tail m) = Memᴰ.tail (mem-map ys x m)

  pub map-mem : (xs : List A) (b : B) → Memᴰ b (map f xs) → (x : A) × Memᴰ x xs × (b ≡ f x)
  map-mem [] b m = elim m [ ]
  map-mem (y ∷ ys) b (Memᴰ.head e) = (y, Memᴰ.head refl, e)
  map-mem (y ∷ ys) b (Memᴰ.tail m) = let (x, k, e) = map-mem ys b m in (x, Memᴰ.tail k, e)

pub not-eq_false : {b : Bool} → not b ≡ true → b ≡ false
not-eq_false {b = true} h = absurd (false≢true h)
not-eq_false {b = false} h = refl

-- A list of no elements is empty, whichever way it was computed.
pub nil_of_length {ℓ} : {A : Type ℓ} (xs : List A) → length xs ≡ 0 → xs ≡ []
nil_of_length [] h = refl
nil_of_length (x ∷ xs) h = absurd (omega arith)

pub append-eq_nil {ℓ} : {A : Type ℓ} (xs ys : List A) → xs ++ ys ≡ [] → (xs ≡ []) × (ys ≡ [])
append-eq_nil [] ys h = (refl, h)
append-eq_nil (x ∷ xs) ys h = absurd (false≢true (ap is_empty h))

pub map-eq_nil {ℓ κ} : {A : Type ℓ} {B : Type κ} (f : A → B) (xs : List A) → map f xs ≡ [] → xs ≡ []
map-eq_nil f [] h = refl
map-eq_nil f (x ∷ xs) h = absurd (false≢true (ap is_empty h))

-- A loop whose body adds to a property just what its element brings.
module _ {ℓ κ μ ν} {A : Type ℓ} {S : Type κ} (P : S → Type μ) (Brings : A → Type ν) (f : S → A → S)
    (step : (s : S) (x : A) → P (f s x) ↔ (P s ⊎ Brings x)) where
  foldl-brings-to :
      (xs : List A) (s : S) → P (foldl f s xs) → P s ⊎ ((x : A) × Memᴰ x xs × Brings x)
  foldl-brings-to [] s h = inl h
  foldl-brings-to (x ∷ xs) s h = elim (foldl-brings-to xs (f s x) h) [
    | inr (y, m, b) ↦ inr (y, Memᴰ.tail m, b)
    | inl h' ↦ elim ((step s x).0 h') [ inl old ↦ inl old | inr b ↦ inr (x, Memᴰ.head refl, b) ]
  ]

  foldl-brings-from :
      (xs : List A) (s : S) → P s ⊎ ((x : A) × Memᴰ x xs × Brings x) → P (foldl f s xs)
  foldl-brings-from [] s (inl h) = h
  foldl-brings-from [] s (inr (y, m, b)) = elim m [ ]
  foldl-brings-from (x ∷ xs) s (inl h) = foldl-brings-from xs (f s x) (inl ((step s x).1 (inl h)))
  foldl-brings-from (x ∷ xs) s (inr (y, Memᴰ.head e, b)) =
      foldl-brings-from xs (f s x) (inl ((step s x).1 (inr (subst Brings e b))))
  foldl-brings-from (x ∷ xs) s (inr (y, Memᴰ.tail m, b)) =
      foldl-brings-from xs (f s x) (inr (y, m, b))

  pub foldl-brings :
      (xs : List A) (s : S) → P (foldl f s xs) ↔ (P s ⊎ ((x : A) × Memᴰ x xs × Brings x))
  foldl-brings xs s = (foldl-brings-to xs s, foldl-brings-from xs s)
