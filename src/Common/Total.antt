-- ===== src/Common/Total.antt =====
-- Sums over a family of threads.
use Prim.Native.Nat.{ℕ, zero, suc, ◌+◌, ◌*◌, ◌≤◌, ◌<◌}
use mathlib.Core.Path.{◌≡◌, refl}
use native.Mathlib.Decide.{dec_lt}
use native.Mathlib.Omega.{arith}
use cloudhost_firewall_autou.Common.Tests.{nat_eq, update}

module _ {ℓ} {A : Type ℓ} (f : A → ℕ) where
  unfoldable pub total : ℕ → (ℕ → A) → ℕ
  total zero pc = 0
  total (suc n) pc = f (pc n) + total n pc

  total-beyond : (n i : ℕ) (pc : ℕ → A) (a : A) → n ≤ i → total n (update pc i a) ≡ total n pc
  unfolding total
  total-beyond zero i pc a h = refl
  total-beyond (suc n) i pc a h = ground (arith, total-beyond n i pc a (omega arith))

  pub total-update :
      (n i : ℕ) (pc : ℕ → A) (a : A) → i < n → total n (update pc i a) + f (pc i) ≡ total n pc + f a
  unfolding total
  total-update zero i pc a h = absurd (omega arith)
  total-update (suc n) i pc a h = elim (dec_lt i n) [
    | yes below ↦ ground (arith, total-update n i pc a below)
    | no last ↦ ground (arith, total-beyond n i pc a (omega arith))
  ]

  pub total_le : (n bound : ℕ) (pc : ℕ → A) → ((i : ℕ) → f (pc i) ≤ bound) → total n pc ≤ n * bound
  unfolding total
  total_le zero bound pc h = omega arith
  total_le (suc n) bound pc h = omega (arith, h n, total_le n bound pc h)

  total_zero : (n : ℕ) (pc : ℕ → A) → ((i : ℕ) → i < n → f (pc i) ≡ 0) → total n pc ≡ 0
  unfolding total
  total_zero zero pc h = refl
  total_zero (suc n) pc h =
      omega (arith, h n (omega arith), total_zero n pc (λ i lt. h i (omega (arith, lt))))

  -- Where at most one thread counts, and it counts once.
  pub total_le_one :
      (n : ℕ) (pc : ℕ → A)
      → ((i : ℕ) → f (pc i) ≤ 1)
      → ((i j : ℕ) → 0 < f (pc i) → 0 < f (pc j) → i ≡ j)
      → total n pc ≤ 1
  unfolding total
  total_le_one zero pc few alone = omega arith
  total_le_one (suc n) pc few alone = elim (dec_lt 0 (f (pc n))) [
    | yes counts ↦
        let rest = total_zero n pc (λ i lt. elim (dec_lt 0 (f (pc i))) [
          | yes too ↦ absurd (omega (arith, lt, alone i n too counts))
          | no none_there ↦ omega (arith, none_there)
        ]) in
        omega (arith, few n, rest)
    | no none_there ↦ omega (arith, none_there, total_le_one n pc few alone)
  ]
