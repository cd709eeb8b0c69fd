-- ===== src/Notifier/Bus/Delivery.antt =====
-- What a channel of the bus receives.
use cloudhost_firewall_autou.Common.{
  ℕ, zero, suc, subst, ◌≤◌, ◌≡◌, refl, sym, ap, ◌∙◌, List, [], ◌∷◌, ◌++◌, map, foldl, length, ltb,
  nat_eq, arith, take, append-nil, append_assoc, length-append, Bool-cases, inl, inr, Memᴰ,
}
use cloudhost_firewall_autou.Notifier.{Event}
use cloudhost_firewall_autou.Notifier.Bus

module _ {ℓ} {A : Type ℓ} where
  take_of_le : (n : ℕ) (xs : List A) → length xs ≤ n → take n xs ≡ xs
  take_of_le zero [] h = refl
  take_of_le zero (x ∷ xs) h = absurd (omega (arith, h))
  take_of_le (suc n) [] h = refl
  take_of_le (suc n) (x ∷ xs) h = ap (λ t. x ∷ t) (take_of_le n xs (omega (arith, h)))

  take-append_full : (xs ys : List A) → take (length xs) (xs ++ ys) ≡ xs
  take-append_full [] ys = refl
  take-append_full (x ∷ xs) ys = ap (λ t. x ∷ t) (take-append_full xs ys)

  map_ext : (f g : A → A) (xs : List A) → ((x : A) → Memᴰ x xs → f x ≡ g x) → map f xs ≡ map g xs
  map_ext f g [] h = refl
  map_ext f g (x ∷ xs) h = rw (h x (Memᴰ.head refl), map_ext f g xs (λ y m. h y (Memᴰ.tail m))) refl

  map_same : (xs : List A) → map (λ x. x) xs ≡ xs
  map_same [] = refl
  map_same (x ∷ xs) = ap (λ t. x ∷ t) (map_same xs)

  map-map : (f g : A → A) (xs : List A) → map f (map g xs) ≡ map (λ x. f (g x)) xs
  map-map f g [] = refl
  map-map f g (x ∷ xs) = ap (λ t. f (g x) ∷ t) (map-map f g xs)

module _ {D : Type 0} where
  abbrev pub publish_all : Bus.EventBus D → List (Event D) → Bus.EventBus D
  publish_all = foldl (λ b e. Bus.publish e b)

  abbrev offers : ℕ × List (Event D) → List (Event D) → ℕ × List (Event D)
  offers = foldl (λ c e. Bus.offer e c)

  publish_all-chan_subs :
      (es : List (Event D)) (b : Bus.EventBus D)
      → (publish_all b es).chan_subs ≡ map (λ c. offers c es) b.chan_subs
  unfolding Bus.publish
  publish_all-chan_subs [] b = sym (map_same b.chan_subs)
  publish_all-chan_subs (e ∷ es) b =
      publish_all-chan_subs es (Bus.publish e b)
      ∙ map-map (λ c. offers c es) (Bus.offer e) b.chan_subs

  full_queue : (queue es : List (Event D)) → length queue ≡ 32 → take 32 (queue ++ es) ≡ queue
  full_queue queue es n = subst (λ k. take k (queue ++ es) ≡ queue) n (take-append_full queue es)

  offers_lem :
      (es : List (Event D)) (id : ℕ) (queue : List (Event D))
      → length queue ≤ 32
      → offers (id, queue) es ≡ (id, take 32 (queue ++ es))
  offers_lem [] id queue h = rw (append-nil queue) (ap (λ q. (id, q)) (sym (take_of_le 32 queue h)))
  offers_lem (e ∷ es) id queue h = elim (Bool-cases (ltb (length queue) 32)) [
    | inl room ↦
        let fits =
          offers_lem es id (queue ++ e ∷ []) (ground (arith, length-append queue (e ∷ []))) in
        rw room (fits ∙ ap (λ q. (id, take 32 q)) (append_assoc queue (e ∷ []) es))
    | inr full ↦
        let n : length queue ≡ 32 = ground arith in
        rw full (
          offers_lem es id queue h
          ∙ ap (λ q. (id, q)) (full_queue queue es n ∙ sym (full_queue queue (e ∷ es) n)))
  ]

  -- Of the events that are published while nobody reads, each channel holds, behind what it held, the
  -- first that fit in its 32 places, in order; no channel is added or lost.
  pub publish_all-exact :
      (es : List (Event D)) (b : Bus.EventBus D)
      → ((c : ℕ × List (Event D)) → Memᴰ c b.chan_subs → length c.1 ≤ 32)
      → (publish_all b es).chan_subs ≡ map (λ c. (c.0, take 32 (c.1 ++ es))) b.chan_subs
  publish_all-exact es b full =
      publish_all-chan_subs es b
      ∙ map_ext (λ c. offers c es) (λ c. (c.0, take 32 (c.1 ++ es))) b.chan_subs
          (λ c m. offers_lem es c.0 c.1 (full c m))
