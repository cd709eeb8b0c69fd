-- ===== src/Provider/Description/Kept.antt =====
-- A description that is cut to a product's limit stays in the namespace of its tag.
use cloudhost_firewall_autou.Common.{
  ℕ, zero, suc, ◌+◌, ◌-◌, ◌≤◌, ◌≡◌, refl, sym, ap, ◌∙◌, subst, true, Option, none, some, [], ◌∷◌,
  ◌++◌, append-nil, append_assoc, arith, leb, ltb, length, take, length-append, Bool-cases, inl,
  inr,
}
use cloudhost_firewall_autou.Strings.{Text, cut}
use cloudhost_firewall_autou.Tag.{prefix, format, is_owned}
use cloudhost_firewall_autou.Tag.Ownership.{
  NoBracket, is_owned_bare, is_owned_spaced, is_owned-format,
}
use cloudhost_firewall_autou.Config.{CloudType}
use cloudhost_firewall_autou.Provider.Description.{
  max_description, bracketed, limit_to, truncate_to, truncate_description, render_description,
}

take-append : (n : ℕ) (p s : Text) → length p ≤ n → take n (p ++ s) ≡ p ++ take (n - length p) s
take-append n [] s h = ap (λ k. take k s) (omega arith)
take-append zero (c ∷ p) s h = absurd (omega arith)
take-append (suc n) (c ∷ p) s h =
    ap (◌∷◌ c) (take-append n p s (omega arith) ∙ ap (λ k. p ++ take k s) (omega arith))

take-nil : (n : ℕ) → take {A = ℕ} n [] ≡ []
take-nil zero = refl
take-nil (suc n) = refl

length-take-le : (n : ℕ) (s : Text) → length (take n s) ≤ n
length-take-le zero s = omega arith
length-take-le (suc n) [] = omega arith
length-take-le (suc n) (c ∷ s) = omega (arith, length-take-le n s)

cut-bracket : (tag rest : Text) → NoBracket tag → cut b']' (tag ++ b']' ∷ rest) ≡ some (tag, rest)
unfolding cut
cut-bracket [] rest h = refl
cut-bracket (c ∷ tag) rest h = ground (arith, cut-bracket tag rest h.1)

bracketed-prefix :
    (tag rest : Text) → NoBracket tag → bracketed (b'[' ∷ (tag ++ b']' ∷ rest)) ≡ some (prefix tag)
unfolding cut
bracketed-prefix tag rest h = ground (arith, cut-bracket tag rest h)

-- What follows the bracketed tag in a formatted description.
tail_of : Text → Text
tail_of [] = []
tail_of (c ∷ comment) = b' ' ∷ c ∷ comment

format-shape : (tag comment : Text) → format tag comment ≡ b'[' ∷ (tag ++ b']' ∷ tail_of comment)
unfolding format tail_of
format-shape tag [] = refl
format-shape tag (c ∷ comment) = refl

tail-spaced :
    (tag : Text) (c : ℕ) (s : Text) → is_owned (prefix tag ++ take c (b' ' ∷ s)) tag ≡ true
tail-spaced tag zero s = rw (append-nil (prefix tag)) (is_owned_bare tag)
tail-spaced tag (suc c) s = is_owned_spaced tag (take c s)

format-prefix : (tag comment : Text) → format tag comment ≡ prefix tag ++ tail_of comment
format-prefix tag comment =
    format-shape tag comment ∙ ap (◌∷◌ b'[') (sym (append_assoc tag (b']' ∷ []) (tail_of comment)))

take-owned :
    (tag : Text) (n : ℕ) (comment : Text)
    → length (prefix tag) ≤ n
    → is_owned (take n (format tag comment)) tag ≡ true
unfolding tail_of
take-owned tag n comment fits =
    subst (λ s. is_owned s tag ≡ true)
      (sym (
        ap (take n) (format-prefix tag comment)
        ∙ take-append n (prefix tag) (tail_of comment) fits))
      (kept comment)
  where
    kept :
        (s : Text) → is_owned (prefix tag ++ take (n - length (prefix tag)) (tail_of s)) tag ≡ true
    kept [] = rw (take-nil (n - length (prefix tag)), append-nil (prefix tag)) (is_owned_bare tag)
    kept (c ∷ s) = tail-spaced tag (n - length (prefix tag)) (c ∷ s)

module _ (tag : Text) (h : NoBracket tag) where
  bracketed-format : (comment : Text) → bracketed (format tag comment) ≡ some (prefix tag)
  bracketed-format comment =
      ap bracketed (format-shape tag comment) ∙ bracketed-prefix tag (tail_of comment) h

  truncate_to-owned :
      (n : ℕ) (comment : Text)
      → is_owned (truncate_to n (format tag comment) (bracketed (format tag comment))) tag ≡ true
  truncate_to-owned n comment =
      rw (bracketed-format comment) (elim (Bool-cases (ltb n (length (prefix tag)))) [
        | inl over ↦ rw over (is_owned_bare tag)
        | inr fits ↦ rw fits (take-owned tag n comment (ground arith))
      ])

  limit_to-owned :
      (limit : Option ℕ) (comment : Text)
      → is_owned (limit_to limit (format tag comment)) tag ≡ true
  limit_to-owned none comment = is_owned-format tag comment
  limit_to-owned (some n) comment = elim (Bool-cases (leb (length (format tag comment)) n)) [
    | inl short ↦ rw short (is_owned-format tag comment)
    | inr long ↦ rw long (truncate_to-owned n comment)
  ]

  -- For a tag without a closing bracket, the description that the program writes is owned by the
  -- tag on every product, whatever the comment and however it is cut.
  pub render_description-owned :
      (ct : CloudType) (comment : Text) → is_owned (render_description ct tag comment) tag ≡ true
  unfolding render_description truncate_description
  render_description-owned ct comment = limit_to-owned (max_description ct) comment

  -- For a tag without a closing bracket that fits with its brackets, the description is no longer
  -- than the product's limit.
  pub length-render_description :
      (ct : CloudType) (comment : Text) (n : ℕ)
      → max_description ct ≡ some n
      → length tag + 2 ≤ n
      → length (render_description ct tag comment) ≤ n
  unfolding render_description truncate_description
  length-render_description ct comment n limit fits =
      rw limit (elim (Bool-cases (leb (length (format tag comment)) n)) [
        | inl short ↦ rw short (ground arith)
        | inr long ↦
            rw (long, bracketed-format comment)
              (ground (arith, length-append tag (b']' ∷ []), length-take-le n (format tag comment)))
      ])
