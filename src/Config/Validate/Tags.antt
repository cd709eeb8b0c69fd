-- ===== src/Config/Validate/Tags.antt =====
-- A TAG that has passed its check, and the descriptions that are written with it.
use cloudhost_firewall_autou.Common.{
  ℕ, ◌≤◌, ◌≡◌, ◌≢◌, ◌↔◌, refl, sym, ap, ◌∙◌, subst, true, false, ◌||◌, some, [], ◌∷◌, is_empty,
  length, any, ◌==◌, nat_eq, arith,
}
use cloudhost_firewall_autou.Strings.{Text, trim_space}
use cloudhost_firewall_autou.Tag.{is_owned}
use cloudhost_firewall_autou.Tag.Ownership.{NoBracket}
use cloudhost_firewall_autou.Config.{CloudType}
use cloudhost_firewall_autou.Provider.Description.{render_description, max_description}
use cloudhost_firewall_autou.Provider.Description.Kept.{
  render_description-owned, length-render_description,
}
use cloudhost_firewall_autou.Config.Validate

-- What a TAG has to be.
pub record IsTag (s : Text) : Type 0 where
  pub filled : s ≢ []
  pub short : length s ≤ 48
  pub plain : any (λ c. (c == b'[') || (c == b']')) s ≡ false
  pub printable : Validate.has_control_char s ≡ false

is_empty-false : (s : Text) → s ≢ [] → is_empty s ≡ false
is_empty-false [] h = absurd (h refl)
is_empty-false (c ∷ s) h = refl

accepted-IsTag :
    (v s : Text) → Validate.normalize_tag v ≡ Validate.valid s → (s ≡ trim_space v) × IsTag s
unfolding Validate.normalize_tag
accepted-IsTag v s h = ground arith

IsTag-accepted :
    (v : Text) → IsTag (trim_space v) → Validate.normalize_tag v ≡ Validate.valid (trim_space v)
unfolding Validate.normalize_tag
IsTag-accepted v t = ground (arith, is_empty-false (trim_space v) t.filled)

-- A text is accepted as a TAG exactly if its trimmed form is not empty, has at most 48 code points,
-- no square bracket and no control character, and the result is this form.
pub normalize_tag_exact :
    (v s : Text) → (Validate.normalize_tag v ≡ Validate.valid s) ↔ ((s ≡ trim_space v) × IsTag s)
normalize_tag_exact v s =
    (accepted-IsTag v s, λ (e, t). IsTag-accepted v (subst IsTag e t) ∙ ap Validate.valid (sym e))

no_bracket : (s : Text) → any (λ c. (c == b'[') || (c == b']')) s ≡ false → NoBracket s
unfolding any
no_bracket [] h = tt
no_bracket (c ∷ s) h = (λ e. ground arith, no_bracket s (ground arith))

limit-le : (ct : CloudType) (n : ℕ) → max_description ct ≡ some n → 50 ≤ n
limit-le ct n h = ground arith

module _ (v s : Text) (accepted : Validate.normalize_tag v ≡ Validate.valid s) where
  -- For a TAG that the check has accepted, on each product for which the program knows a limit of the
  -- description, every description that it writes, whatever the comment, is owned by the TAG and no
  -- longer than this limit.
  pub accepted_tag_owns :
      (ct : CloudType) (comment : Text) (n : ℕ)
      → max_description ct ≡ some n
      → (is_owned (render_description ct s comment) s ≡ true)
        × (length (render_description ct s comment) ≤ n)
  accepted_tag_owns ct comment n e =
      let (_, t) = accepted-IsTag v s accepted in
      let tag_plain = no_bracket s t.plain in
      let room = limit-le ct n e in
      let short = t.short in
      (
        render_description-owned s tag_plain ct comment,
        length-render_description s tag_plain ct comment n e (omega arith),
      )
