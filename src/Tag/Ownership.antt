-- ===== src/Tag/Ownership.antt =====
-- Ownership by tag: what `format` writes is owned, `parse` reads it back, and two tags without a
-- closing bracket own disjoint sets of descriptions.
use cloudhost_firewall_autou.Common.{
  ◌≡◌, ◌≢◌, inl, inr, refl, sym, ap, ◌∙◌, true, false, some, [], ◌∷◌, ◌++◌, ◌==◌, nat_eq, list_eq,
  length, drop, arith, ==_iff, ==_refl, All, Bool-cases, append_assoc, append-nil,
}
use cloudhost_firewall_autou.Strings.{Text, has_prefix, trim_space, trim_left, is_space}
use cloudhost_firewall_autou.Tag.{prefix, format, is_owned, parse}

has_prefix-append : (p s : Text) → has_prefix (p ++ s) p ≡ true
unfolding has_prefix
has_prefix-append [] s = refl
has_prefix-append (c ∷ p) s = ground (arith, has_prefix-append p s)

has_prefix-split : (s p : Text) → has_prefix s p ≡ true → (r : Text) × (s ≡ p ++ r)
unfolding has_prefix
has_prefix-split s [] h = (s, refl)
has_prefix-split [] (c ∷ p) h = absurd (ground arith)
has_prefix-split (d ∷ s) (c ∷ p) h =
    let (r, e) = has_prefix-split s p (ground arith) in (r, ground arith)

-- What the bracketed tag is followed by in an owned description: nothing, or one space and a rest.
pub data Owned (tag d : Text) : Type 0 where
  bare : d ≡ prefix tag → Owned tag d
  spaced : (rest : Text) → d ≡ prefix tag ++ b' ' ∷ rest → Owned tag d

pub is_owned→Owned : (d tag : Text) → is_owned d tag ≡ true → Owned tag d
unfolding is_owned
is_owned→Owned d tag h = elim (Bool-cases (d == prefix tag)) [
  | inl same ↦ Owned.bare ((==_iff d (prefix tag)).0 same)
  | inr differ ↦
      let (r, e) = has_prefix-split d (prefix tag ++ b' ' ∷ []) (ground arith) in
      Owned.spaced r (e ∙ append_assoc (prefix tag) (b' ' ∷ []) r)
]

pub is_owned_spaced : (tag rest : Text) → is_owned (prefix tag ++ b' ' ∷ rest) tag ≡ true
unfolding is_owned
is_owned_spaced tag rest =
    rw (sym (append_assoc (prefix tag) (b' ' ∷ []) rest))
      (ground (arith, has_prefix-append (prefix tag ++ b' ' ∷ []) rest))

pub is_owned_bare : (tag : Text) → is_owned (prefix tag) tag ≡ true
unfolding is_owned
is_owned_bare tag = rw (==_refl (prefix tag))

pub format-spaced :
    (tag rest : Text) → b'[' ∷ (tag ++ (b']' ∷ b' ' ∷ rest)) ≡ prefix tag ++ b' ' ∷ rest
format-spaced tag rest = ap (◌∷◌ b'[') (sym (append_assoc tag (b']' ∷ []) (b' ' ∷ rest)))

-- What `format` writes for a tag, with any comment, the tag owns.
pub is_owned-format : (tag comment : Text) → is_owned (format tag comment) tag ≡ true
unfolding format
is_owned-format tag [] = is_owned_bare tag
is_owned-format tag (c ∷ comment) =
    rw (format-spaced tag (c ∷ comment)) (is_owned_spaced tag (c ∷ comment))

drop-append : (p s : Text) → drop (length p) (p ++ s) ≡ s
drop-append [] s = refl
drop-append (c ∷ p) s = drop-append p s

-- The leading space that `format` writes is trimmed.
trim_space-space : (s : Text) → trim_space (b' ' ∷ s) ≡ trim_space s
unfolding trim_space trim_left is_space
trim_space-space s = refl

trim_space-rest :
    (tag comment : Text)
    → trim_space (drop (length (prefix tag)) (format tag comment)) ≡ trim_space comment
unfolding format
trim_space-rest tag [] =
    ap trim_space (
      ap (drop (length (prefix tag))) (sym (append-nil (prefix tag))) ∙ drop-append (prefix tag) [])
trim_space-rest tag (c ∷ comment) =
    rw (format-spaced tag (c ∷ comment), drop-append (prefix tag) (b' ' ∷ c ∷ comment))
      (trim_space-space (c ∷ comment))

-- `parse` reads back, trimmed, the comment that `format` writes, for any tag and comment.
pub parse-format : (tag comment : Text) → parse (format tag comment) tag ≡ some (trim_space comment)
unfolding parse
parse-format tag comment = rw (is_owned-format tag comment) (ap some (trim_space-rest tag comment))

-- A tag that a closing bracket does not interrupt.
abbrev pub NoBracket : Text → Type 0
NoBracket = All (λ c. c ≢ b']')

bracket_unique :
    (s t x y : Text) → NoBracket s → NoBracket t → s ++ b']' ∷ x ≡ t ++ b']' ∷ y → s ≡ t
bracket_unique [] [] x y hs ht e = refl
bracket_unique [] (d ∷ t) x y hs ht e = absurd (ground arith)
bracket_unique (c ∷ s) [] x y hs ht e = absurd (ground arith)
bracket_unique (c ∷ s) (d ∷ t) x y hs ht e = ground (arith, bracket_unique s t x y hs.1 ht.1)

Owned-shape : {tag d : Text} → Owned tag d → (rest : Text) × (d ≡ b'[' ∷ (tag ++ b']' ∷ rest))
Owned-shape {tag} (Owned.bare e) = ([], e)
Owned-shape {tag} (Owned.spaced rest e) = (b' ' ∷ rest, e ∙ sym (format-spaced tag rest))

-- No description is owned by two different tags without a closing bracket.
pub owned_by_one_tag :
    (d s t : Text) → NoBracket s → NoBracket t → s ≢ t → is_owned d s ≡ true → is_owned d t ≡ false
owned_by_one_tag d s t hs ht differ os = elim (Bool-cases (is_owned d t)) [
  | inr foreign ↦ foreign
  | inl ot ↦
      let (x, ex) = Owned-shape (is_owned→Owned d s os) in
      let (y, ey) = Owned-shape (is_owned→Owned d t ot) in
      absurd (differ (bracket_unique s t x y hs ht (ground arith)))
]
