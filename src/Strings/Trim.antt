-- ===== src/Strings/Trim.antt =====
-- strings.TrimSpace, and that it is idempotent.
use cloudhost_firewall_autou.Common.{
  ℕ, ◌≡◌, refl, ap, Bool, true, false, ◌&&◌, ◌||◌, List, [], ◌∷◌, arith, leb, ◌==◌, if◌then◌else◌,
  is_empty, nat_eq, ◌∙◌,
}

abbrev pub Text : Type 0
Text = List ℕ

-- unicode.IsSpace.
unfoldable pub is_space : ℕ → Bool
is_space c =
    (leb 9 c && leb c 13)
    || ((c == 32)
        || ((c == 0x85)
            || ((c == 0xa0)
                || ((c == 0x1680)
                    || ((leb 0x2000 c && leb c 0x200a)
                        || ((c == 0x2028)
                            || ((c == 0x2029)
                                || ((c == 0x202f) || ((c == 0x205f) || (c == 0x3000))))))))))

unfoldable pub trim_left : Text → Text
trim_left [] = []
trim_left (c ∷ s) = if is_space c then trim_left s else c ∷ s

unfoldable pub trim_right : Text → Text
trim_right [] = []
trim_right (c ∷ s) = let r = trim_right s in if is_space c && is_empty r then [] else c ∷ r

unfoldable pub trim_space : Text → Text
unfolding trim_left trim_right
trim_space s = trim_right (trim_left s)

trim_right_idem : (s : Text) → trim_right (trim_right s) ≡ trim_right s
unfolding trim_right
trim_right_idem [] = refl
trim_right_idem (c ∷ s) = ground (arith, trim_right_idem s)

-- Whether a text is empty or begins with no space.
abbrev pub starts_solid : Text → Bool
starts_solid [] = true
starts_solid (c ∷ s) = elim (is_space c) [ true ↦ false | false ↦ true ]

trim_left-solid : (s : Text) → starts_solid (trim_left s) ≡ true
unfolding trim_left
trim_left-solid [] = refl
trim_left-solid (c ∷ s) = ground (arith, trim_left-solid s)

trim_left_of_solid : (s : Text) → starts_solid s ≡ true → trim_left s ≡ s
unfolding trim_left
trim_left_of_solid [] h = refl
trim_left_of_solid (c ∷ s) h = ground arith

trim_right-solid : (s : Text) → starts_solid s ≡ true → starts_solid (trim_right s) ≡ true
unfolding trim_right
trim_right-solid [] h = refl
trim_right-solid (c ∷ s) h = ground arith

pub trim_space_solid : (s : Text) → starts_solid (trim_space s) ≡ true
unfolding trim_space
trim_space_solid s = trim_right-solid (trim_left s) (trim_left-solid s)

-- Trimming what is trimmed changes nothing.
pub trim_space_idem : (s : Text) → trim_space (trim_space s) ≡ trim_space s
trim_space_idem s =
    unfold trim_space in
    ap trim_right (
      trim_left_of_solid (trim_right (trim_left s))
        (trim_right-solid (trim_left s) (trim_left-solid s)))
    ∙ trim_right_idem (trim_left s)
