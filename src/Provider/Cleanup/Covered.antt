-- ===== src/Provider/Cleanup/Covered.antt =====
-- The coverage loop against the tests that it makes: what it adds, and what it counts.
use cloudhost_firewall_autou.Common.{
  ◌+◌, ◌<◌, ◌≡◌, ◌≢◌, ◌↔◌, refl, sym, ap, ◌∙◌, Bool, true, false, not, ◌&&◌, List, [], ◌∷◌, ◌++◌,
  map, foldl, is_empty, arith, length, length-append, List-cases, select, append-nil, append_assoc,
  nat_eq, nil_of_length, inl, inr,
}
use mathlib.Core.List.{map-append}
use cloudhost_firewall_autou.Config.{RuleInfo}
use cloudhost_firewall_autou.Provider.Types.{key_eq, PlannedRule, PlanMatch}
use cloudhost_firewall_autou.Provider.Snapshot.{Index, rules_at}
use cloudhost_firewall_autou.Provider.Cleanup.{
  Coverage, no_coverage, cover_by, cover_one, cover, coverage_ready,
}

length_pos : {A : Type 0} (xs : List A) → xs ≢ [] → 0 < length xs
length_pos [] h = absurd (h refl)
length_pos (x ∷ xs) h = omega arith

module _ (idx : Index) where
  abbrev pub held_owned : PlannedRule → Bool
  held_owned d = not (is_empty (rules_at idx.owned_index d.key))

  abbrev pub held_external : PlannedRule → Bool
  held_external d = not (is_empty (rules_at idx.external_index d.key))

  -- A function that could be written and that no rule of the snapshot has.
  abbrev pub is_missing : PlannedRule → Bool
  is_missing d = d.implementable && (not (held_owned d) && not (held_external d))

  abbrev pub only_external : PlannedRule → Bool
  only_external d = not (held_owned d) && held_external d

  record Covers (c : Coverage) (ds : List PlannedRule) (out : Coverage) : Type 0 where
    to_add : out.to_add ≡ c.to_add ++ map (λ d. d.action) (select is_missing ds)
    by_owned :
        map (λ m. m.key) out.satisfied_by_owned
        ≡ map (λ m. m.key) c.satisfied_by_owned ++ map (λ d. d.key) (select held_owned ds)
    by_external :
        map (λ m. m.key) out.satisfied_by_external
        ≡ map (λ m. m.key) c.satisfied_by_external ++ map (λ d. d.key) (select only_external ds)
    implementable : out.implementable ≡ c.implementable + length (select (λ d. d.implementable) ds)
    covered :
        out.covered + length (select is_missing ds)
        ≡ c.covered + length (select (λ d. d.implementable) ds)

  -- One round of the loop, by what the indexes hold at the key.
  cover_by_owned :
      (d : PlannedRule) (c : Coverage) (r : RuleInfo) (rs : List RuleInfo)
      → rules_at idx.owned_index d.key ≡ r ∷ rs
      → Covers c (d ∷ []) (cover_one idx c d)
  unfolding cover_one select
  cover_by_owned d c r rs h = record {
    to_add = ground (arith, append-nil c.to_add);
    by_owned = rw (h, cover_by) (map-append (λ (m : PlanMatch). m.key) c.satisfied_by_owned _);
    by_external = ground (arith, append-nil (map (λ m. m.key) c.satisfied_by_external));
    implementable = ground arith;
    covered = ground arith;
  }

  cover_by_external :
      (d : PlannedRule) (c : Coverage) (r : RuleInfo) (rs : List RuleInfo)
      → rules_at idx.owned_index d.key ≡ []
      → rules_at idx.external_index d.key ≡ r ∷ rs
      → Covers c (d ∷ []) (cover_one idx c d)
  unfolding cover_one select
  cover_by_external d c r rs h k = record {
    to_add = ground (arith, append-nil c.to_add);
    by_owned = ground (arith, append-nil (map (λ m. m.key) c.satisfied_by_owned));
    by_external =
        rw (h, k, cover_by, cover_one)
          (map-append (λ (m : PlanMatch). m.key) c.satisfied_by_external _);
    implementable = ground arith;
    covered = ground arith;
  }

  cover_by_none :
      (d : PlannedRule) (c : Coverage)
      → rules_at idx.owned_index d.key ≡ []
      → rules_at idx.external_index d.key ≡ []
      → Covers c (d ∷ []) (cover_one idx c d)
  unfolding cover_one select
  cover_by_none d c h k = record {
    to_add = ground (arith, append-nil c.to_add);
    by_owned = ground (arith, append-nil (map (λ m. m.key) c.satisfied_by_owned));
    by_external = ground (arith, append-nil (map (λ m. m.key) c.satisfied_by_external));
    implementable = ground arith;
    covered = ground arith;
  }

  cover_one_lem : (d : PlannedRule) (c : Coverage) → Covers c (d ∷ []) (cover_one idx c d)
  cover_one_lem d c = elim (List-cases (rules_at idx.owned_index d.key)) [
    | inr (r, rs, h) ↦ cover_by_owned d c r rs h
    | inl h ↦ elim (List-cases (rules_at idx.external_index d.key)) [
      | inr (r, rs, k) ↦ cover_by_external d c r rs h k
      | inl k ↦ cover_by_none d c h k
    ]
  ]

  select-cons :
      (p : PlannedRule → Bool) (d : PlannedRule) (ds : List PlannedRule)
      → select p (d ∷ ds) ≡ select p (d ∷ []) ++ select p ds
  unfolding select
  select-cons p d ds = ground arith

  joined :
      {B : Type 0} (f : PlannedRule → B) (p : PlannedRule → Bool) (d : PlannedRule)
      (ds : List PlannedRule) (before : List B)
      → (before ++ map f (select p (d ∷ []))) ++ map f (select p ds)
        ≡ before ++ map f (select p (d ∷ ds))
  joined f p d ds before =
      append_assoc before _ _
      ∙ ap (◌++◌ before) (sym (map-append f (select p (d ∷ [])) (select p ds)))
      ∙ ap (λ l. before ++ map f l) (sym (select-cons p d ds))

  Covers-cons :
      {c m out : Coverage} (d : PlannedRule) (ds : List PlannedRule)
      → Covers c (d ∷ []) m
      → Covers m ds out
      → Covers c (d ∷ ds) out
  Covers-cons {c} {m} {out} d ds h k = record {
    to_add =
        k.to_add
        ∙ ap (λ l. l ++ map (λ e. e.action) (select is_missing ds)) h.to_add
        ∙ joined (λ e. e.action) is_missing d ds c.to_add;
    by_owned =
        k.by_owned
        ∙ ap (λ l. l ++ map (λ e. e.key) (select held_owned ds)) h.by_owned
        ∙ joined (λ e. e.key) held_owned d ds (map (λ m. m.key) c.satisfied_by_owned);
    by_external =
        k.by_external
        ∙ ap (λ l. l ++ map (λ e. e.key) (select only_external ds)) h.by_external
        ∙ joined (λ e. e.key) only_external d ds (map (λ m. m.key) c.satisfied_by_external);
    implementable = omega (
      arith,
      h.implementable,
      k.implementable,
      ap length (select-cons (λ e. e.implementable) d ds),
      length-append (select (λ e. e.implementable) (d ∷ [])) (select (λ e. e.implementable) ds),
    );
    covered = omega (
      arith,
      h.covered,
      k.covered,
      ap length (select-cons (λ e. e.implementable) d ds),
      length-append (select (λ e. e.implementable) (d ∷ [])) (select (λ e. e.implementable) ds),
      ap length (select-cons is_missing d ds),
      length-append (select is_missing (d ∷ [])) (select is_missing ds),
    );
  }

  cover_lem : (ds : List PlannedRule) (c : Coverage) → Covers c ds (foldl (cover_one idx) c ds)
  unfolding select
  cover_lem [] c = record {
    to_add = sym (append-nil _);
    by_owned = sym (append-nil _);
    by_external = sym (append-nil _);
    implementable = omega arith;
    covered = omega arith;
  }
  cover_lem (d ∷ ds) c = Covers-cons d ds (cover_one_lem d c) (cover_lem ds (cover_one idx c d))

  module _ (ds : List PlannedRule) where
    pub to_add-cover : (cover idx ds).to_add ≡ map (λ d. d.action) (select is_missing ds)
    unfolding cover
    to_add-cover = (cover_lem ds no_coverage).to_add

    pub by_owned-cover :
        map (λ m. m.key) (cover idx ds).satisfied_by_owned ≡ map (λ d. d.key) (select held_owned ds)
    unfolding cover
    by_owned-cover = (cover_lem ds no_coverage).by_owned

    pub by_external-cover :
        map (λ m. m.key) (cover idx ds).satisfied_by_external
        ≡ map (λ d. d.key) (select only_external ds)
    unfolding cover
    by_external-cover = (cover_lem ds no_coverage).by_external

    -- Full coverage is something implementable, and nothing missing.
    pub coverage_ready_iff :
        (unknown : Bool)
        → (coverage_ready (cover idx ds) unknown ≡ true) ↔ (
            (select (λ d. d.implementable) ds ≢ [])
            × (select is_missing ds ≡ [])
            × (unknown ≡ false))
    unfolding coverage_ready cover
    coverage_ready_iff unknown =
        let h = cover_lem ds no_coverage in
        let n = h.implementable in
        let m = h.covered in
        (
          λ r. (
            λ e. absurd (ground (arith, ap length e)),
            nil_of_length (select is_missing ds) (ground arith),
            ground arith,
          ),
          λ (some_one, nothing, known).
              ground
                (arith, length_pos (select (λ d. d.implementable) ds) some_one, ap length nothing),
        )
