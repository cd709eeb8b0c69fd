-- ===== src/Provider/Snapshot/Indexed.antt =====
-- What the snapshot index holds: each rule once, and at a key the rules that have it.
use cloudhost_firewall_autou.Common.{
  or_empty, is_none, not, subst, ◌≡◌, refl, sym, ap, ◌∙◌, ◌↔◌, Bool, true, false, ◌&&◌, List, [],
  ◌∷◌, ◌++◌, map, foldl, append-nil, append_assoc, if◌then◌else◌, ◌==◌, ==_iff, arith, Memᴰ,
  Bool-cases, Option-cases, inl, inr,
}
use mathlib.Core.List.{flat_map}
use mathlib.Core.List.Memᴰ
use mathlib.Core.List.Memᴰ.{cases_cons, append_left, append_right, append_cases}
use cloudhost_firewall_autou.Strings.{Text}
use cloudhost_firewall_autou.Tag
use cloudhost_firewall_autou.Config.{RuleInfo}
use cloudhost_firewall_autou.Provider.Types.{FunctionalKey, key_eq}
use cloudhost_firewall_autou.Provider.Keys.{snapshot_rule_keys}
use cloudhost_firewall_autou.Provider.Snapshot.{
  Entry, Index, empty_index, rules_at, index_key, index_rule, index_judged, index_snapshot,
}

-- The keys of a snapshot rule; none if it cannot be judged.
abbrev pub keys_of : RuleInfo → List FunctionalKey
keys_of r = or_empty (snapshot_rule_keys r)

abbrev pub is_judged : RuleInfo → Bool
is_judged r = not (is_none (snapshot_rule_keys r))

abbrev pub entry_of : Text → RuleInfo → Entry
entry_of tag r = record {
  rule = r;
  keys = keys_of r;
  owned = is_judged r && Tag.is_owned r.description tag;
}

unfoldable pub pairs_of : RuleInfo → List FunctionalKey → List (FunctionalKey × RuleInfo)
pairs_of r [] = []
pairs_of r (k ∷ ks) = (k, r) ∷ pairs_of r ks

-- What a rule adds to an index that holds the rules with `p`.
abbrev pub pairs_if : (RuleInfo → Bool) → RuleInfo → List (FunctionalKey × RuleInfo)
pairs_if p r = if p r then pairs_of r (keys_of r) else []

abbrev pub owned_by : Text → RuleInfo → Bool
owned_by tag r = Tag.is_owned r.description tag

abbrev pub external_to : Text → RuleInfo → Bool
external_to tag r = not (Tag.is_owned r.description tag)

-- The loop over the keys of one rule.
record KeysIndexed (r : RuleInfo) (owned : Bool) (keys : List FunctionalKey) (idx out : Index)
    : Type 0 where
  entries : out.entries ≡ idx.entries
  owned_index : out.owned_index ≡ idx.owned_index ++ (if owned then pairs_of r keys else [])
  external_index :
      out.external_index ≡ idx.external_index ++ (if not owned then pairs_of r keys else [])

index_keys_lem :
    (r : RuleInfo) (owned : Bool) (keys : List FunctionalKey) (idx : Index)
    → KeysIndexed r owned keys idx (foldl (index_key r owned) idx keys)
unfolding index_key pairs_of
index_keys_lem r true [] idx = record {
  entries = refl;
  owned_index = sym (append-nil _);
  external_index = sym (append-nil _);
}
index_keys_lem r false [] idx = record {
  entries = refl;
  owned_index = sym (append-nil _);
  external_index = sym (append-nil _);
}
index_keys_lem r true (k ∷ ks) idx =
    let h = index_keys_lem r true ks (index_key r true idx k) in
    record {
      entries = h.entries;
      owned_index = h.owned_index ∙ append_assoc idx.owned_index _ _;
      external_index = h.external_index;
    }
index_keys_lem r false (k ∷ ks) idx =
    let h = index_keys_lem r false ks (index_key r false idx k) in
    record {
      entries = h.entries;
      owned_index = h.owned_index;
      external_index = h.external_index ∙ append_assoc idx.external_index _ _;
    }

-- The loop over the rules.
record RulesIndexed (tag : Text) (rules : List RuleInfo) (idx out : Index) : Type 0 where
  entries : out.entries ≡ idx.entries ++ map (entry_of tag) rules
  owned_index : out.owned_index ≡ idx.owned_index ++ flat_map (pairs_if (owned_by tag)) rules
  external_index :
      out.external_index ≡ idx.external_index ++ flat_map (pairs_if (external_to tag)) rules

no_pairs :
    (b : Bool) (index : List (FunctionalKey × RuleInfo)) → index ≡ index ++ (if b then [] else [])
no_pairs true index = sym (append-nil index)
no_pairs false index = sym (append-nil index)

index_one_lem :
    (tag : Text) (r : RuleInfo) (idx : Index)
    → ((index_rule tag idx r).entries ≡ idx.entries ++ entry_of tag r ∷ [])
      × ((index_rule tag idx r).owned_index ≡ idx.owned_index ++ pairs_if (owned_by tag) r)
      × ((index_rule tag idx r).external_index ≡ idx.external_index ++ pairs_if (external_to tag) r)
unfolding index_rule pairs_of
index_one_lem tag r idx = elim (Option-cases (snapshot_rule_keys r)) [
  | inl unjudged ↦
      let owned = Tag.is_owned r.description tag in
      rw (unjudged, index_judged)
        (refl, no_pairs owned idx.owned_index, no_pairs (not owned) idx.external_index)
  | inr (keys, judged) ↦
      let owned = Tag.is_owned r.description tag in
      let idx' = record idx {
        entries = idx.entries ++ record { rule = r; keys = keys; owned = owned } ∷ [];
      } in
      let h = index_keys_lem r owned keys idx' in
      rw (judged, index_judged) (h.entries, h.owned_index, h.external_index)
]

index_rules_lem :
    (tag : Text) (rules : List RuleInfo) (idx : Index)
    → RulesIndexed tag rules idx (foldl (index_rule tag) idx rules)
unfolding flat_map
index_rules_lem tag [] idx = record {
  entries = sym (append-nil _);
  owned_index = sym (append-nil _);
  external_index = sym (append-nil _);
}
index_rules_lem tag (r ∷ rules) idx =
    let h = index_rules_lem tag rules (index_rule tag idx r) in
    let (entries, owned, external) = index_one_lem tag r idx in
    record {
      entries =
          h.entries
          ∙ ap (λ l. l ++ map (entry_of tag) rules) entries
          ∙ append_assoc idx.entries _ _;
      owned_index =
          h.owned_index
          ∙ ap (λ l. l ++ flat_map (pairs_if (owned_by tag)) rules) owned
          ∙ append_assoc idx.owned_index _ _;
      external_index =
          h.external_index
          ∙ ap (λ l. l ++ flat_map (pairs_if (external_to tag)) rules) external
          ∙ append_assoc idx.external_index _ _;
    }

module _ (tag : Text) (rules : List RuleInfo) where
  pub entries-index_snapshot : (index_snapshot tag rules).entries ≡ map (entry_of tag) rules
  unfolding index_snapshot
  entries-index_snapshot = (index_rules_lem tag rules empty_index).entries

  pub owned_index-index_snapshot :
      (index_snapshot tag rules).owned_index ≡ flat_map (pairs_if (owned_by tag)) rules
  unfolding index_snapshot
  owned_index-index_snapshot = (index_rules_lem tag rules empty_index).owned_index

  pub external_index-index_snapshot :
      (index_snapshot tag rules).external_index ≡ flat_map (pairs_if (external_to tag)) rules
  unfolding index_snapshot
  external_index-index_snapshot = (index_rules_lem tag rules empty_index).external_index

-- What an index holds at a key, as membership.
pub rules_at-append :
    (xs ys : List (FunctionalKey × RuleInfo)) (k : FunctionalKey)
    → rules_at (xs ++ ys) k ≡ rules_at xs k ++ rules_at ys k
unfolding rules_at
rules_at-append [] ys k = refl
rules_at-append ((j, r) ∷ xs) ys k = ground (arith, rules_at-append xs ys k)

mem-pairs_of :
    (r : RuleInfo) (ks : List FunctionalKey) (k : FunctionalKey)
    → Memᴰ k ks
    → Memᴰ r (rules_at (pairs_of r ks) k)
unfolding rules_at pairs_of
mem-pairs_of r [] k m = elim m [ ]
mem-pairs_of r (j ∷ ks) k (Memᴰ.head e) = rw ((==_iff j k).1 (sym e)) (Memᴰ.head refl)
mem-pairs_of r (j ∷ ks) k (Memᴰ.tail m) = elim (Bool-cases (j == k)) [
  | inl same ↦ rw same (Memᴰ.head refl)
  | inr differ ↦ rw differ (mem-pairs_of r ks k m)
]

pairs_of-mem :
    (r s : RuleInfo) (ks : List FunctionalKey) (k : FunctionalKey)
    → Memᴰ s (rules_at (pairs_of r ks) k)
    → (s ≡ r) × Memᴰ k ks
unfolding rules_at pairs_of
pairs_of-mem r s [] k m = elim m [ ]
pairs_of-mem r s (j ∷ ks) k m = elim (Bool-cases (j == k)) [
  | inl same ↦ elim (cases_cons (rw same at m)) [
    | inl here ↦ (here, Memᴰ.head (sym ((==_iff j k).0 same)))
    | inr later ↦ let h = pairs_of-mem r s ks k later in (h.0, Memᴰ.tail h.1)
  ]
  | inr differ ↦ let h = pairs_of-mem r s ks k (rw differ at m) in (h.0, Memᴰ.tail h.1)
]

-- `s` is one of the rules, and has the key.
abbrev pub Holds : List RuleInfo → FunctionalKey → RuleInfo → Type 0
Holds rules k s = Memᴰ s rules × Memᴰ k (keys_of s)

module _ (p : RuleInfo → Bool) (k : FunctionalKey) where
  mem-pairs_if :
      (s : RuleInfo) → Memᴰ k (keys_of s) → p s ≡ true → Memᴰ s (rules_at (pairs_if p s) k)
  mem-pairs_if s h ps = rw ps (mem-pairs_of s (keys_of s) k h)

  pairs_if-mem :
      (r s : RuleInfo)
      → Memᴰ s (rules_at (pairs_if p r) k)
      → (s ≡ r) × Memᴰ k (keys_of r) × (p r ≡ true)
  unfolding rules_at
  pairs_if-mem r s m = elim (Bool-cases (p r)) [
    | inl pr ↦ let h = pairs_of-mem r s (keys_of r) k (rw pr at m) in (h.0, h.1, pr)
    | inr npr ↦ absurd (Memᴰ.not-nil (rw npr at m))
  ]

  mem-flat :
      (rules : List RuleInfo) (s : RuleInfo)
      → Holds rules k s
      → p s ≡ true
      → Memᴰ s (rules_at (flat_map (pairs_if p) rules) k)
  unfolding flat_map
  mem-flat [] s (m, h) ps = elim m [ ]
  mem-flat (r ∷ rules) s (m, h) ps =
      let rest = flat_map (pairs_if p) rules in
      rw (rules_at-append (pairs_if p r) rest k) (elim (cases_cons m) [
        | inl here ↦
            append_left (rules_at rest k)
              (subst (λ q. Memᴰ s (rules_at (pairs_if p q) k)) here (mem-pairs_if s h ps))
        | inr later ↦ append_right (rules_at (pairs_if p r) k) (mem-flat rules s (later, h) ps)
      ])

  flat-mem :
      (rules : List RuleInfo) (s : RuleInfo)
      → Memᴰ s (rules_at (flat_map (pairs_if p) rules) k)
      → Holds rules k s × (p s ≡ true)
  unfolding flat_map rules_at
  flat-mem [] s m = elim m [ ]
  flat-mem (r ∷ rules) s m =
      let rest = flat_map (pairs_if p) rules in
      elim (append_cases (rules_at (pairs_if p r) k)
        (subst (Memᴰ s) (rules_at-append (pairs_if p r) rest k) m)) [
          | inl here ↦ let (e, h, pr) = pairs_if-mem r s here in ((Memᴰ.head e, rw e h), rw e pr)
          | inr later ↦ let (h, ps) = flat-mem rules s later in ((Memᴰ.tail h.0, h.1), ps)
        ]

module _ (tag : Text) (rules : List RuleInfo) (k : FunctionalKey) (s : RuleInfo) where
  -- The owned index holds at a key the owned rules of the snapshot that have the key.
  pub mem-owned_index :
      Memᴰ s (rules_at (index_snapshot tag rules).owned_index k)
      ↔ (Holds rules k s × (Tag.is_owned s.description tag ≡ true))
  mem-owned_index =
      rw (owned_index-index_snapshot tag rules)
        (flat-mem (owned_by tag) k rules s, λ h. mem-flat (owned_by tag) k rules s h.0 h.1)

  pub mem-external_index :
      Memᴰ s (rules_at (index_snapshot tag rules).external_index k)
      ↔ (Holds rules k s × (external_to tag s ≡ true))
  mem-external_index =
      rw (external_index-index_snapshot tag rules)
        (flat-mem (external_to tag) k rules s, λ h. mem-flat (external_to tag) k rules s h.0 h.1)
