-- ===== src/Provider/Plan/Safety.antt =====
-- What PlanTarget allows to be deleted.
use cloudhost_firewall_autou.Common.{
  ◌≡◌, ◌≢◌, ◌↔◌, refl, sym, ap, ◌∙◌, subst, Bool, true, false, not, none, List, [], ◌∷◌, is_empty,
  arith, Memᴰ, false≢true, length, any, any-eq_false, All, All-of_mem, select, mem-select,
  mem→contains, ◌≤◌, list_eq,
}
use mathlib.Core.List.Memᴰ.{eq_of_singleton}
use cloudhost_firewall_autou.Strings.{Text, trim_space}
use cloudhost_firewall_autou.Tag
use cloudhost_firewall_autou.Config.{
  CloudType, tc_lighthouse, tc_cvm, ali_swas, ali_ecs, other, RuleInfo,
}
use cloudhost_firewall_autou.Provider.Types.{FunctionalKey, key_eq, TargetPlanInput}
use cloudhost_firewall_autou.Provider.Snapshot.{rules_at, index_snapshot}
use cloudhost_firewall_autou.Provider.Snapshot.Indexed.{keys_of, entry_of}
use cloudhost_firewall_autou.Provider.Snapshot.Counted.{has_key, index-count}
use cloudhost_firewall_autou.Provider.Cleanup.{is_located, is_int64, cleanup_locator_issue}
use cloudhost_firewall_autou.Provider.Cleanup.Settled.{settle-mem, mem-settle}
use cloudhost_firewall_autou.Provider.Plan.{plan_target, snapshot_index, candidates, settled, gate}
use cloudhost_firewall_autou.Provider.Plan.Stale.{
  IsStale, IsOpen, candidate-stale, stale-candidate, gate-IsOpen, gate_of_open,
}

-- How a product finds the rule to delete: by its functions, each of which one rule of the snapshot has,
-- by its index, or by its identifier.
abbrev pub HasLocator : CloudType → List RuleInfo → RuleInfo → Type 0
HasLocator tc_lighthouse rules r = All (λ k. select (has_key k) rules ≡ r ∷ []) (keys_of r)
HasLocator tc_cvm rules r = is_int64 (trim_space r.policy_index) ≡ true
HasLocator _ rules r = trim_space r.rule_id ≢ []

-- A list with at most one element is that element.
only_element : {A : Type 0} (xs : List A) (a : A) → length xs ≤ 1 → Memᴰ a xs → xs ≡ a ∷ []
only_element [] a h m = elim m [ ]
only_element (x ∷ []) a h m = ap (λ y. y ∷ []) (sym (eq_of_singleton m))
only_element (x ∷ y ∷ xs) a h m = absurd (omega (arith, h))

nil_of_test : {A : Type 0} (xs : List A) → is_empty xs ≡ true → xs ≡ []
nil_of_test [] h = refl
nil_of_test (x ∷ xs) h = absurd (false≢true h)

length-nil_of_test : {A : Type 0} (xs : List A) → is_empty xs ≡ true → length xs ≡ 0
length-nil_of_test xs h = ap length (nil_of_test xs h)

-- A key with one owned rule and no external one stands in the snapshot once.
located_unique :
    (tag : Text) (rules : List RuleInfo) (k : FunctionalKey) (r : RuleInfo)
    → is_located (index_snapshot tag rules) k ≡ true
    → Memᴰ r rules
    → Memᴰ k (keys_of r)
    → select (has_key k) rules ≡ r ∷ []
unfolding is_located
located_unique tag rules k r h m mk =
    let one : length (rules_at (index_snapshot tag rules).owned_index k) ≡ 1 = ground arith in
    let alone : is_empty (rules_at (index_snapshot tag rules).external_index k) ≡ true =
      ground arith in
    only_element (select (has_key k) rules) r
      (omega (
        arith,
        one,
        length-nil_of_test (rules_at (index_snapshot tag rules).external_index k) alone,
        index-count tag rules k,
      ))
      ((mem-select (has_key k) rules r).1 (m, mem→contains (keys_of r) k mk))

not-not : {b : Bool} → not b ≡ false → b ≡ true
not-not h = ground arith

locator_of_none :
    (ct : CloudType) (tag : Text) (rules : List RuleInfo) (r : RuleInfo)
    → Memᴰ r rules
    → Tag.is_owned r.description tag ≡ true
    → cleanup_locator_issue ct (index_snapshot tag rules) (entry_of tag r) ≡ none
    → HasLocator ct rules r
unfolding cleanup_locator_issue
locator_of_none tc_lighthouse tag rules r m own h =
    let idx = index_snapshot tag rules in
    let located : any (λ j. not (is_located idx j)) (keys_of r) ≡ false = ground arith in
    All-of_mem (λ k. select (has_key k) rules ≡ r ∷ []) (keys_of r)
      (λ k mk.
        located_unique tag rules k r
          (not-not (any-eq_false (λ j. not (is_located idx j)) (keys_of r) located k mk)) m mk)
locator_of_none tc_cvm tag rules r m own h = ground arith
locator_of_none ali_swas tag rules r m own h = λ e. ground arith
locator_of_none ali_ecs tag rules r m own h = λ e. ground arith
locator_of_none (other name) tag rules r m own h = λ e. ground arith

module _ (input : TargetPlanInput) (r : RuleInfo) where
  abbrev pub Unambiguous : Type 0
  Unambiguous =
      cleanup_locator_issue input.cloud_type (snapshot_index input) (entry_of input.tag r) ≡ none

  deletable-parts :
      Memᴰ r (plan_target input).cleanup_deletable
      → IsStale input r × IsOpen (plan_target input) × Unambiguous
  unfolding plan_target settled
  deletable-parts m =
      let (e, n, same, located, unblocked) =
        settle-mem input.cloud_type (snapshot_index input) (not (is_empty (gate input)))
          (candidates input) r m in
      let (stale, entry) = candidate-stale input e n in
      (
        subst (IsStale input) (sym same) stale,
        gate-IsOpen input (nil_of_test (gate input) (not-not unblocked)),
        subst (λ f. cleanup_locator_issue input.cloud_type (snapshot_index input) f ≡ none)
            (entry ∙ ap (entry_of input.tag) (sym same)) located,
      )

  parts-deletable :
      IsStale input r
      → IsOpen (plan_target input)
      → Unambiguous
      → Memᴰ r (plan_target input).cleanup_deletable
  unfolding plan_target settled
  parts-deletable stale is_open located = rw (gate_of_open input is_open) (
      mem-settle input.cloud_type (snapshot_index input) (candidates input) (entry_of input.tag r)
        (stale-candidate input r stale) located)

  -- A rule may be deleted exactly if it is a rule of the snapshot that this tag owns, that has
  -- canonical keys and none of whose keys is desired (it is stale), if the plan desires something,
  -- has no DNS error, nothing unsupported, no conflict and full coverage (the gate is open), and if
  -- the locator check of the product reports no issue for it.
  pub deletable_exact :
      Memᴰ r (plan_target input).cleanup_deletable
      ↔ (IsStale input r × IsOpen (plan_target input) × Unambiguous)
  deletable_exact = (deletable-parts, λ h. parts-deletable h.0 h.1 h.2)

  -- A rule that may be deleted has what its product needs to find it: on Lighthouse, it is, for each
  -- of its functions, the only entry of the snapshot with the function, so that there is not even a
  -- second rule that equals it; on CVM its index is a 64-bit integer; elsewhere its
  -- identifier is not blank.
  pub deletable-HasLocator :
      Memᴰ r (plan_target input).cleanup_deletable
      → HasLocator input.cloud_type input.snapshot.rules r
  unfolding snapshot_index
  deletable-HasLocator m =
      let (stale, _, located) = deletable-parts m in
      locator_of_none input.cloud_type input.tag input.snapshot.rules r stale.in_snapshot
        stale.owned located
