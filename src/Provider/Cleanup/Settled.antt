-- ===== src/Provider/Cleanup/Settled.antt =====
-- Which candidates may be deleted: those with a locator, once nothing blocks the gate.
use cloudhost_firewall_autou.Common.{
  ◌≡◌, ◌≢◌, ◌↔◌, refl, ap, Bool, true, false, Option, none, some, List, [], ◌∷◌, foldl, subst, ◌⊎◌,
  ◌≤◌, append-eq_nil, map-eq_nil, contains, sort_by, length-sort_by, is_empty, arith, Memᴰ, inl,
  inr, false≢true, length, length-append, nil_of_length, if◌then◌else◌,
}
use mathlib.Core.List.Memᴰ.{cases_cons}
use cloudhost_firewall_autou.Config.{CloudType, RuleInfo}
use cloudhost_firewall_autou.Provider.Types.{
  IssueCode, code_text, fixed, about_count, desired_empty, dns_failed, coverage_not_ready,
  PlanIssue, PlannedRule,
}
use cloudhost_firewall_autou.Strings.{text_lt}
use cloudhost_firewall_autou.Provider.Snapshot.{Entry, Index, plain_issue}
use cloudhost_firewall_autou.Provider.Cleanup.{
  sort_issues, issue_lt, settle, settle_as, add_code, distinct_issue_codes, cleanup_locator_issue,
  gate_issues,
}

settle_as-mem :
    (blocked : Bool) (q : RuleInfo) (o : Option PlanIssue) (rest : List PlanIssue × List RuleInfo)
    (r : RuleInfo)
    → Memᴰ r (settle_as blocked q o rest).1
    → ((o ≡ none) × (blocked ≡ false) × (r ≡ q)) ⊎ Memᴰ r rest.1
settle_as-mem blocked q (some issue) rest r m = inr m
settle_as-mem true q none rest r m = inr m
settle_as-mem false q none rest r m = elim (cases_cons m) [
  | inl here ↦ inl (refl, refl, here)
  | inr later ↦ inr later
]

mem-settle_as :
    (blocked : Bool) (q : RuleInfo) (o : Option PlanIssue) (rest : List PlanIssue × List RuleInfo)
    (r : RuleInfo)
    → Memᴰ r rest.1
    → Memᴰ r (settle_as blocked q o rest).1
mem-settle_as blocked q (some issue) rest r m = m
mem-settle_as true q none rest r m = m
mem-settle_as false q none rest r m = Memᴰ.tail m

module _ (ct : CloudType) (idx : Index) where
  -- What is deletable is a candidate without a locator issue, behind an open gate.
  pub settle-mem :
      (blocked : Bool) (es : List Entry) (r : RuleInfo)
      → Memᴰ r (settle ct idx blocked es).1
      → (e : Entry) × Memᴰ e es
        × (r ≡ e.rule)
        × (cleanup_locator_issue ct idx e ≡ none)
        × (blocked ≡ false)
  unfolding settle
  settle-mem blocked [] r m = elim m [ ]
  settle-mem blocked (e ∷ es) r m =
      elim (settle_as-mem blocked e.rule (cleanup_locator_issue ct idx e) (settle ct idx blocked es)
        r m) [
          | inl (located, unblocked, same) ↦ (e, Memᴰ.head refl, same, located, unblocked)
          | inr later ↦
              let (f, n, same, located, unblocked) = settle-mem blocked es r later in
              (f, Memᴰ.tail n, same, located, unblocked)
        ]

  -- Behind an open gate every candidate without a locator issue is deletable.
  pub mem-settle :
      (es : List Entry) (e : Entry)
      → Memᴰ e es
      → cleanup_locator_issue ct idx e ≡ none
      → Memᴰ e.rule (settle ct idx false es).1
  unfolding settle
  mem-settle [] e m h = elim m [ ]
  mem-settle (f ∷ es) e (Memᴰ.head same) h =
      rw (subst (λ g. cleanup_locator_issue ct idx g ≡ none) same h)
        (Memᴰ.head (ap (λ g. g.rule) same))
  mem-settle (f ∷ es) e (Memᴰ.tail m) h =
      mem-settle_as false f.rule (cleanup_locator_issue ct idx f) (settle ct idx false es) e.rule
        (mem-settle es e m h)

code_loop_grows :
    (issues : List PlanIssue) (out : List IssueCode)
    → length out ≤ length (foldl add_code out issues)
code_loop_grows [] out = omega arith
code_loop_grows (i ∷ issues) out =
    ground (arith, code_loop_grows issues (add_code out i), length-append out (i.code ∷ []))

distinct-eq_nil : (issues : List PlanIssue) → distinct_issue_codes issues ≡ [] → issues ≡ []
unfolding distinct_issue_codes contains
distinct-eq_nil [] h = refl
distinct-eq_nil (i ∷ issues) h = absurd (
    omega (
      arith,
      ap length h,
      length-sort_by (λ a b. text_lt (code_text a) (code_text b)) (foldl add_code [] (i ∷ issues)),
      code_loop_grows issues (i.code ∷ []),
    ))

-- An open gate has nothing to object to.
pub gate-eq_nil :
    (desired : List PlannedRule) (dns unsupported conflicts : List PlanIssue) (ready : Bool)
    → gate_issues desired dns unsupported conflicts ready ≡ []
    → (desired ≢ []) × (dns ≡ []) × (unsupported ≡ []) × (conflicts ≡ []) × (ready ≡ true)
unfolding gate_issues
gate-eq_nil desired dns unsupported conflicts ready h =
    let (e₁, h₁) = append-eq_nil _ _ h in
    let (e₂, h₂) = append-eq_nil _ _ h₁ in
    let (e₃, h₃) = append-eq_nil _ _ h₂ in
    let (e₄, e₅) = append-eq_nil _ _ h₃ in
    (
      some_desired desired e₁,
      no_issues dns e₂,
      distinct-eq_nil unsupported (map-eq_nil _ _ e₃),
      distinct-eq_nil conflicts (map-eq_nil _ _ e₄),
      is_ready ready e₅,
    )
  where
    some_desired :
        (ds : List PlannedRule)
        → (if is_empty ds then plain_issue desired_empty fixed ∷ [] else []) ≡ []
        → ds ≢ []
    some_desired [] e = absurd (false≢true (ap is_empty e))
    some_desired (d ∷ ds) e = λ n. false≢true (ap is_empty n)

    no_issues :
        (is : List PlanIssue)
        → (if is_empty is then [] else plain_issue dns_failed (about_count (length is)) ∷ []) ≡ []
        → is ≡ []
    no_issues [] e = refl
    no_issues (i ∷ is) e = absurd (false≢true (ap is_empty e))

    is_ready :
        (b : Bool) → (if b then [] else plain_issue coverage_not_ready fixed ∷ []) ≡ [] → b ≡ true
    is_ready true e = refl
    is_ready false e = absurd (false≢true (ap is_empty e))

-- A gate with nothing to object to is open.
pub gate_open : (desired : List PlannedRule) → desired ≢ [] → gate_issues desired [] [] [] true ≡ []
unfolding gate_issues distinct_issue_codes sort_by
gate_open [] h = absurd (h refl)
gate_open (d ∷ ds) h = refl

-- Sorting the issues neither loses nor adds one.
pub sort_issues-eq_nil : (issues : List PlanIssue) → (sort_issues issues ≡ []) ↔ (issues ≡ [])
unfolding sort_issues sort_by
sort_issues-eq_nil issues = (
  λ h. nil_of_length issues (omega (arith, ap length h, length-sort_by issue_lt issues)),
  λ h. ap (sort_by issue_lt) h,
)
