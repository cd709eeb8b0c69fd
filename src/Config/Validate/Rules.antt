-- ===== src/Config/Validate/Rules.antt =====
-- Rules, targets and identifiers that have passed their check.
use cloudhost_firewall_autou.Common.{
  if◌then◌else◌, ◌≡◌, ◌≢◌, refl, sym, ap, ◌∙◌, subst, true, false, List, [], ◌∷◌, is_empty,
  contains, ◌==◌, nat_eq, list_eq, arith, All, Bool-cases, inl, inr, false≢true, ==_iff, All-mem,
  contains→mem,
}
use cloudhost_firewall_autou.Strings.{
  Text, codes, trim_space, trim_space_idem, trim_left, trim_right, is_space, to_upper, upper_code,
}
use cloudhost_firewall_autou.Config.{DomainRule}
use cloudhost_firewall_autou.Config.Validate
use cloudhost_firewall_autou.Config.Validate.{◌>>=◌}

-- What a rule has to be: each field in its normal form.
pub record IsRule (r : DomainRule) : Type 0 where
  pub host_filled : r.host ≢ []
  pub host_trimmed : trim_space r.host ≡ r.host
  pub protocol_known : contains Validate.valid_protocols r.protocol ≡ true
  pub action_known : contains Validate.valid_actions r.action ≡ true
  pub ports_filled : r.ports ≢ []
  pub ports_trimmed : trim_space r.ports ≡ r.ports
  pub icmp_all : r.protocol ≡ codes "ICMP" → r.ports ≡ codes "ALL"

filled_of_test : (s : Text) → is_empty s ≡ false → s ≢ []
filled_of_test s h e = false≢true (sym h ∙ ap is_empty e)

trim_all : trim_space (codes "ALL") ≡ codes "ALL"
unfolding trim_space trim_left trim_right is_space
trim_all = refl

-- The rule that an accepted one becomes.
abbrev normal_ports : DomainRule → Text
normal_ports r =
    if to_upper (trim_space r.protocol) == codes "ICMP" then codes "ALL" else trim_space r.ports

abbrev normal_form : DomainRule → DomainRule
normal_form r = record r {
  host = trim_space r.host;
  protocol = to_upper (trim_space r.protocol);
  ports = normal_ports r;
  action = to_upper (trim_space r.action);
}

-- The tests that an accepted rule has passed.
record Passed (r : DomainRule) : Type 0 where
  host_ok : is_empty (trim_space r.host) ≡ false
  protocol_ok : contains Validate.valid_protocols (to_upper (trim_space r.protocol)) ≡ true
  action_ok : contains Validate.valid_actions (to_upper (trim_space r.action)) ≡ true
  ports_ok : is_empty (normal_ports r) ≡ false

module _ (r s : DomainRule) (h : Validate.normalize_rule r ≡ Validate.valid s) where
  accepted-Passed : Passed r
  unfolding Validate.normalize_rule
  accepted-Passed = record {
    host_ok = ground arith;
    protocol_ok = ground arith;
    action_ok = ground arith;
    ports_ok = ground arith;
  }

  accepted_form : normal_form r ≡ s
  unfolding Validate.normalize_rule
  accepted_form = ground arith

normal_ports-trimmed : (r : DomainRule) → trim_space (normal_ports r) ≡ normal_ports r
normal_ports-trimmed r = elim (Bool-cases (to_upper (trim_space r.protocol) == codes "ICMP")) [
  | inl icmp ↦ rw icmp trim_all
  | inr differ ↦ rw differ (trim_space_idem r.ports)
]

normal_ports-icmp :
    (r : DomainRule)
    → to_upper (trim_space r.protocol) ≡ codes "ICMP"
    → normal_ports r ≡ codes "ALL"
normal_ports-icmp r e = rw ((==_iff (to_upper (trim_space r.protocol)) (codes "ICMP")).1 e)

-- A rule that the check accepts comes out with its host trimmed and not empty, one of the four
-- protocols and one of the two actions in capitals, trimmed ports that are not empty, and the ports
-- ALL if it is about ICMP.
pub normalize_rule-IsRule :
    (r s : DomainRule) → Validate.normalize_rule r ≡ Validate.valid s → IsRule s
normalize_rule-IsRule r s h =
    let t = accepted-Passed r s h in
    subst IsRule (accepted_form r s h) (record {
      host_filled = filled_of_test (trim_space r.host) t.host_ok;
      host_trimmed = trim_space_idem r.host;
      protocol_known = t.protocol_ok;
      action_known = t.action_ok;
      ports_filled = filled_of_test (normal_ports r) t.ports_ok;
      ports_trimmed = normal_ports-trimmed r;
      icmp_all = normal_ports-icmp r;
    })

known_kept :
    (known : List Text)
    → All (λ k. to_upper (trim_space k) ≡ k) known
    → (p : Text) → contains known p ≡ true
    → to_upper (trim_space p) ≡ p
known_kept known kept p h =
    All-mem (λ k. to_upper (trim_space k) ≡ k) known kept p (contains→mem known p h)

protocols_kept : All (λ k. to_upper (trim_space k) ≡ k) Validate.valid_protocols
unfolding to_upper upper_code trim_space trim_left trim_right is_space
protocols_kept = (refl, (refl, (refl, (refl, tt))))

actions_kept : All (λ k. to_upper (trim_space k) ≡ k) Validate.valid_actions
unfolding to_upper upper_code trim_space trim_left trim_right is_space
actions_kept = (refl, (refl, tt))

empty-false : (s : Text) → s ≢ [] → is_empty s ≡ false
empty-false [] h = absurd (h refl)
empty-false (c ∷ s) h = refl

checked_ports-kept :
    (s : DomainRule) → IsRule s → Validate.checked_ports s.protocol s.ports ≡ Validate.valid s.ports
checked_ports-kept s t = elim (Bool-cases (s.protocol == codes "ICMP")) [
  | inl icmp ↦ rw (icmp, t.icmp_all ((==_iff s.protocol (codes "ICMP")).0 icmp)) refl
  | inr differ ↦ rw (differ, empty-false s.ports t.ports_filled) refl
]

IsRule-accepted : (s : DomainRule) → IsRule s → Validate.normalize_rule s ≡ Validate.valid s
unfolding Validate.normalize_rule
IsRule-accepted s t =
    rw
      (
        t.host_trimmed,
        t.ports_trimmed,
        known_kept Validate.valid_protocols protocols_kept s.protocol t.protocol_known,
        known_kept Validate.valid_actions actions_kept s.action t.action_known,
        empty-false s.host t.host_filled,
        t.protocol_known,
        t.action_known,
        checked_ports-kept s t,
      )
      refl

-- A rule that the check has accepted is accepted again, unchanged.
pub normalize_rule_idem :
    (r s : DomainRule)
    → Validate.normalize_rule r ≡ Validate.valid s
    → Validate.normalize_rule s ≡ Validate.valid s
normalize_rule_idem r s h = IsRule-accepted s (normalize_rule-IsRule r s h)
