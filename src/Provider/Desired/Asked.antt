-- ===== src/Provider/Desired/Asked.antt =====
-- The desired functions are exactly those that the domain rules and their addresses ask for.
use cloudhost_firewall_autou.Common.{
  ◌≡◌, ◌↔◌, ◌⊎◌, inl, inr, refl, sym, ap, ◌∙◌, subst, true, Option, none, some, List, [], ◌∷◌, ◌++◌,
  map, is_empty, arith, Memᴰ, Bool-cases, false≢true, if◌then◌else◌, or_empty, mem-map, map-mem,
  foldl-brings, mem-sort_by, contains, contains→mem,
}
use mathlib.Core.List.Memᴰ
use mathlib.Core.Option.{some-injective}
use mathlib.Core.List.Memᴰ.{append_cases, append_left, append_right, eq_of_singleton}
use cloudhost_firewall_autou.Strings.{Text, trim_space}
use cloudhost_firewall_autou.Config.{CloudType, DomainRule}
use cloudhost_firewall_autou.Dns.{ResolvedIp, resolved_cidr}
use cloudhost_firewall_autou.Provider.Types.{
  AddressFamily, ipv4, ipv6, FunctionalKey, key_eq, IssueCode, PlannedRule, TargetPlanInput,
}
use cloudhost_firewall_autou.Provider.Ports.{expand_planned_ports}
use cloudhost_firewall_autou.Provider.Keys.{canonical_cidr}
use cloudhost_firewall_autou.Provider.Desired.{
  Draft, empty_draft, Endpoint, endpoint_key, endpoint_reason, find_int, planned_rule,
  merge_planned, place_planned, note_unsupported, add_wire_port, add_protocol, protocols, add_cidr,
  add_ip, add_resolved, add_rule, sort_rules, desired_draft, desired_rules, render_planned,
  sort_planned,
}

abbrev pub keys : List PlannedRule → List FunctionalKey
keys = map (λ d. d.key)

-- What the loops over a rule's addresses, protocols and ports hold.
abbrev pub endpoint : CloudType → DomainRule → AddressFamily → Text → Text → Endpoint
endpoint ct r family cidr proto = record {
  cloud_type = ct;
  rule = r;
  family = family;
  cidr = cidr;
  protocol = proto;
}

abbrev pub family_of : ResolvedIp → AddressFamily
family_of ip = if ip.is_ipv6 then ipv6 else ipv4

-- A rule asks, through one of its addresses, for a key.
pub record AsksBy (ct : CloudType) (r : DomainRule) (k : FunctionalKey) (ip : ResolvedIp)
    : Type 0 where
  pub cidr : Text
  pub canonical : canonical_cidr (resolved_cidr ip) ≡ some cidr
  pub protocol : Text
  pub in_protocols : Memᴰ protocol (protocols ct r.protocol)
  pub wire_port : Text
  pub in_ports : Memᴰ wire_port (expand_planned_ports ct protocol r.ports)
  pub is_key : k ≡ endpoint_key (endpoint ct r (family_of ip) cidr protocol) wire_port

-- A rule without a DNS error asks for a key.
pub record Asks (input : TargetPlanInput) (k : FunctionalKey) (r : DomainRule) : Type 0 where
  pub no_error : is_empty (trim_space (or_empty (find_int input.dns_errors r.id))) ≡ true
  pub ip : ResolvedIp
  pub in_resolved : Memᴰ ip (or_empty (find_int input.resolved r.id))
  pub by : AsksBy input.cloud_type r k ip

-- A rule changes the planned keys only by a key that is not there yet, at the end.
pub keys-place_planned :
    (p : PlannedRule) (r : DomainRule) (ds : List PlannedRule)
    → keys (place_planned p r ds)
      ≡ (if contains (keys ds) p.key then keys ds else keys ds ++ p.key ∷ [])
unfolding place_planned merge_planned contains
keys-place_planned p r [] = refl
keys-place_planned p r (cur ∷ rest) = ground (arith, keys-place_planned p r rest)

desired-note_unsupported :
    (e : Endpoint) (j : FunctionalKey) (reason : Option IssueCode) (d : Draft)
    → (note_unsupported e j reason d).desired ≡ d.desired
unfolding note_unsupported
desired-note_unsupported e j none d = refl
desired-note_unsupported e j (some reason) d = ground arith

pub keys-add_wire_port :
    (e : Endpoint) (d : Draft) (wire_port : Text)
    → keys (add_wire_port e d wire_port).desired ≡ (
        if contains (keys d.desired) (endpoint_key e wire_port)
        then keys d.desired
        else keys d.desired ++ endpoint_key e wire_port ∷ [])
unfolding add_wire_port planned_rule
keys-add_wire_port e d wire_port =
    let p = planned_rule e wire_port in
    ap keys (
      desired-note_unsupported e p.key (endpoint_reason e)
        (record d { desired = place_planned p e.rule d.desired }))
    ∙ keys-place_planned p e.rule d.desired

module _ (k : FunctionalKey) where
  abbrev Has : Draft → Type 0
  Has d = Memᴰ k (keys d.desired)

  abbrev Brought : List FunctionalKey → FunctionalKey → Type 0
  Brought ks j = Memᴰ k (if contains ks j then ks else ks ++ j ∷ []) ↔ (Memᴰ k ks ⊎ (k ≡ j))

  brought : (ks : List FunctionalKey) (j : FunctionalKey) → Brought ks j
  brought ks j = elim (Bool-cases (contains ks j)) [
    | inl there ↦
        rw there (inl, λ h. elim h [ inl m ↦ m | inr e ↦ Memᴰ.cast e (contains→mem ks j there) ])
    | inr new ↦ rw new (
      λ m. elim (append_cases ks m) [ inl old ↦ inl old | inr last ↦ inr (eq_of_singleton last) ],
      λ h. elim h [ inl m ↦ append_left (j ∷ []) m | inr e ↦ append_right ks (Memᴰ.head e) ],
    )
  ]

  add_wire_port-brings :
      (e : Endpoint) (d : Draft) (wire_port : Text)
      → Has (add_wire_port e d wire_port) ↔ (Has d ⊎ (k ≡ endpoint_key e wire_port))
  add_wire_port-brings e d wire_port =
      rw (keys-add_wire_port e d wire_port) (brought (keys d.desired) (endpoint_key e wire_port))

  add_protocol-brings :
      (ct : CloudType) (r : DomainRule) (family : AddressFamily) (cidr : Text) (d : Draft)
      (proto : Text)
      → Has (add_protocol ct r family cidr d proto) ↔ (
          Has d
          ⊎ ((w : Text) × Memᴰ w (expand_planned_ports ct proto r.ports)
              × (k ≡ endpoint_key (endpoint ct r family cidr proto) w)))
  unfolding add_protocol
  add_protocol-brings ct r family cidr d proto =
      foldl-brings Has (λ w. k ≡ endpoint_key (endpoint ct r family cidr proto) w)
        (add_wire_port (endpoint ct r family cidr proto))
        (add_wire_port-brings (endpoint ct r family cidr proto))
        (expand_planned_ports ct proto r.ports) d

  add_cidr-brings :
      (ct : CloudType) (r : DomainRule) (d : Draft) (ip : ResolvedIp) (o : Option Text)
      → canonical_cidr (resolved_cidr ip) ≡ o
      → Has (add_cidr ct r ip d o) ↔ (Has d ⊎ AsksBy ct r k ip)
  add_cidr-brings ct r d ip none e =
      (inl, λ h. elim h [ inl m ↦ m | inr b ↦ absurd (cc (b.canonical)) ])
  add_cidr-brings ct r d ip (some cidr) e =
      let (to, from) =
        foldl-brings Has
          (λ proto.
            (w : Text) × Memᴰ w (expand_planned_ports ct proto r.ports)
            × (k ≡ endpoint_key (endpoint ct r (family_of ip) cidr proto) w))
          (add_protocol ct r (family_of ip) cidr)
          (λ d' proto. add_protocol-brings ct r (family_of ip) cidr d' proto)
          (protocols ct r.protocol) d in
      (
        λ h. elim (to h) [
          | inl m ↦ inl m
          | inr (proto, m, (w, n, same)) ↦ inr (record {
            cidr = cidr;
            canonical = e;
            protocol = proto;
            in_protocols = m;
            wire_port = w;
            in_ports = n;
            is_key = same;
          })
        ],
        λ h. elim h [
          | inl m ↦ from (inl m)
          | inr b ↦ from (
              inr (
                b.protocol,
                b.in_protocols,
                (
                  b.wire_port,
                  b.in_ports,
                  b.is_key
                      ∙ ap
                          (λ c.
                            endpoint_key (endpoint ct r (family_of ip) c b.protocol) b.wire_port)
                          (some-injective b.cidr cidr (sym b.canonical ∙ e)),
                ),
              ))
        ],
      )

  add_ip-brings :
      (ct : CloudType) (r : DomainRule) (d : Draft) (ip : ResolvedIp)
      → Has (add_ip ct r d ip) ↔ (Has d ⊎ AsksBy ct r k ip)
  unfolding add_ip
  add_ip-brings ct r d ip = add_cidr-brings ct r d ip (canonical_cidr (resolved_cidr ip)) refl

  add_resolved-brings :
      (ct : CloudType) (r : DomainRule) (d : Draft) (ips : List ResolvedIp)
      → Has (add_resolved ct r d ips)
        ↔ (Has d ⊎ ((ip : ResolvedIp) × Memᴰ ip ips × AsksBy ct r k ip))
  add_resolved-brings ct r d [] =
      (inl, λ h. elim h [ inl m ↦ m | inr (ip, m, b) ↦ absurd (Memᴰ.not-nil m) ])
  add_resolved-brings ct r d (ip ∷ ips) =
      foldl-brings Has (AsksBy ct r k) (add_ip ct r) (add_ip-brings ct r) (ip ∷ ips) d

  add_rule-brings :
      (input : TargetPlanInput) (d : Draft) (r : DomainRule)
      → Has (add_rule input d r) ↔ (Has d ⊎ Asks input k r)
  unfolding add_rule
  add_rule-brings input d r =
      let msg = trim_space (or_empty (find_int input.dns_errors r.id)) in
      let ips = or_empty (find_int input.resolved r.id) in
      let (to, from) = add_resolved-brings input.cloud_type r d ips in
      elim (Bool-cases (is_empty msg)) [
        | inl clean ↦ rw clean (
          λ h. elim (to h) [
            | inl m ↦ inl m
            | inr (ip, m, b) ↦ inr (record { no_error = clean; ip = ip; in_resolved = m; by = b })
          ],
          λ h. elim h [ inl m ↦ from (inl m) | inr a ↦ from (inr (a.ip, a.in_resolved, a.by)) ],
        )
        | inr failed ↦
            rw failed (
              inl,
              λ h. elim h [ inl m ↦ m | inr a ↦ absurd (false≢true (sym failed ∙ a.no_error)) ],
            )
      ]

pub keys-render_planned :
    (ct : CloudType) (tag : Text) (ds : List PlannedRule)
    → keys (map (render_planned ct tag) ds) ≡ keys ds
unfolding render_planned
keys-render_planned ct tag [] = refl
keys-render_planned ct tag (d ∷ ds) = ap (◌∷◌ d.key) (keys-render_planned ct tag ds)

keys-sort_planned :
    (ds : List PlannedRule) (k : FunctionalKey) → Memᴰ k (keys (sort_planned ds)) ↔ Memᴰ k (keys ds)
unfolding sort_planned
keys-sort_planned ds k = (
  λ m.
      let (d, n, e) = map-mem (λ d. d.key) (sort_planned ds) k m in
      Memᴰ.cast e (mem-map (λ d. d.key) ds d ((mem-sort_by _ ds d).0 n)),
  λ m.
      let (d, n, e) = map-mem (λ d. d.key) ds k m in
      Memᴰ.cast e (mem-map (λ d. d.key) (sort_planned ds) d ((mem-sort_by _ ds d).1 n)),
)

-- A key is desired exactly if some domain rule without a DNS error, through one of its resolved
-- addresses that has a canonical CIDR, one of its protocols and one of its wire ports, asks for it.
pub desired_exact :
    (input : TargetPlanInput) (k : FunctionalKey)
    → Memᴰ k (keys (desired_rules input)) ↔ ((r : DomainRule) × Memᴰ r input.rules × Asks input k r)
unfolding desired_rules desired_draft sort_rules
desired_exact input k =
    let (to, from) =
      foldl-brings (Has k) (Asks input k) (add_rule input) (add_rule-brings k input)
        (sort_rules input.rules) empty_draft in
    let planned = map (render_planned input.cloud_type input.tag) (desired_draft input).desired in
    let rendered = keys-render_planned input.cloud_type input.tag (desired_draft input).desired in
    (
      λ m. elim (to (subst (Memᴰ k) rendered ((keys-sort_planned planned k).0 m))) [
        | inl none_yet ↦ absurd (Memᴰ.not-nil none_yet)
        | inr (r, n, a) ↦ (r, (mem-sort_by _ input.rules r).0 n, a)
      ],
      λ (r, n, a).
          (keys-sort_planned planned k).1
            (subst (Memᴰ k) (sym rendered) (from (inr (r, (mem-sort_by _ input.rules r).1 n, a)))),
    )
