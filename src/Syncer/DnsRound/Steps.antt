-- ===== src/Syncer/DnsRound/Steps.antt =====
-- Every step of a round is a move of one call with respect to each host.
use mathlib.Core.Path.{fun_ext}
use cloudhost_firewall_autou.Common.{
  ℕ, ◌≡◌, inl, inr, refl, sym, ap, ◌∙◌, subst, Bool, true, false, Option, none, some, [],
  if◌then◌else◌, is_none, ◌==◌, nat_eq, list_eq, update, ==_iff, ==_refl, Bool-cases, false≢true,
}
use cloudhost_firewall_autou.Strings.{Text}
use cloudhost_firewall_autou.Dns.{domain_key}
use cloudhost_firewall_autou.Syncer.DnsRound.{
  DnsRound, Answer, Pc, ready, waiting, running, finished, begin_resolve, wake, after_wait, settle,
  System,
}
use cloudhost_firewall_autou.Syncer.DnsRound.Invariant.{
  Place, away, waits, probes, plain, ended, Move, stay, enter_wait, enter_probe, enter_plain,
  wake_plain, wake_failed, probe_end, plain_end,
}

abbrev pub place_of : Pc → Place
place_of ready = away
place_of (waiting host) = waits
place_of (running host true) = probes
place_of (running host false) = plain
place_of (finished host (ips, e)) = ended e

-- The host that a call is for; before it begins, none.
abbrev pub is_for : Text → Pc → Bool
is_for k ready = false
is_for k (waiting host) = k == domain_key host
is_for k (running host probe) = k == domain_key host
is_for k (finished host answer) = k == domain_key host

abbrev pub place_at : Text → Pc → Place
place_at k p = if is_for k p then place_of p else away

pub place_at-update :
    (k : Text) (pc : ℕ → Pc) (i : ℕ) (q : Pc)
    → update (λ j. place_at k (pc j)) i (place_at k q) ≡ (λ j. place_at k (update pc i q j))
place_at-update k pc i q =
    fun_ext (λ j. elim (Bool-cases (j == i)) [ inl same ↦ rw same | inr differ ↦ rw differ ])

-- What a step of call `i` is for the host `k`.
pub record Moved (s t : System) (k : Text) (i : ℕ) : Type 0 where
  pub move : Move (s.round.host k) (place_at k (s.pc i)) (t.round.host k) (place_at k (t.pc i))
  pub others :
      update (λ j. place_at k (s.pc j)) i (place_at k (t.pc i)) ≡ (λ j. place_at k (t.pc j))

-- A statement about every host, shown for one host and for the others.
by_host :
    (host : Text) (P : Text → Type 0)
    → P host
    → ((k : Text) → (k == host) ≡ false → P k)
    → (k : Text) → P k
by_host host P here there k = elim (Bool-cases (k == host)) [
  | inl same ↦ subst P (sym ((==_iff k host).0 same)) here
  | inr differ ↦ there k differ
]

module _ (r : DnsRound) (host : Text) where
  abbrev key : Text
  key = domain_key host

  probed : DnsRound
  probed = record r { host = update r.host key (record (r.host key) { made = true }) }

  begin_waits :
      (r.host key).opened ≡ true
      → (r.host key).made ≡ true
      → begin_resolve r host ≡ (r, waiting host)
  unfolding begin_resolve
  begin_waits o m = rw (o, m)

  begin_probes :
      (r.host key).opened ≡ true
      → (r.host key).made ≡ false
      → begin_resolve r host ≡ (probed, running host true)
  unfolding begin_resolve probed
  begin_probes o m = rw (o, m)

  begin_plain : (r.host key).opened ≡ false → begin_resolve r host ≡ (r, running host false)
  unfolding begin_resolve
  begin_plain o = rw o

  abbrev Begun : Text → DnsRound × Pc → Type 0
  Begun k b = Move (r.host k) away (b.0.host k) (place_at k b.1)

  waits_Begun :
      (r.host key).opened ≡ true → (r.host key).made ≡ true → (k : Text) → Begun k (r, waiting host)
  waits_Begun o m =
      by_host key (λ k. Begun k (r, waiting host)) (rw (==_refl key) (enter_wait o m))
        (λ k differ. rw differ stay)

  probes_Begun :
      (r.host key).opened ≡ true
      → (r.host key).made ≡ false
      → (k : Text) → Begun k (probed, running host true)
  unfolding probed
  probes_Begun o m =
      by_host key (λ k. Begun k (probed, running host true)) (rw (==_refl key) (enter_probe o m))
        (λ k differ. rw differ stay)

  plain_Begun : (r.host key).opened ≡ false → (k : Text) → Begun k (r, running host false)
  plain_Begun o =
      by_host key (λ k. Begun k (r, running host false)) (rw (==_refl key) (enter_plain o))
        (λ k differ. rw differ stay)

  pub begin_move : (k : Text) → Begun k (begin_resolve r host)
  begin_move k = elim (Bool-cases (r.host key).opened) [
    | inr shut ↦ rw (begin_plain shut) (plain_Begun shut k)
    | inl o ↦ elim (Bool-cases (r.host key).made) [
      | inl m ↦ rw (begin_waits o m) (waits_Begun o m k)
      | inr m ↦ rw (begin_probes o m) (probes_Begun o m k)
    ]
  ]

  abbrev Woken : Text → Pc → Type 0
  Woken k p = Move (r.host k) (place_at k (waiting host)) (r.host k) (place_at k p)

  after_wait_move :
      (r.host key).closed ≡ true
      → (o : Option Text) → (r.host key).error ≡ o
      → (k : Text) → Woken k (after_wait host o)
  after_wait_move c none e =
      by_host key (λ k. Woken k (running host false)) (rw (==_refl key) (wake_plain c e))
        (λ k differ. rw differ stay)
  after_wait_move c (some x) e =
      by_host key (λ k. Woken k (finished host ([], some x)))
        (rw (==_refl key)
          (wake_failed c (λ n. absurd (false≢true (sym (ap is_none e) ∙ ap is_none n)))))
        (λ k differ. rw differ stay)

  pub wake_move : (r.host key).closed ≡ true → (k : Text) → Woken k (wake r host)
  unfolding wake
  wake_move c = after_wait_move c (r.host key).error refl

  module _ (answer : Answer) where
    abbrev Settles : Bool → Text → Type 0
    Settles probe k =
        Move (r.host k) (place_at k (running host probe)) ((settle r host probe answer).host k)
          (place_at k (finished host answer))

    settle_here : (probe : Bool) → Settles probe key
    unfolding settle
    settle_here true = rw (==_refl key) (probe_end answer.1)
    settle_here false = rw (==_refl key) (plain_end answer.1)

    pub settle_move : (probe : Bool) (k : Text) → Settles probe k
    unfolding settle
    settle_move probe = by_host key (Settles probe) (settle_here probe) (λ k differ. rw differ stay)
