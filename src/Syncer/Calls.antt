-- ===== src/Syncer/Calls.antt =====
-- provider/provider.go and the world of a synchronisation: a provider and the resolver, as operations
-- on a state of their own, and the record of the calls that are made.
use cloudhost_firewall_autou.Common.{ℕ, Option, none, some, List, [], ◌∷◌, ◌++◌}
use cloudhost_firewall_autou.Strings.{Text}
use cloudhost_firewall_autou.Config.{CloudType, RuleInfo, RuleAction}
use cloudhost_firewall_autou.Dns.{ResolvedIp}
use cloudhost_firewall_autou.Provider.Types.{RuleSnapshot}
use cloudhost_firewall_autou.Syncer.Retry.{GoError}
use cloudhost_firewall_autou.Syncer.Observation.{TargetResult}

-- A pair (value, error) of which one part is set.
pub data Result {ℓ} (A : Type ℓ) : Type ℓ where
  ok : A → Result A
  err : GoError → Result A

pub record CreateResult : Type 0 where
  pub written : ℕ
  pub skipped : ℕ

pub record DeleteResult : Type 0 where
  pub deleted : ℕ
  pub resolved : ℕ

-- The methods of a Provider, and the two ways to resolve a host: through the round, and directly.
-- What they do to the cloud, the network and the breaker is the state `S`.
pub record Services (S : Type 0) : Type 0 where
  pub name : Text
  pub cloud_type : CloudType
  pub target_index : ℕ
  pub get_snapshot : S → Result RuleSnapshot × S
  pub create_rules : RuleSnapshot → List RuleAction → S → (CreateResult × Option GoError) × S
  pub delete_rules : RuleSnapshot → List RuleInfo → S → (DeleteResult × Option GoError) × S
  pub round_resolve : Text → S → Result (List ResolvedIp) × S
  pub resolve_host : Text → S → Result (List ResolvedIp) × S

-- A call with what the later ones depend on.
pub data Call : Type 0 where
  read : Option RuleSnapshot → Call
  create : RuleSnapshot → List RuleAction → Call
  delete : RuleSnapshot → List RuleInfo → Call
  sleep : ℕ → Call

pub data Event : Type 0 where
  dns_failed : Text → Text → Event
  sync_error : TargetResult → Event
  target_sync_complete : TargetResult → Event

pub record World (S : Type 0) : Type 0 where
  pub state : S
  pub calls : List Call
  pub events : List Event
  pub dns_failed_hosts : List Text

abbrev pub seen : Result RuleSnapshot → Option RuleSnapshot
seen (ok s) = some s
seen (err e) = none

module _ {S : Type 0} (svc : Services S) where
  abbrev pub call_read : World S → Result RuleSnapshot × World S
  call_read w =
      let (r, s) = svc.get_snapshot w.state in
      (r, record w { state = s; calls = w.calls ++ read (seen r) ∷ [] })

  abbrev pub call_create :
      RuleSnapshot → List RuleAction → World S → (CreateResult × Option GoError) × World S
  call_create snapshot actions w =
      let (r, s) = svc.create_rules snapshot actions w.state in
      (r, record w { state = s; calls = w.calls ++ create snapshot actions ∷ [] })

  abbrev pub call_delete :
      RuleSnapshot → List RuleInfo → World S → (DeleteResult × Option GoError) × World S
  call_delete snapshot rules w =
      let (r, s) = svc.delete_rules snapshot rules w.state in
      (r, record w { state = s; calls = w.calls ++ delete snapshot rules ∷ [] })

abbrev pub call_sleep : {S : Type 0} → ℕ → World S → World S
call_sleep ms w = record w { calls = w.calls ++ sleep ms ∷ [] }

abbrev pub publish : {S : Type 0} → Event → World S → World S
publish e w = record w { events = w.events ++ e ∷ [] }
