-- ===== src/Lib.antt =====
-- A model of the core of cloudhost-firewall-autoupdater, which keeps the firewall rules of cloud
-- targets in step with the addresses of domains, and the theorems that make it correct.
--
-- The program, a round at a time: for each target, resolve the domains of its rules, read the
-- target's rules from the cloud (S0), plan, add what is missing, read again (S1), plan again on S1,
-- and, only if that plan shows full coverage and no doubt, delete the program's own stale rules and
-- read once more (S2). The planner is pure and is shared by the dry run and the synchronisation. A
-- rule of the program is known by its description "[TAG] comment". The targets of a round share the
-- resolution of domains whose breaker is open; a scheduler begins rounds on a ticker, on request and
-- when the synchronisation is resumed; health checks read its status, and alerts go through a bus.
--
-- Files and the code they model:
--   Strings, Netip          what the code uses of Go's strings, strconv, net and net/netip
--   Tag, Tag/Ownership      internal/tag/tag.go: Format, IsOwned, Parse
--   Portconv                internal/portconv/portconv.go: Parse, ToSlash
--   Strconv                 strconv.Atoi and net.SplitHostPort
--   Config, Config/Alerts   config/config.go: the records of rules, targets and alerts
--   Config/Runtime          config/runtime.go: the business snapshot and the runtime configuration
--   Config/Validate         config/validate.go: targets, rules and settings
--   Config/ValidateAlerts   config/validate.go: the alert settings
--   Dns, Dns/Breaker        dns/resolver.go (CIDR) and dns/circuitbreaker.go
--   Provider/Types          provider/plan.go: keys, issues and plans
--   Provider/Ports          provider/plan.go: Capabilities, ExpandPorts, expandPlannedPorts
--   Provider/Description    provider/plan.go: RenderDescription, TruncateDescription
--   Provider/Keys           provider/plan.go: the canonical keys of cloud rules and actions
--   Provider/Desired        PlanTarget, step 1: the desired rules
--   Provider/Snapshot       PlanTarget, step 2: the index of the snapshot, and conflicts
--   Provider/Cleanup        PlanTarget, steps 3 to 5: coverage, candidates, gate and locators
--   Provider/Plan           PlanTarget as a whole
--   Syncer/Retry            syncer/retry.go: the classes of errors
--   Syncer/Observation      syncer/observation.go: what attempts observe and how they merge
--   Syncer/Calls            provider/provider.go: the provider and the resolver as operations
--   Syncer/Resolve          syncer/target.go: resolveTargetRules, dnsFailureError, ruleHosts
--   Syncer/Attempt          syncer/target.go: runTargetAttempt, runTargetCleanup, verifyCleanupResult
--   Syncer/Target           syncer/target.go: syncTarget and its loop of attempts
--   Syncer/DnsRound         syncer/dns_round.go: the resolutions of a round, as interleaved steps
--   Syncer/Round            syncer/syncer.go: runRound and its summary; syncer/ratelimit.go
--   Syncer/DryRun           syncer/syncer.go: DryRun; the shown changes of provider/common.go
--   Syncer/Loop             syncer/syncer.go: Run, Stop, ApplyState, Pause, Resume, TriggerSync
--   Syncer/State            syncer/state.go: BuildRuntimeState; provider/registry.go: NewProvider
--   Health/Checker          internal/health/health.go: Evaluate
--   Health/Supervisor       internal/health/supervisor.go: check
--   Notifier/Bus            notifier/bus.go
--   Notifier/InFlight       notifier/inflight.go: the slots and the counts of drops
--   Webui/LogQueue          webui/api/logqueue.go: the ring of pending records
--   Examples                tests and instances of the theorems on concrete values
-- A child module beside these is about proofs and is named for what it proves. Common holds the
-- shared tests, list lemmas and the stable sort.
--
-- How the code is modelled:
--   * A string is the list of its code points. The program's strings are valid UTF-8, whose byte
--     order is the order of code points. ToUpper and ToLower are exact on ASCII
--     and on the letters whose counterpart is ASCII, and leave other letters as they are. EqualFold
--     is only used against literals whose letters fold with ASCII letters alone.
--   * Row identifiers, counts and limits are natural numbers; the counts are lengths of lists and
--     far from the bounds of Go's int. `deferred` subtracts on naturals: the providers report no
--     more resolved rules than there are candidates.
--   * A Go map is an association list or a function; sort.SliceStable is a stable insertion sort.
--   * The text of an issue is a fixed text of its place in the code; the model keeps the values that
--     it is formatted with. Logging is left out, and
--     times where no decision depends on them.
--   * An error is what its chain shows to the code: text, SDK code, deadline, timeout, partial
--     deletion, and the program's own cleanup mark.
--   * The provider, the resolver with its round, and sleeping are parameters: a record of operations
--     on a state of their own, about which nothing is assumed. The log of calls is kept in the
--     world, so that theorems can speak of their order.
--   * Goroutines are step relations: each part under a mutex and each channel operation is one step,
--     and a state is reached by any sequence of the steps of all of them. A call of `resolve` is a
--     thread with its place; any number of calls of Run, a Stop (which `stopOnce` makes one) and the
--     publishers are the steps of one engine.
--   * An atomic.Int32 is its 32 bits, a counter of drops its 64, both with their wrap-around.
--   * In Syncer/Round the groups of the clouds run one after the other; that the counters do not
--     depend on the order in which targets end is a theorem.
--   * time.ParseDuration, url.Parse and the factories of the providers are parameters.
--   * The loop of attempts is recursion on the number of attempts that may follow, from 2: the code
--     makes at most three. No model runs on fuel; all functions are total.
--
-- Not modelled: Status and the hooks of syncer/syncer.go, storage (config/store.go), the
-- cloud adapters (provider/tc_*.go, ali_*.go, common.go, read_budget.go, scan.go), delivery
-- (notifier/email.go, webhook.go), the push monitor (internal/health/push.go), the web interface
-- (webui/) but for the ring of the log queue, and start-up. The adapters and the mailer are mostly
-- calls of SDKs, the storage is SQL, the interface is HTTP.
pub mod Common
pub mod Strings
pub mod Tag
pub mod Portconv
pub mod Netip
pub mod Strconv
pub mod Config
pub mod Dns
pub mod Provider
pub mod Syncer
pub mod Health
pub mod Notifier
pub mod Webui
mod Examples
