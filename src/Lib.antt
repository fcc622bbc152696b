-- ===== src/Lib.antt =====
-- Marstack Cloud: a control plane that keeps the records of a small cloud and a scheduler that
-- gives each waiting instance a node, and an agent on each node that runs the instances it was
-- given, restarts them and probes the backends of the load balancers. Each operation of the control
-- plane that adds to a project asks the quota first.
--
-- Common holds the shared helpers: tests on the native numbers and on strings, lists, a stable sort,
-- and the monad of a method that reads and changes a state and may fail, with the rules for
-- invariants of such methods. Fault is internal/kernel/fault/fault.go, and Events is
-- internal/kernel/events/events.go.
--
-- Scheduler is internal/platform/scheduler/scheduler.go. `Sources` are the stores that it asks:
-- every answer, an error as well, may depend on all the calls made before. `Tick` is
-- Scheduler.Place.tick; a pass also yields the history of its calls. Logging is left out, and so is
-- Run, the timer around Tick. bestFor is Scheduler.Select.best_for; sort.SliceStable is a stable
-- insertion sort, whose result is the only stable one where the comparison is an order. Counts have
-- no upper bound.
--
-- Agent is internal/agent: Agent.Restart is restart.go, with times in nanoseconds, where 0 is Go's
-- zero time; the lock around each operation makes it one step. The backoff is a loop over the
-- attempts; the durations stay below a minute and so do not overflow. Agent.Health is health.go;
-- what the network answers to a probe is a parameter.
--
-- Job is internal/platform/job: Job.Types is types.go and what the service is given, Job.Rows is
-- repository.go, Job.Runs is service.go with env.go, and Job.Sweep is sweep.go. The tables are lists
-- of rows; each statement may fail, and then has no effect. The keyring, the clock, the identifiers
-- and the workloads are parameters, whose answers may differ from call to call. Requests and sweeps
-- follow one another. create, and the checks that it makes, are not modelled.
--
-- Quota is internal/platform/quota: Quota.Service is types.go, repository.go and service.go. The
-- table is a list of rows, and the database, the consumption and the projects are parameters that
-- may fail. The sums of consumption and claim are unbounded numbers.
--
-- RateLimit is internal/kernel/ratelimit: RateLimit.Limiter has the operations on float64 as
-- parameters, and the clock as an argument of each operation. RateLimit.Bounds says how many keys are
-- remembered, and RateLimit.Bursts how many requests pass at one moment.
--
-- Network is internal/platform/network: Network.Addresses is what ipam.go uses of net/netip, with
-- addresses as numbers, Network.Ipam is ipam.go, whose loops get one round for each prefix of the
-- range, Network.Rows is types.go and repository.go with the unique indexes of module.go,
-- Network.Service and Network.Leases are service.go, and Network.Requests is what module.go offers.
-- The texts of prefixes are a parameter. Requests follow one another, where the program may
-- interleave two of them between a read and the insertion that the unique indexes guard. Validate is
-- internal/kernel/validate.
--
-- Node is internal/platform/node: Node.Rows is types.go and the part of repository.go on nodes and
-- labels, Node.Service is service.go, Node.Devices is device.go with its part of repository.go,
-- Node.Nodes is what module.go offers the scheduler, and Node.Requests puts the requests on devices
-- one after another. A transaction is one step that has no effect where a statement of it fails.
--
-- Autoscale is decide.go of internal/platform/autoscale: Autoscale.Decide is the decision, with the
-- operations on float64 as parameters, and Autoscale.Allowed what it may ask for.
--
-- Routing is internal/runtime/tlsproxy/route.go: Routing.Routes is the table of routes, the match and
-- the router's answers, Routing.Matching and Routing.Chosen say which route a request gets. Lower
-- case, the suffix of a path and the split of host and port are parameters. The reverse proxy and the
-- fingerprint of the routes are left out.
--
-- Not modelled: the HTTP handlers, the stores behind the services, the command line, the other runtimes
-- and the network set-up of a node, which are input and output around this code, and the services
-- that are not named above.

pub mod Agent
pub mod Autoscale
pub mod Common
pub mod Events
pub mod Fault
pub mod Job
pub mod Network
pub mod Node
pub mod Quota
pub mod RateLimit
pub mod Routing
pub mod Scheduler
pub mod Validate
