-- ===== src/Lib.antt =====
-- goincus runs small virtual servers (NAT VPS) on a host: each is an Incus container with a block of
-- host ports that are forwarded 1:1 to it. A service with an HTTP API keeps its instances in PostgreSQL,
-- reserves ports in Redis, and drives Incus. This library models the service's core and states what
-- makes it correct.
--
-- The parts, and the files that model them:
-- - internal/models/models.go: Models. The records; times are seconds, identifiers are numbers, and CPU
--   cores are counted in billionths.
-- - internal/config/config.go: Config. `Validate` and `ValidAPIKey`.
-- - internal/db/store.go and migrations/: Store. A table is a list of rows, a query a function from
--   tables to a result and tables, and the constraints of the schema are its error branches.
-- - internal/redisstore/client.go: Redis. The commands over a Redis server that is a parameter; what
--   Redis documents of the commands is the record `RedisLaws` of Redis/Laws.
-- - internal/ports/allocator.go: Ports. `Sync`, `AllocateBlock`, `Reserve`, `ReleaseBlock`, `Stats`; Ports/Refine
--   says what a pool of ports is, which the allocator refines.
-- - internal/service/service.go: Service/Create, Service/Provision, Service/Start, Service/Status and
--   Service/Mappings, one definition per method, with helpers for the stages of the long ones.
-- - internal/service/usage.go and traffic.go: Service/Usage and Service/Traffic.
-- - internal/service/hourly.go, resources.go and hoststats.go: Service/Hourly and Service/Resources.
-- - internal/api/auth.go: Api/Auth, the check of the key and the limit on failed attempts, and
--   Api/Auth/Headers, the key and the address of the client.
-- - internal/api/server.go: Api/Server. A request is a route with its decoded parameters, `handle` has a
--   clause per handler, and `serve` puts the middleware before it.
-- - internal/incusclient: Incus. The daemon and the host are the parameter `Daemon` of Incus/Daemon; what
--   Incus documents of instances is the record `DaemonLaws` of Incus/Laws. Incus/Limits, Incus/Proxies,
--   Incus/Guests, Incus/Tuning, Incus/Samples, Incus/Network, Incus/Storage and Incus/Create have the
--   methods of client.go, network.go, security.go and storage.go, Incus/CloudInit the cloud-config of
--   ssh.go, and Incus/Server puts them together to the server that the service takes.
--   Incus/Packages has the resolution of packages of netboot.go, and Incus/Packages/Index its parsing of
--   package indexes.
--
-- Proofs stand in child modules named for what they prove. Store/Consistent states the constraints of the
-- tables as a predicate, with lemmas for the statements; Service/Keeping has the rules by which a method
-- inherits them, and the modules called Consistent apply these; Service/Runs puts the methods together to
-- runs, with the job that `CreateInstance` starts as an operation of its own. Service/Ends has the rules
-- for what holds where a method returns.
--
-- A method is a function from the world (tables, Redis, Incus, and a counter of readings) to a result and
-- the world after it (System): what a call has done before it fails stays done. Redis and Incus are
-- parameters with any behaviour, and the clock, new identifiers, passwords and refusals of the database
-- are read from tables at the counter, so a theorem is about every run of one call. Calls run one after
-- the other; the mutex of the allocator keeps them so within a process. The limiter of Api/Auth is the
-- exception: its calls interleave.
--
-- Bounds: `AllocateBlock` scans from the start of the range on, with as many rounds as there are starts
-- (host_range_end + 2 - (size + host_range_start)), which is the loop's own bound, so no fuel is involved.
-- Byte counters are signed and wrap at 64 bits where the source adds or multiplies them.
--
-- The loop of `resolveOpenSSHDebs` runs on fuel, four more than the dependencies that the index names. The
-- scan of `AllocateContainerIPv4` has as many rounds as the network has candidates. The limit of one
-- megabyte for a line in the source's scanner is left out.
--
-- CPU shares and per cent are exact fractions, rounded as the source rounds its floats. Addresses are IPv4 in
-- dotted notation, and any other text counts as no address.
--
-- Not modelled: logging, sleeping and tickers; routing and JSON; the scripts that run in a guest and the
-- firewall rules of the host, which are single calls of the daemon; downloading and unpacking of packages;
-- connecting, migrating, installing, and the command line. Host and guest port numbers and the bounds of the range are natural numbers.
pub mod Base
pub mod Models
pub mod Config
pub mod Store
pub mod System
pub mod Redis
pub mod Ports
pub mod Service
pub mod Api
pub mod Incus
pub mod Tests
