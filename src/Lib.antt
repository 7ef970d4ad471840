-- ===== src/Lib.antt =====
-- The naming, reservation and addressing core of Sandcastle on Incus.
--
-- The program hands out names and addresses to tenants. The Auth App keeps a registry in one
-- SQLite database: a project may hold a Project Domain below a Public DNS Zone, a machine may hold
-- Machine Public Hostnames, a tenant may publish Public Routes and holds one Tenant DNS Suffix.
-- Each reservation is checked against all the others before it is written. The allocator of
-- address blocks gives every tenant a prefix of the installation's pool, and the tenant's services
-- fixed addresses in it. A tenant may offer a directory of one of its projects to other tenants, who
-- accept or decline. A device logs in with a code that its user approves in the browser, and polls
-- until it is given its tokens. A machine may be published over a tunnel, and the machines of a tenant
-- have names in the tenant's DNS zone.
--
-- Prelude: Boolean tests, lists over the native numbers, results, and text.
-- Domain (internal/domain/validate.go, project_certificate.go): Names and Policy have the
--   definitions, Shape says what a label and a name of labels are, Normal is about normalisation and
--   Wildcard about the names that a project certificate covers.
-- Registry (internal/authapp/project_domain_claims.go, machine_hostnames.go, routes.go,
--   dns_suffix_claims.go and the tables of app.go): Tables has the rows and what SQLite does with
--   them, Scan the conflict scans, and Claims, Hostnames, Routes and Suffixes one definition for
--   each Go function, under its name in this spelling: `ClaimProjectDomain` is
--   `claim_project_domain`. An operation takes the database and returns its result and the new
--   database; an error leaves the database as it was. Invariant says when a database is
--   consistent, Sound is about the scans, Preserve has one file for each kind of operation, Reach
--   puts the operations together as a transition system, Owners reads off who owns a name, Restore
--   is about the compensation of a failed write (when it keeps a database consistent, and when not), Privacy about the texts of refusals.
-- Cidr (internal/cidr/allocator.go, roles.go): Defs has the definitions, Blocks the laws of
--   prefixes, Search the loop of `Allocate`, Grants what it grants, Room and Total when it grants
--   nothing and that it ends, Roles the addresses of the services.
-- Naming (internal/naming/naming.go, v2.go): Defs has the validators and the references, Incus the
--   names of Incus projects and bridges; Shape is about the patterns, Projects about the names,
--   Limits about their lengths, Refs about printing and parsing. A regular expression is written
--   out as tests of characters and of the length.
--
-- Share (internal/share/share.go): Types has the records, the store and the actions on it, Paths
--   what is taken from Go's `path` and the paths of a device, Names the reading and checking of
--   requests, Lists the edits of a list of shares, and Create, Answer, Withdraw, Views and Cleanup
--   the operations: `PlanCreate` is `plan_create`. An action takes the store and returns its
--   result and the store that it leaves, also on an error. Below is about the paths, Outcome
--   carries facts through a chain of actions, Distinct, Ids, Invariant and Fresh are about the ids
--   of shares, History puts the requests together, Granted is about offers, Answered and Copies
--   about answers and the copies that they write, Gone, Withheld and Stranded are about
--   withdrawals that return and that fail, Seen and Offers about what the two views of a recipient
--   show after an answer.
-- Device (internal/authapp/device.go): Logins has the table and its calls, Polls the decisions of
--   devicePoll from the row that it found to the response, Moves the states of a login and Runs the
--   calls that follow them, Keyed is about the codes of the table, Settled and Tokens about what
--   the states give.
-- Publication (internal/authapp/machine_tunnel_publications.go, machine_publication_cooldowns.go):
--   Defs has the calls on the two tables and Laws what they promise.
-- Dns (internal/dns/render.go, apply.go): Render writes the files of a tenant's name server, Owners is about the
--   names in its zone.
--
-- Text is a list of ASCII codes; what Go does with letters outside ASCII is not modelled. A SQL
-- statement fails only on the PRIMARY KEY and UNIQUE constraints of its table, and the operations
-- under the write lock of `withReservationLock` run one after the other; the foreign key of a
-- claim's zone holds since the zone is read from the zones table. Rows are read in the order of
-- their names, and LIKE does not see case. Every operation is one step, although
-- `UpsertRoute` takes no lock around its checks and its INSERT. The clock is an argument, and of a published route the
-- request's `created_at` stands for it. The calls that release certificates and Cloudflare
-- records, the time stamps of a suffix claim, and the texts of errors other than the refusals in
-- Claims/Texts and Hostnames/Texts are left out. Ports and sizes of prefixes are natural numbers:
-- Go refuses a negative one like 0, or like a size below the pool's.
--
-- The store of shares is a list for each Incus project name, with two tests that say which lists
-- cannot be read or written, a status for each source directory and a clock. The tenants that
-- `tenant.List` returns are an argument of each request. `sort.Slice` is insertion sort, which is
-- stable as Go's is on short lists. A time of a device login counts nanoseconds, and what is written
-- with RFC 3339 keeps its seconds. The random codes of a login are arguments. What came of a
-- provisioning is an argument of a poll; the updates that follow it are definitions, but not among the
-- calls of Runs, since they are made only for a login that is approved.
--
-- The loop of `Allocate` runs on fuel: one step for each block of the pool and one to leave it,
-- which is enough because the start and the end of a pool lie a whole number of blocks apart. An
-- address is its number and `uint32` arithmetic wraps at 2 ^ 32. `netip.ParsePrefix` is an
-- argument; where a result needs it, the hypothesis `ParsesWell` says that a parsed address has
-- its family's width and no more bits than that. The digits of a SHA-1 sum are an argument too.
-- The loop over
-- local ports counts them down; all other loops are recursion on a list.
--
-- Not modelled: the adapters of Incus, Tailscale, Cloudflare and ACME, the HTTP handlers, the locks
-- and the memory of running provisionings, the texts of share and login errors, the command line, and the files that these only pass through.
pub mod Prelude
pub mod Domain
pub mod Registry
pub mod Cidr
pub mod Naming
pub mod Share
pub mod Device
pub mod Publication
pub mod Dns
