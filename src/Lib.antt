-- ===== src/Lib.antt =====
-- A verification library of llmbox, a hub that runs sandboxes ("boxes") for coding agents on remote
-- hosts ("spokes"). Paths below are from the repository's root.
--
-- Three stories are modelled. The first is network isolation. The hub keeps groups of domains in its
-- database, computes the policy of a box from the global groups and those assigned to the box, and
-- pushes it to the spoke of the box. There a box has no egress but DNS. Its queries reach the
-- enforcing resolver, which asks the policy whether the box may look the name up, forwards the
-- query, asks the Pinner to open every address of the answer in the firewall for the TTL of the
-- rule, and hands the answer out only if all of them are open. A sweeper closes the addresses whose
-- time is over. The second is enrollment: an operator mints a one-time join token, a spoke joins
-- with it, gets a credential and reconnects with that, and the hub routes to its newest connection.
-- The third is the life of a box on its spoke: the manager admits it, starts it on a backend, copies
-- files into it and initialises it through the agent inside, and destroys it with its isolation.
--   * Netip: what is used of Go's net/netip.
--   * Netfw: internal/spoke/netfw. Firewall is the interface `Programmer` with its contract,
--     Recording the in-memory firewall of recording.go, and Pinner the `Pinner` of netfw.go. The
--     clock is an argument of each call; a call that holds the mutex twice is two functions, so
--     that Pinner.Races can interleave Pin and Sweep.
--   * Dnsd: internal/spoke/dnsd. Policy is allowlist.go, and Server is dnsd.go: `handle` is `Handle`
--     with each of its early returns, and returns the reply, the audit events and the Pinner's state.
--     The Pinner is the interface that dnsd.go declares; a nil Pinner, which `New` never passes, is
--     left out. Messages is a message library to run it with.
--   * Isolation: internal/spoke/isolation/isolation.go, the Enforcer's operations, with the Pinner
--     of Netfw plugged into the resolver (Wiring) and sequences of operations as a relation
--     (Denying). Each operation is one step; calls that overlap are modelled in Pinner.Races only.
--   * Cluster: internal/shared/cluster. Store is the interface of tokens.go with its contract,
--     Secrets and Tokens are the rest of tokens.go, Handshake and Registry the two halves of hub.go,
--     and Revoking the command of internal/hub/token/token.go that removes tokens.
--   * Guest: internal/guest, the agent in a box. Words and Frames are proto.go, with the readers and
--     writers of a connection as bytes that are still to come and bytes that went out; Pty is the
--     control protocol of pty.go; Agent, Verbs and PutFile are guest.go over an operating system
--     (Os), and Client the call of a verb in client.go. Machine is a small Os to run the agent on.
--   * Box: internal/spoke/box. Provisioner is the interface of a backend with its contract, Manager
--     the operations of manager.go over it, and Fake the backend of conformance/fake.go, which has
--     an agent of Guest in each box and fills the contract (Fake.Contract). The contract leaves to
--     each backend which names its `Find` takes for a box; Naming has those of
--     docker/provisioner.go, firecracker/provisioner.go and cloudhypervisor/provisioner.go.
--     `Create` is in two parts, as the code releases its lock after the first; Manager.Steps
--     interleaves them.
--   * HubStore: internal/hub/store, the SQLite database. Database is sqlite.go, Allowlists is
--     allowlist_store.go (its reads of groups are in Allowlists.Reading), Rows a table with a
--     primary key. Each statement may fail, as a list of faults in the state says, and a
--     transaction that fails is rolled back. The decoding of a join token may fail after its row is
--     gone; that of other rows changes nothing and is part of the statement. Clustering fills the interface of Cluster.Store.
--   * Hub: internal/hub. Records and Sessions are the registry of boxes of server.go and gc.go: what
--     runs under the server's lock is one function, `createBox` is in parts that Sessions.Steps
--     interleaves, and the spokes, hooks, database and proxies are the interface World, so that the
--     order in which a pass calls them is kept and what they do is not. Proxies is proxy.go, with its
--     own table. ApiKeys is apikey/apikey.go, and Allowlist what allowlist.go computes; its
--     child Domains is the syntax of domains, and Enforced composes it with Isolation and Dnsd.
--   * Prelude: what the parts share. A string is its list of bytes; `to_lower` is that of ASCII,
--     which is all that occurs in domain names. Durations and instants are integers; the one
--     multiplication that can overflow, of a rule's seconds, wraps as Go's does. A map is a table of
--     its rows, with `HasDistinctKeys` where a proof needs it. Regex matches regular expressions.
-- Loops over what a list holds are structural recursion. The two loops over a connection,
-- `Guest.Verbs.handle_conn` and `Guest.Pty.pump_input`, run on fuel: a round takes at least a header,
-- so more fuel than the connection delivers bytes is enough, which is proved. The digits of a number
-- n are found with fuel n + 1, which is proved too.
--
-- Parameters are the code that is not in the repository: the DNS message type (DnsLibrary), the
-- upstream resolver, the clock, the random source, SHA-256, the JSON codec, the transport, the
-- operating system under the agent, how Go prints a duration, and the firewall behind `Programmer`.
-- The comparison of IDs up to case and the trimming of output are those of ASCII text. Not modelled
-- are the nft command lines, sockets and listeners, the shells behind terminals and the copying of
-- bytes between connections, the hypervisor and Docker backends but for the names they take, the web interface and its HTTP
-- handlers, sign-in, and the routing of box verbs and proxied streams.
pub mod Prelude
pub mod Netip
pub mod Guest
pub mod Box
pub mod Netfw
pub mod Dnsd
pub mod Isolation
pub mod Cluster
pub mod HubStore
pub mod Hub
