-- ===== src/Lib.antt =====
-- MistUI is the daemon of a travel router's web interface. These modules model its core: who may log
-- in, what happens around a captive portal, and what the router is told to do.
--
-- The parts and their sources, as paths from the repository's root:
--   Base         Go's error results, byte strings, lists and integers, and their lemmas.
--   Store        internal/store/store.go: a function per method (PutSession is put_session, and so
--                on). Store/Database holds what bbolt and the RFC 3339 codec of Go promise,
--                Store/Sessions, Store/Config and Store/Creds what the methods make of it, and
--                Store/Memory a database in memory that keeps those promises.
--   Auth         internal/auth: ParseCOSE, VerifyAssertion, VerifyClientData, VerifyAuthData,
--                ParseRegistration. The libraries they call are the fields of the record Crypto.
--   HttpApi      internal/httpapi. TtlSet is ttlSet of authflow.go (challenges and step-up
--                credits); Server the record of that name with the state that requests change, and
--                a monad for handlers that return early; Session issueSession, sessionValid, logout
--                and requireSession; Ceremonies the passkey, recovery and step-up handlers; Routes
--                the dispatch of api.go; Portal the pause of portalmode.go; Toggles the handlers of
--                netops.go and dnsops.go that switch protections; Privacy the settings and the
--                rotation of the MAC address in netops.go; Maint the firmware and reset handlers of
--                maintops.go, over internal/maint as a parameter; Tunnel the vpn handlers of
--                api.go and pinEndpoints of dnsops.go; Joins the Wi-Fi handlers of netops.go.
--   Router       internal/vpn/vpn.go, Connector, and internal/dns/service.go, Service, as interfaces of
--                calls, of which nothing is assumed: what the handlers and the portal machine do with
--                them is said by the calls they make and what these return. Router/Uci is
--                internal/run/run.go and runAll: the commands, their argument vectors, and their effect
--                on the configuration that is staged, the one in the files (uci commit) and the one that
--                the services have loaded (their reloads). Router/Force says when a run of
--                commands puts its changes in force.
--   Dns          internal/dns/providers.go and service.go: the resolver table, Enable, Disable and
--                SetFailClosed as lists of commands. Dns/Forwarder is forwarder.go: handle, exchange,
--                servfail, dialPinned, a round of serveUDP, serveConn, and the counters.
--   Netcfg       internal/netcfg/identity.go and wifi.go: device identities, the travel network.
--   Vpn          internal/vpn. Config is config.go (ParseConfig, validate, Summary), on the functions of
--                Go's strings that Text writes out; KillSwitch the scripts of killswitch.go over the
--                list of the firewall's forwardings; Connector the commands of vpn.go.
--   Certgen      internal/certgen/certgen.go: EnsureMaterial over a directory and Go's X.509.
--   Tests        A device in memory, and the theorems applied to it.
--
-- How they interact: a handler is a function of a request and the server's state. It reads and
-- writes the database through Store, spends challenges and credits through TtlSet, checks
-- signatures through Auth, and changes the router through Router. A call of a library or of the
-- router may fail, and then its error is a value (Result) and the state is the one after the
-- failure. A database write either commits or leaves the database as it was.
--
-- Choices. Go's maps are functions, and deleting from one while ranging over it is a pass over all
-- keys. All clock readings while one request is served agree; times are nanoseconds since 1970 as
-- natural numbers, and bounds on them (the year 10000) are those of the RFC 3339 codec. The bytes
-- of a string are natural numbers. Random tokens are arguments, with the failure of their source.
-- Requests are served one after another; the goroutine of the portal watch is a sequence of
-- rounds, each with its clock reading and its verdict. Loops are recursions on lists, or on the
-- rounds that the source counts, but two: the loop of serveConn takes fuel, for which one more
-- than the bytes that the client sends is enough, since a round takes at least three; and the loop
-- of the kill switch's script, for which one more than the forwardings is enough, since a round
-- deletes one. Each answers none where its fuel runs out. The laws of `uci` are assumed for plain
-- names and values only (Router/Uci, Vpn/Connector). That JSON reads a portal record back is assumed
-- for single records, since it does not for an address that is not UTF-8. Text is ASCII where ParseConfig trims it and
-- lowers its case. The forwarder's queries are served one after another.
--
-- Not modelled: the listeners and the transport (TLS, HTTP, sockets), LookupHost, netlink, the
-- status of the Wi-Fi, the image file, and the start of the daemon.
pub mod Base
pub mod Store
pub mod Auth
pub mod Router
pub mod Dns
pub mod HttpApi
pub mod Netcfg
pub mod Vpn
pub mod Certgen
mod Tests
