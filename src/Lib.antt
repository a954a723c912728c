-- ===== src/Lib.antt =====
-- AnyMirror, a gateway that mirrors, rewrites and intercepts web traffic by rules.
--
-- The configuration is compiled to a rule set. The DNS server asks the rule set whether it knows a
-- host, and if so answers with an address from the store of fake addresses; a packet to that address
-- is redirected to the gateway, and the NAT table keeps where it was sent to. The gateway resolves the
-- URL of a request by the rule set, through an index of three kinds of tries and some hash maps.
--
-- Hashing of keys is invisible: a `HashMap` is an association list (HashMap.antt), a `Mutex` is its
-- value and whether it is poisoned (Common/Sync.antt), a `str` is the list of its code points
-- (Text.antt). `Instant` and `Duration` are counts of seconds; an address is the number that its
-- octets spell.
--
-- FakeIp models src/traffic/shared/dns/fake_ip.rs. `FakeIpStore` becomes a record with a `Family` for
-- each address family, since the code for IPv4 and for IPv6 is the same but for the width of the
-- numbers; `allocate_or_refresh_ipv4`, `allocate_or_refresh_ipv6` and `resolve_domain` take the store
-- and the time, and give the new store and the result. FakeIp/Range has the bounds of the ranges,
-- FakeIp/Allocate the loop that looks for a free address. Its fuel is the number of addresses of the
-- range, which are the rounds that the source can make before it is back at the start.
--
-- NatTable models src/traffic/shared/nat.rs; NatTable/History has the sequences of the calls that the
-- packet handlers and the cleanup worker make, and the ledger that they are compared with.
--
-- Trie models src/rules/pool/trie.rs: Trie/Cidr the tries of networks (`CidrNode`, `insert_cidr`,
-- `visit_cidr_matches`), Trie/Nodes what the tries with a map of children share, Trie/Path
-- `PrefixPathTrie`, Trie/Host `SuffixHostTrie`, Trie/Cutoff the least index below a node and what a
-- cutoff skips. A visitor is the list of the indices that it is called with. The loops recur on
-- the bits, the bytes or the labels, so they need no fuel.
--
-- Rules/Matching models src/rules/matching.rs; a parsed URL of the crate `url` is the record of what
-- its accessors return (Rules/Url).
--
-- Rules/Model has the types of src/rules/model.rs, Rules/Compiled the index of
-- src/rules/pool/compiled.rs (`CompiledRuleIndex`, `compile`), Rules/Runtime the match of one rule and
-- the candidates of src/rules/pool/runtime.rs, Rules/Order and Rules/Resolve their order and the loop
-- of `resolve_candidates`. What the code calls of `url`, of `ipnet` and of the parser of addresses is
-- the record `Crates`, a parameter. An index out of range, where the source panics, is an outer
-- `none`. The reason of a mismatch is a constructor in place of a text. Rules/Candidates says which
-- candidates the index offers, Rules/Resolve/Linear compares the resolution with one that has no
-- index, Rules/Explain has the trace of `explain_candidates`, and Rules/Dns is about the hosts that
-- the DNS server answers.
--
-- Rules/Schema has the types of src/rules/schema.rs, Rules/Compile the checks of src/rules/compile.rs:
-- the matchers in the module itself, Rules/Compile/Actions the actions and plans, Rules/Compile/Sets
-- rules and rule sets. What they call of other crates and of the file system is the record `Parsers`.
-- An error is a constructor for each check; `expect_failed` is the panic of an `expect`.
-- Rules/Live has the rule set that a reload replaces while requests read it, of src/rules/pool/mod.rs.
--
-- Traffic models src/traffic/shared. A packet is the list of its bytes; an index or a slice that is out
-- of range, where the source panics, is `none` of the outermost `Option` of a handler. Traffic/Family
-- has the trait `IpPacketFamily` of src/traffic/shared/family as a record of its functions, with its two
-- implementations, Traffic/Sniff the host in a payload (src/traffic/shared/sniff.rs). The loop over the
-- extensions of a TLS hello has the end of the extensions as fuel, since a round moves the offset by
-- four at least. Traffic/Intercept/Tcp has the handlers of src/traffic/shared/intercept/tcp.rs and
-- Traffic/Intercept/Packets what they read of a packet; they take the packet, the address of the driver,
-- the DNS server and the NAT table, and give all of them back; Traffic/Intercept/Process the choice of a handler in src/traffic/shared/intercept/mod.rs.
-- Traffic/Dns has the server of src/traffic/shared/dns: the fake answers in the module itself,
-- Traffic/Dns/Response the responses. `Instant::now()` is an argument, for a loop a function of the
-- round. `etherparse`, `hickory` and `String::from_utf8` are the records `PacketCrates` and `Hickory`.
-- Traffic/Session puts the server and the handlers together.
--
-- Config models src/config.rs. A record of the file, such as `RawTunBackendOptions`, takes what stands
-- around a field with a default: `Option` as it is parsed, nothing after Config/Raw has put in the
-- defaults that the attributes of serde name. Config/Backend has the options of the backend and of the
-- observability with the parsers of their texts, Config/Plugins the plugins and the rules that they
-- bring, Config/Load `load_config`, Config/Path `resolve_config_path`. The record `System` holds what is
-- asked of the platform, its files and paths, and of the crates. The messages of the errors are left out.
--
-- Not modelled: the gateway (the parsing of proxied requests, forwarding, TLS and the HTTP client), the
-- plugin engine and the data that crosses to it, the drivers that capture packets and the filters that
-- are written for them, logging, the command line and the supervision of workers. Most of it is input
-- and output through other crates.
pub mod Common
pub mod HashMap
pub mod NatTable
pub mod Text
pub mod FakeIp
pub mod Trie
pub mod Rules
pub mod Traffic
pub mod Config
