-- ===== src/Lib.antt =====
-- subconverter-ng turns subscription links into proxy configurations for Clash, sing-box, Surge and
-- others. This library models its core, the Go packages under internal/, and proves what they
-- promise.
--
-- A request names subscription URLs, a target and an external config. The server lets it through
-- the rate limiter, the convert package fetches the subscriptions (through the SSRF defence and
-- the response cache) and parses them into nodes, the external config says which groups and rules
-- are wanted, and a generator runs the nodes through its pipeline and writes groups and rules.
--
--   RateLimit    internal/ratelimit/ratelimit.go: `New` is new_limiter, `Allow` is allow,
--                `EvictStale` is evict_stale. The clock is an argument.
--   Cache        internal/fetch/cache.go: `NewCache`, `get`, `set`, `Flush`, `Len`.
--   Ssrf         internal/fetch/ssrf.go: Ssrf has the predicates on addresses and names, Ranges the
--                table that they are compared with, Policy the checks of URLs and redirects, Dial
--                `safeDialContext`.
--   Fetch        internal/fetch/fetch.go: `GetWithMeta`, `fetchDirect`, `do`, `maybeCache`; Client has
--                `New`.
--   Node         internal/proxy/proxy.go: a parsed node and its Clash mapping; Accessors has the
--                typed readers of internal/generator/common.go.
--   Emoji        internal/emoji/emoji.go: rules, removal and addition of emoji.
--   ExtConfig    internal/extconfig/extconfig.go: `Parse`, a line at a time.
--   Pipeline     internal/generator/common.go and clash.go: Protocols (`ParseProtocols`,
--                `filterProtocols`), Names (`uniquifyNames`), Filters (`filterNodes`, `dedup`,
--                `filterDeprecated`, `applyNodeOptions`), Renames (`CompileRenameRules`), Prepare
--                (`prepareNodes`).
--   Groups       internal/generator/clash.go: `resolveSelectors`, `buildGroups`.
--   Rules        internal/generator/common.go and clash.go: neutral rules, `parseRemoteRuleset`,
--                `collectRules`, `buildRules`, `buildRuleProviders`.
--   Convert      internal/convert: Targets (targets.go: `NormalizeTarget`, the choice of the
--                generator), Gather (convert.go: `fetchAndParseAll`), Run (`Run`, `resolveEmoji`).
--   Parser       internal/parser: `Parse`, `dispatch`, `tryBase64` (parser.go), Util (util.go), Calls
--                (the calls of `Set` that build a node), Links (the parsers of the links that are
--                URLs), Plain (socks.go, wireguard.go), Encoded (ss.go, ssr.go, vmess.go), Registry.
--   Generators   internal/generator: `Result`, and V2ray (v2ray.go: `nodeShareLink` and
--                `GenerateV2ray`).
--   AppConfig    internal/config: the settings and their overrides (config.go), Checks (`Validate`,
--                `Load`), Redact (redact.go: `RedactURL`, `RedactSubURL`).
--   Server       internal/server/server.go: the routes, `authenticate`, `rateLimit`, `clientIP`,
--                Params (the query's parameters), Sub (`handleSub`).
--   Urls         what the program reads of a URL that `url.Parse` has parsed.
--   Strings      what these use of Go's strings, strconv and sort packages.
--   Common       shared types, lists, association lists, texts, and slots written by goroutines.
--   Tests        runs at concrete data.
--
-- A string is the list of its code points, a map is an association list, an instant a number of
-- nanoseconds, and a call under a mutex one step. What other code does is an argument: the clock,
-- `regexp.Compile`, `yaml.Marshal`, `url.Parse`, `netip.ParseAddr`, the resolver, the dialer and
-- the fetches. Goroutines that each write their own slot are an order in which the slots are
-- written. A Go `int` is an integer without bound.
--
-- The one loop with fuel is that of `uniquifyNames`, which tries suffixes until one is free: one
-- try more than there are names in the way is enough, and the result on names says so.
--
-- A fetch takes a number of retries that is not negative. Concurrent callers that share a flight
-- are one caller.
--
-- A conversion meets a network that answers each URL alike all through the request, and gives the
-- cache that the request leaves. A handler is one step of the server, and the limiter's call in it
-- takes the instant of the request. An error's message is left out: an error is its kind.
--
-- Not modelled: the HTTP server and transport, the parsers of the document formats, the generators
-- for Clash, sing-box, Surge and Quantumult X behind the pipeline, `RedactString`, `Summary`, the
-- command line and the web page.
pub mod Common
pub mod Urls
pub mod Generators
pub mod Server
pub mod AppConfig
pub mod RateLimit
pub mod Cache
pub mod Strings
pub mod Node
pub mod Emoji
pub mod ExtConfig
pub mod Pipeline
pub mod Groups
pub mod Rules
pub mod Parser
pub mod Ssrf
pub mod Tests
pub mod Fetch
pub mod Convert
