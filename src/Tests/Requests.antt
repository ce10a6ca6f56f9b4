-- ===== src/Tests/Requests.antt =====
-- Runs of conversions and of the server that they are asked for at.
use subconverter_ng.AppConfig.{default}
use subconverter_ng.Cache.{Cache, Header}
use subconverter_ng.Common.{
  ℕ, ◌+◌, ◌-◌, ◌*◌, ◌≤◌, ◌≡◌, ◌⊎◌, refl, ap, inl, true, false, Option, none, some, List, [], ◌∷◌,
  Text, codes, same, has, length, completes, pos, negsuc, arith, lookup, run_tasks,
}
use subconverter_ng.Convert.Gather.Refined.{AllComplete, fetch_in_turn, fetch_and_parse_all-in_turn}
use subconverter_ng.Convert.Gather.{fetch_and_parse_all, source, source_at, collect, parsed_slot}
use subconverter_ng.Urls.{first_value}
use subconverter_ng.Convert.Run
use subconverter_ng.Convert.Run.Laws.{IsOutcome, run-IsOutcome}
use subconverter_ng.Convert.Run.{
  Diagnostics, converted, run, all_nodes, with_nodes, generated, external_config, diagnostics,
  merge_inserts, options_of, resolve_emoji,
}
use subconverter_ng.Generators.{Rendered}
use subconverter_ng.Convert.Targets.{Generator, normalize_target, render}
use subconverter_ng.Emoji.{Compile}
use subconverter_ng.ExtConfig
use subconverter_ng.Fetch.Client as FetchClient
use subconverter_ng.Fetch.Client.{Client, with_defaults}
use subconverter_ng.Node.{Node, new_node}
use subconverter_ng.Parser.{Parsed, is_share_link, match_scheme, first_scheme}
use subconverter_ng.Pipeline.Filters
use subconverter_ng.RateLimit.Valid.{new_limiter-IsValid}
use subconverter_ng.RateLimit.{Limiter, new_limiter, token, minute}
use subconverter_ng.Server.Admission.Rate.{answered, answered-window}
use subconverter_ng.Server.Admission.{serve-unauthorized}
use subconverter_ng.Server.Client.{IsTrusted, client_ip-IsTrusted}
use subconverter_ng.Server.Sub.Laws.{
  OnlyCache, IsSubStatus, handle_sub-IsSubStatus, handle_sub-no_cache, handle_sub-IsInner,
}
use subconverter_ng.Server.Sub.{flushed, handle_sub, no_cache}
use subconverter_ng.Server.Params.{bool_param}
use subconverter_ng.Server.{
  Server, Request, Response, Handler, ok_text, serve, unauthorized, token_of, client_ip,
  remote_host, is_trusted_proxy, any_addr, same_addr, forwarded_ip,
}
use subconverter_ng.Ssrf.{Addr, v4, Prefix, unmap}
use subconverter_ng.Strings.{to_lower, has_prefix, trim_space, split, is_on}
use subconverter_ng.Urls.{Url}

-- Two sources, each of one node.
abbrev page : Text
page = codes "https://a.org/1"

abbrev urls : List Text
urls = page ∷ codes "https://a.org/2" ∷ []

abbrev fetch : Text → Option (Text × Header)
fetch u = some (u, (codes "Subscription-Userinfo", u ∷ []) ∷ [])

abbrev parse : Text → Option Parsed
parse s =
    some
      (record { nodes = new_node (codes "trojan") s (codes "a.org") (pos 443) ∷ []; skipped = [] })

-- The second source completes first.
abbrev order : List ℕ
order = 1 ∷ 0 ∷ []

order-AllComplete : AllComplete order 2
unfolding completes
order-AllComplete i l = ground arith

fetch_and_parse_all-in_turn_example :
    fetch_and_parse_all fetch parse order urls ≡ fetch_in_turn fetch parse urls
fetch_and_parse_all-in_turn_example =
    fetch_and_parse_all-in_turn fetch parse order urls order-AllComplete

-- A server that answers one request a minute to each client, behind a proxy that it trusts.
abbrev limiter : Limiter
limiter = new_limiter (pos 1) (pos 1)

abbrev server : Server
server = record {
  cfg = record default { api_access_token = codes "secret" };
  version = codes "dev";
  cache = none;
  limiter = some limiter;
  trusted_cidrs = [];
  trusted_ips = v4 0x0A000001 ∷ [];
}

-- A request with the token, that the proxy forwards for a client.
abbrev request : Request
request = record {
  path = codes "/sub";
  remote_addr = codes "10.0.0.1";
  query =
      (codes "token", codes "secret" ∷ [])
      ∷ (codes "url", page ∷ [])
      ∷ (codes "nocache", codes "1" ∷ [])
      ∷ [];
  header = (codes "X-Forwarded-For", codes "8.8.8.8" ∷ []) ∷ [];
}

abbrev split_host_port : Text → Option Text
split_host_port s = none

abbrev parse_addr : Text → Option Addr
parse_addr s = elim (same s (codes "10.0.0.1")) [ true ↦ some (v4 0x0A000001) | false ↦ none ]

abbrev parse_prefix : Text → Option Prefix
parse_prefix s = none

abbrev pages : Request → Response
pages r = ok_text (codes "page")

abbrev url : Url
url = record {
  scheme = codes "http";
  user = none;
  host = codes "b.org";
  hostname = codes "b.org";
  port = [];
  path = [];
  query = [];
  fragment = [];
}

abbrev parse_url : Text → Option Url
parse_url raw = some url

abbrev network : Client → (Text → Option (Text × Header)) × Option Cache
network c = (fetch, c.cache)

abbrev orders : Request → List ℕ × List ℕ
orders r = (order, order)

abbrev compile : Compile
compile pattern = none

abbrev render_all : Generator → List Node → ExtConfig.Config → Filters.Options → Option Rendered
render_all g ns cfg opts = some (record {
  output = codes "proxies: []";
  content_type = [];
  node_count = length ns;
  empty_groups = [];
  skipped_rules = [];
  skipped_nodes = [];
  duplicates = 0;
  deprecated_dropped = 0;
  excluded_protocols = 0;
})

abbrev handler : Handler
handler = handle_sub parse_prefix parse_addr parse_url network orders parse compile [] render_all

handle_sub-IsSubStatus_example :
    OnlyCache server (handler 5 request server).0 × IsSubStatus (handler 5 request server).1.status
handle_sub-IsSubStatus_example =
    handle_sub-IsSubStatus parse_prefix parse_addr parse_url network orders parse compile []
      render_all 5 request server

handle_sub-no_cache_example :
    ((handler 5 request server).0 ≡ server)
    ⊎ ((handler 5 request server).0 ≡ flushed request server)
unfolding no_cache bool_param is_on first_value lookup same to_lower trim_space
handle_sub-no_cache_example =
    handle_sub-no_cache parse_prefix parse_addr parse_url network orders parse compile [] render_all
      5 request server refl

client_ip-IsTrusted_example :
    (a : Addr) × (parse_addr (remote_host split_host_port parse_addr request) ≡ some a)
    × IsTrusted server a
unfolding client_ip remote_host is_trusted_proxy any_addr same_addr unmap forwarded_ip first_value
    lookup same split trim_space
client_ip-IsTrusted_example =
    client_ip-IsTrusted split_host_port parse_addr server request
      (λ e. cc (ap (λ s. same s (codes "8.8.8.8")) e))

-- The request without its token.
abbrev stranger : Request
stranger = record request { query = [] }

serve-unauthorized_example :
    serve split_host_port parse_addr pages handler 5 stranger server ≡ (server, unauthorized)
unfolding token_of first_value lookup same
serve-unauthorized_example =
    serve-unauthorized split_host_port parse_addr pages handler 5 stranger server (inl refl)
      (λ e. cc) (λ e. cc (ap (λ s. same s []) e))

abbrev requests : List (ℕ × Request)
requests = (0, request) ∷ (1, stranger) ∷ (2, request) ∷ []

answered-window_example :
    answered split_host_port parse_addr pages handler (codes "8.8.8.8") requests server * token
    ≤ limiter.burst * token + limiter.refill * (minute - 0)
unfolding new_limiter
answered-window_example =
    answered-window split_host_port parse_addr pages handler
      (handle_sub-IsInner parse_prefix parse_addr parse_url network orders parse compile []
        render_all)
      (codes "8.8.8.8") 0 minute requests server limiter refl (new_limiter-IsValid (pos 1) (pos 1))
      (omega arith, (omega arith, (omega arith, omega arith))) (omega arith)

-- The options of a client whose proxy the query names.
abbrev client_opts : FetchClient.Options
client_opts = record {
  user_agent = [];
  proxy = codes "http://b.org";
  flare_solverr_url = [];
  timeout = pos 0;
  max_retries = pos 0;
  cache_ttl = negsuc 0;
  cache = none;
  allow_private_ips = false;
  allow_private_cidrs = [];
  trusted_proxy = codes "http://10.0.0.1";
}

abbrev client : Client
client = record {
  opts = with_defaults client_opts;
  proxy = some url;
  trusted_proxy_host = [];
  cache = none;
}

abbrev gen : Filters.Options
gen = record {
  sort = false;
  udp = false;
  tfo = false;
  skip_cert_verify = false;
  remove_emoji = false;
  add_emoji = false;
  emoji_rules = [];
  rename_rules = [];
  use_rule_providers = false;
  dedup = false;
  filter_deprecated = false;
  append_type = false;
  list_only = false;
  tailscale = false;
  exclude_protocols = [];
}

-- The two sources as a subscription, with one of them inserted once more.
abbrev conversion : Run.Request
conversion = record {
  target = codes "clash";
  sub_urls = urls;
  config_url = [];
  gen = gen;
  emoji = none;
  add_emoji = some false;
  remove_emoji = none;
  no_cache = false;
  insert_urls = page ∷ [];
  insert_prepend = true;
}

abbrev diag : Diagnostics
diag = record {
  node_count = 3;
  skipped_lines = [];
  empty_groups = [];
  skipped_rules = [];
  skipped_nodes = [];
  duplicates = 0;
  deprecated = 0;
  excluded_protocols = 0;
  content_type = [];
  subscription_userinfo = page;
}

converts :
    run fetch parse compile [] render_all order (0 ∷ []) conversion
    ≡ converted (codes "proxies: []") diag
unfolding run all_nodes merge_inserts with_nodes generated external_config diagnostics
    fetch_and_parse_all source source_at collect parsed_slot first_value is_share_link match_scheme
    first_scheme has_prefix to_lower trim_space normalize_target render has lookup same run_tasks
converts = refl

run-IsOutcome_example :
    IsOutcome fetch parse compile [] render_all conversion
      (run fetch parse compile [] render_all order (0 ∷ []) conversion)
run-IsOutcome_example =
    run-IsOutcome fetch parse compile [] render_all order (0 ∷ []) conversion order-AllComplete
      inserts-AllComplete
  where
    inserts-AllComplete : AllComplete (0 ∷ []) 1
    inserts-AllComplete i l = unfold completes in ground arith
