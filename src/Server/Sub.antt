-- ===== src/Server/Sub.antt =====
-- internal/server/server.go: `handleSub`, the handler of conversions.
--
-- `network` is what a client meets: the answers that it gets during the request, and its cache
-- afterwards. `orders` are the orders in which the goroutines of a conversion complete.
pub mod Laws
use subconverter_ng.AppConfig.{Config, private_cidrs}
use subconverter_ng.Cache.{Cache, Header}
use subconverter_ng.Common.{
  ℕ, Bool, true, false, not, ◌&&◌, ◌||◌, Option, none, some, List, [], ◌∷◌, ◌++◌, Text, codes, same,
  if◌then◌else◌, ℤ, pos, negsuc,
}
use subconverter_ng.Urls.{first_value}
use subconverter_ng.Convert.Run
use subconverter_ng.Convert.Run.{Diagnostics, Outcome, converted, failed, RunError, no_nodes, run}
use subconverter_ng.Generators.{Rendered}
use subconverter_ng.Convert.Targets.{Generator}
use subconverter_ng.Emoji.{EmojiRule, Compile}
use subconverter_ng.ExtConfig
use subconverter_ng.Fetch.Client.{
  Client, ClientError, Built, built, not_built, new_client, validate_proxy_url,
}
use subconverter_ng.Fetch.Client as FetchClient
use subconverter_ng.Fetch.{flush_cache}
use subconverter_ng.Node.{Node}
use subconverter_ng.Parser.{Parsed}
use subconverter_ng.Pipeline.Filters
use subconverter_ng.Server.Params.{
  split_urls, bool_tri, bool_param, parse_protocol_params, sanitize_filename, update_interval,
}
use subconverter_ng.Server.{
  Server, Request, Response, Handler, bad_proxy, bad_client, bad_run, text, problem, text_plain,
  http_error,
}
use subconverter_ng.Ssrf.Policy.{Refusal}
use subconverter_ng.Ssrf.{Addr, Prefix}
use subconverter_ng.Strings.{trim_space, first_non_empty}
use subconverter_ng.Urls.{Url}

-- `url.Values.Get`.
abbrev pub get : Request → Text → Text
get r key = first_value r.query key

-- The options of the generators that the query sets.
unfoldable pub gen_of : Request → Filters.Options
gen_of r = record {
  sort = bool_param (get r (codes "sort")) false;
  udp = bool_param (get r (codes "udp")) false;
  tfo = bool_param (get r (codes "tfo")) false;
  skip_cert_verify = bool_param (get r (codes "scv")) false;
  remove_emoji = false;
  add_emoji = false;
  emoji_rules = [];
  rename_rules = [];
  use_rule_providers = not (bool_param (get r (codes "expand")) true);
  dedup = bool_param (get r (codes "dedup")) false;
  filter_deprecated = bool_param (get r (codes "fdn")) false;
  append_type = bool_param (get r (codes "append_type")) false;
  list_only = bool_param (get r (codes "list")) false;
  tailscale = bool_param (get r (codes "tailscale")) false;
  exclude_protocols = parse_protocol_params r.query;
}

unfoldable pub no_cache : Request → Bool
no_cache r = bool_param (get r (codes "nocache")) false

-- The conversion that a query asks for.
unfoldable pub conversion_of : Config → Request → Run.Request
conversion_of cfg r = record {
  target = if same (get r (codes "target")) [] then codes "clash" else get r (codes "target");
  sub_urls = split_urls (get r (codes "url"));
  config_url = first_non_empty (get r (codes "config") ∷ cfg.default_config_url ∷ []);
  gen = gen_of r;
  emoji = bool_tri (get r (codes "emoji"));
  add_emoji = bool_tri (get r (codes "add_emoji"));
  remove_emoji = bool_tri (get r (codes "remove_emoji"));
  no_cache = no_cache r;
  insert_urls =
      if bool_param (get r (codes "insert")) cfg.insert.enabled then cfg.insert.urls else [];
  insert_prepend = cfg.insert.prepend;
}

-- The header of a file name, if there is one.
abbrev pub disposition : Text → List (Text × Text)
disposition fn =
    if same fn []
    then []
    else (
      codes "Content-Disposition",
      codes "attachment; filename=\"" ++ (sanitize_filename fn ++ codes "\""),
    )
      ∷ []

abbrev pub userinfo_header : Text → List (Text × Text)
userinfo_header info = if same info [] then [] else (codes "Subscription-Userinfo", info) ∷ []

-- The response of a conversion that succeeded.
unfoldable pub success : Request → Text → Diagnostics → Response
success r out diag = record {
  status = 200;
  header =
      (
        codes "Content-Type",
        if same diag.content_type [] then codes "text/yaml; charset=utf-8" else diag.content_type,
      )
      ∷ (codes "Profile-Update-Interval", update_interval (get r (codes "interval")))
      ∷ (disposition (trim_space (get r (codes "filename")))
          ++ userinfo_header diag.subscription_userinfo);
  body = text out;
}

-- `writeUserError`.
unfoldable pub write_user_error : RunError → Response
write_user_error no_nodes = http_error 422 (problem (bad_run no_nodes))
write_user_error e = http_error 424 (problem (bad_run e))

unfoldable pub respond : Request → Outcome → Response
respond r (converted out diag) = success r out diag
respond r (failed e) = write_user_error e

-- The cache that the request may clear.
unfoldable pub flushed : Request → Server → Server
flushed r s =
    if bool_param (get r (codes "flushcache")) false
    then record s { cache = flush_cache s.cache }
    else s

-- The cache of the server after a client that may share it.
abbrev pub share_back : Option Cache → Option Cache → Server → Server
share_back none after s = s
share_back (some c) after s = record s { cache = after }

module _ (parse_prefix : Text → Option Prefix) (parse_addr : Text → Option Addr) where
  -- The options of the client: without a cache of the server's, or with `nocache`, it has none.
  unfoldable pub client_options : Request → Server → FetchClient.Options
  client_options r s = record {
    user_agent = s.cfg.fetch.user_agent;
    proxy = first_non_empty (get r (codes "proxy") ∷ s.cfg.fetch.proxy ∷ []);
    flare_solverr_url = s.cfg.fetch.flare_solverr_url;
    timeout = s.cfg.fetch.timeout;
    max_retries = pos 0;
    cache_ttl =
        if no_cache r
        then negsuc 0
        else elim s.cache [ none ↦ negsuc 0 | some c ↦ s.cfg.fetch.cache_ttl ];
    cache = if no_cache r then none else s.cache;
    allow_private_ips = s.cfg.fetch.allow_private_ips;
    allow_private_cidrs = private_cidrs parse_prefix parse_addr s.cfg.fetch;
    trusted_proxy = s.cfg.fetch.proxy;
  }

  -- The check of the proxy that a query names.
  unfoldable pub check_user_proxy : (Text → Option Url) → Request → Server → Option Refusal
  check_user_proxy parse_url r s =
      if not (same (get r (codes "proxy")) []) && not s.cfg.fetch.allow_private_ips
      then validate_proxy_url parse_url parse_addr (get r (codes "proxy")) false
          (private_cidrs parse_prefix parse_addr s.cfg.fetch)
      else none

module _ (parse_prefix : Text → Option Prefix) (parse_addr : Text → Option Addr)
    (parse_url : Text → Option Url)
    (network : Client → (Text → Option (Text × Header)) × Option Cache)
    (orders : Request → List ℕ × List ℕ) (parse : Text → Option Parsed) (compile : Compile)
    (default_emoji : List EmojiRule)
    (generate : Generator → List Node → ExtConfig.Config → Filters.Options → Option Rendered) where
  -- The conversion with a client that was built.
  unfoldable pub convert_with : Client → Request → Server → Server × Response
  convert_with c r s =
      let (answers, after) = network c in
      let (subs, inserts) = orders r in
      (
        share_back c.cache after s,
        respond r
            (run answers parse compile default_emoji generate subs inserts (conversion_of s.cfg r)),
      )

  -- `handleSub` behind the flush.
  unfoldable pub convert_request : Request → Server → Server × Response
  convert_request r s = elim (check_user_proxy parse_prefix parse_addr parse_url r s) [
    | some why ↦ (s, http_error 400 (problem (bad_proxy why)))
    | none ↦ elim (new_client parse_url parse_addr (client_options parse_prefix parse_addr r s)) [
      | not_built e ↦ (s, http_error 400 (problem (bad_client e)))
      | built c ↦ convert_with c r s
    ]
  ]

  unfoldable pub handle_sub : Handler
  handle_sub now r s =
      if same (get r (codes "url")) []
      then (s, http_error 400 (text (codes "missing required parameter: url\n")))
      else convert_request r (flushed r s)
