-- ===== src/Tests/Settings.antt =====
-- Runs of the configuration, of the start of the server and of the redaction of URLs.
use subconverter_ng.AppConfig.Checks.{
  File, contents, load, loaded, finish_load, validate, first_error, check_each, check_cidr,
  is_narrow, check_trusted_proxy, check_scheme, check_insert_url, backfilled,
}
use subconverter_ng.AppConfig.Redact.Hidden.{redact_url-hides, redact_sub_url_panics}
use subconverter_ng.AppConfig.Redact.{redact_url, redact_sub_url, opaque_scheme}
use subconverter_ng.AppConfig.{
  Config, default, apply_env, fetch_env, rate_limit_env, insert_env, parse_cidr_or_ip, masked,
  is_special_addr, is_special_unmapped,
}
use subconverter_ng.Common.{
  ◌≡◌, refl, true, false, Option, none, some, [], ◌∷◌, Text, codes, same, ℤ,
}
use subconverter_ng.Server.Start.{new-load, IsLimited}
use subconverter_ng.Server.{Server, new}
use subconverter_ng.Ssrf.{Addr, v4, Prefix, unmap, is_loopback, is_private}
use subconverter_ng.Strings.{trim_space, contains, to_lower, join, has_prefix}
use subconverter_ng.Urls.{Url}

-- The file sets a private network and a trusted proxy.
abbrev settings : Config
settings = record default {
  fetch = record default.fetch { allow_private_cidrs = codes "10.0.0.0/8" ∷ [] };
  rate_limit = record default.rate_limit { trusted_proxies = codes "10.0.0.1" ∷ [] };
}

abbrev parse_url : Text → Option Url
parse_url raw = none

abbrev parse_prefix : Text → Option Prefix
parse_prefix s = elim (same s (codes "10.0.0.0/8")) [
  | true ↦ some (record { is_v4 = true; base = 0x0A000000; bits = 8 })
  | false ↦ none
]

abbrev parse_addr : Text → Option Addr
parse_addr s = elim (same s (codes "10.0.0.1")) [ true ↦ some (v4 0x0A000001) | false ↦ none ]

abbrev env : Text → Text
env v = []

abbrev parse_duration : Text → Option ℤ
parse_duration s = none

abbrev unmarshal : Text → Config → Option Config
unmarshal s c = some settings

abbrev file : File
file = contents (codes "fetch: {}")

loads : load parse_url parse_prefix parse_addr env parse_duration unmarshal file ≡ loaded settings
unfolding load finish_load validate first_error check_each check_cidr is_narrow check_trusted_proxy
    check_scheme check_insert_url backfilled apply_env fetch_env rate_limit_env insert_env
    parse_cidr_or_ip masked is_special_addr is_special_unmapped unmap is_loopback is_private same
    trim_space
loads = refl

new-load_example :
    (s : Server) × (new parse_prefix parse_addr settings ≡ some s)
    × (s.cfg ≡ settings)
    × IsLimited s.limiter
new-load_example =
    new-load parse_url parse_prefix parse_addr env parse_duration unmarshal file settings loads

redact_url-hides_example :
    redact_url (codes "https://me:pw@a.org/sub?token=x1&n=2")
    ≡ codes "https://***@a.org/sub?token=***&n=***"
unfolding opaque_scheme trim_space same join has_prefix to_lower
redact_url-hides_example =
    redact_url-hides (codes "https") (codes "me:pw") (codes "a.org") (codes "/sub") (codes "token")
      (codes "x1") ((codes "n", codes "2") ∷ [])
      (record {
        scheme_plain = (
          (refl, (refl, (refl, (refl, (refl, tt))))),
          (refl, (refl, (refl, (refl, (refl, tt))))),
        );
        user_plain = (refl, (refl, (refl, (refl, (refl, tt)))));
        host_plain = (
          (refl, (refl, (refl, (refl, (refl, tt))))),
          (refl, (refl, (refl, (refl, (refl, tt))))),
        );
        path_starts = refl;
        path_plain = (refl, (refl, (refl, (refl, tt))));
      })
      (
        (refl, (refl, (refl, (refl, (refl, tt))))),
        (refl, (refl, (refl, (refl, (refl, tt))))),
        (refl, (refl, tt)),
        ((refl, tt), (refl, tt), (refl, tt), tt),
      )
      (refl, refl)

redact_sub_url_panics_example : redact_sub_url (codes "?next=https://a.org") ≡ none
redact_sub_url_panics_example =
    redact_sub_url_panics (codes "next=https://a.org") (unfold trim_space in refl)
      (unfold contains in refl)
