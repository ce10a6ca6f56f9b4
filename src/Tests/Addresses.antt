-- ===== src/Tests/Addresses.antt =====
-- Runs of the defence against internal addresses.
use subconverter_ng.Common.{
  ◌<◌, ℕ, ◌+◌, ◌*◌, ◌^◌, ◌≡◌, refl, true, false, Option, none, some, List, [], ◌∷◌, Text, codes,
  same, All, arith,
}
use subconverter_ng.Ssrf.Dial.{Target, safe_dial, safe_dial-IsSafe, IsSafe}
use subconverter_ng.Ssrf.Policy.{check_redirect, check_redirect-none, IsOpenName, IsOpenHost}
use subconverter_ng.Urls.{Url}
use subconverter_ng.Ssrf.Ranges.{is_blocked_ip-in_ranges, in_ranges, internal_ranges}
use subconverter_ng.Ssrf.{Addr, v4, v6, is_blocked_ip, is_blocked_hostname, is_denied_ip}
use subconverter_ng.Strings.{to_lower}

-- 10.0.0.1, and the public 8.8.8.8.
abbrev inner : Addr
inner = v4 0x0A000001

abbrev outer : Addr
outer = v4 0x08080808

abbrev parse_addr : Text → Option Addr
parse_addr s = elim (same s (codes "10.0.0.1")) [
  | true ↦ some inner
  | false ↦ elim (same s (codes "8.8.8.8")) [ true ↦ some outer | false ↦ none ]
]

-- A name that resolves to one address of each kind.
abbrev resolve : Text → Option (List Addr)
resolve s = some (outer ∷ inner ∷ [])

abbrev dial : Target → Option ℕ
dial t = some 7

safe_dial-IsSafe_example :
    All
      (IsSafe parse_addr resolve dial [])
      (safe_dial parse_addr resolve dial false [] [] (codes "8.8.8.8") (codes "443")).attempts
unfolding same
safe_dial-IsSafe_example =
    safe_dial-IsSafe parse_addr resolve dial [] [] (codes "8.8.8.8") (codes "443") refl

is_blocked_ip-in_ranges_example :
    (is_blocked_ip (v4 0x0A000001) ≡ in_ranges internal_ranges 0x0A000001)
    × (is_blocked_ip (v6 (0xFFFF * 2 ^ 32 + 0x0A000001) (codes "eth0"))
        ≡ in_ranges internal_ranges 0x0A000001)
is_blocked_ip-in_ranges_example = is_blocked_ip-in_ranges 0x0A000001 (codes "eth0") (omega arith)

-- A URL on the public address.
abbrev url : Url
url = record {
  scheme = codes "HTTPS";
  user = none;
  host = codes "8.8.8.8";
  hostname = codes "8.8.8.8";
  port = [];
  path = codes "/";
  query = [];
  fragment = [];
}

abbrev schemes : List Text
schemes = codes "http" ∷ codes "https" ∷ []

abbrev parse_url : Text → Option Url
parse_url raw = some url

check_redirect-none_example :
    (2 < 10)
    × IsOpenHost parse_addr [] (codes "8.8.8.8")
    × IsOpenName parse_addr resolve [] (codes "8.8.8.8")
unfolding check_redirect is_blocked_hostname is_denied_ip to_lower same
check_redirect-none_example = check_redirect-none parse_addr resolve [] 2 url refl
