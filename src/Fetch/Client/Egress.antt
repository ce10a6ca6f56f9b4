-- ===== src/Fetch/Client/Egress.antt =====
-- Through which proxy a client goes, and which host it may dial at an internal address.
use subconverter_ng.Common.{◌≡◌, ◌≢◌, true, false, Option, some, [], Text, has, codes}
use subconverter_ng.Fetch.Client.{Options, Client, proxy_schemes}
use subconverter_ng.Ssrf.Policy.{IsOpenHost}
use subconverter_ng.Ssrf.{Addr}
use subconverter_ng.Strings.{to_lower, equal_fold}
use subconverter_ng.Urls.{Url}

module _ (parse_url : Text → Option Url) (parse_addr : Text → Option Addr) where
  -- A proxy that may be used though it is not the operator's: its scheme is one of the four, and
  -- its host is not internal.
  abbrev IsOpenProxy : Options → Type 0
  IsOpenProxy o =
      (u : Url) × (parse_url o.proxy ≡ some u)
      × (has proxy_schemes (to_lower u.scheme) ≡ true)
      × (u.hostname ≢ [])
      × IsOpenHost parse_addr o.allow_private_cidrs u.hostname

  -- The transport goes through the proxy at this URL: what it dials is the URL but for the scheme,
  -- which is not `socks5h`.
  abbrev pub GoesThrough : Url → Client → Type 0
  GoesThrough u c =
      (p : Url) × (c.proxy ≡ some p)
      × (record p { scheme = u.scheme } ≡ u)
      × (equal_fold p.scheme (codes "socks5h") ≡ false)
