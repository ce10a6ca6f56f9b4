-- ===== src/Generators/V2ray/Links/ReadBack.antt =====
-- The share link of a Shadowsocks node is read back by the parser of links.
use subconverter_ng.Common.{
  ℕ, zero, suc, ◌≤◌, ◌<◌, ◌^◌, ◌≢◌, ◌⊎◌, ◌||◌, ltb, ◌==◌, arith, pos, same_ne, ◌≡◌, refl, sym, ap,
  ◌∙◌, true, false, Option, none, some, List, [], ◌∷◌, ◌++◌, Text, codes, same, append_assoc,
  lookup,
}
use subconverter_ng.Generators.V2ray.Links.HostPort.{
  Unspaced, IsHost, split_host_port-itoa, b64decode-agree,
}
use subconverter_ng.Generators.V2ray.Links.{hostport, fragment, query_suffix, ss_link_of}
use subconverter_ng.Generators.V2ray.{ss_plugin_parts}
use subconverter_ng.Node.Accessors.{cs, ci}
use subconverter_ng.Node.{flag, Bag, Node, new_node}
use subconverter_ng.Parser.Calls.{
  cipher, password, udp, set_text, raw_to, apply_calls, is_zero, checked,
}
use subconverter_ng.Parser.Links.Encoded.{
  Values, cut_fragment, cut_query, sip002, ss_link, ss_node, apply_ss_plugin, parse_ss,
}
use subconverter_ng.Parser.Util.{split_host_port, split_cred}
use subconverter_ng.Parser.{Encoding, raw_url}
use subconverter_ng.Strings.Decimal.{itoa, itoa_nat, itoa_nat-AreDigits}
use subconverter_ng.Strings.Laws.{
  AreDigits-Lacks, Lacks, cut-Lacks, cut-none, cut_last-Lacks, has_prefix-append,
  drop_prefix-append, Lacks-append,
}
use subconverter_ng.Strings.{trim_space, trim_prefix, first_non_empty, replace_char}
use subconverter_ng.Urls.{first_value}

trim_prefix-append : (pre s : Text) → trim_prefix (pre ++ s) pre ≡ s
unfolding trim_prefix
trim_prefix-append pre s = rw (has_prefix-append pre s, drop_prefix-append pre s)

module _ (encode64 : Encoding → Text → Text) (query_escape : Text → Text)
    (encode_query : List (Text × List Text) → Text) (userinfo : Text → Text → Text)
    (marshal_json : Bag → Text) (unescape : Text → Option Text)
    (decode : Encoding → Text → Option Text) (parse_query : Text → Values) where
  abbrev frag : Text → Text
  frag = fragment encode64 query_escape encode_query userinfo marshal_json

  abbrev creds : Node → Text
  creds n = cs n.clash (codes "cipher") ++ (b':' ∷ cs n.clash (codes "password"))

  -- What the generator and the parser rely on in the encoders and decoders of Go's libraries, for the
  -- texts of a node: base64 has no `#` and no space, its decoder gives the credentials back, and each
  -- decoder of another variant gives them as well or fails; the escaped name is unescaped.
  pub record AreInverse (n : Node) : Type 0 where
    pub decodes : decode raw_url (encode64 raw_url (creds n)) ≡ some (creds n)
    pub agree :
        (e : Encoding)
        → (decode e (encode64 raw_url (creds n)) ≡ none)
          ⊎ (decode e (encode64 raw_url (creds n)) ≡ some (creds n))
    pub plain : Lacks b'#' (encode64 raw_url (creds n))
    pub unspaced : Unspaced (encode64 raw_url (creds n))
    pub unescapes : unescape (replace_char b'+' (codes "%20") (query_escape n.name)) ≡ some n.name

  -- A node that a link can carry: its host has no space and none of the characters that mean
  -- something in a link, its port is one of a machine, its cipher has no colon, and it has a name with
  -- no space around it and no plugin.
  pub record IsCarried (n : Node) : Type 0 where
    pub no_plugin : ss_plugin_parts n.clash ≡ none
    pub host : IsHost (cs n.clash (codes "server"))
    pub host_plain :
        Lacks b'#' (cs n.clash (codes "server"))
        × Lacks b'@' (cs n.clash (codes "server"))
        × Lacks b'?' (cs n.clash (codes "server"))
    pub port : ℕ
    pub has_port : (ci n.clash (codes "port") ≡ pos port) × (1 ≤ port) × (port < 2 ^ 16)
    pub has_cipher : cs n.clash (codes "cipher") ≢ []
    pub cipher_plain : Lacks b':' (cs n.clash (codes "cipher"))
    pub has_name : n.name ≢ []
    pub name_trimmed : trim_space n.name ≡ n.name

  hostport-Lacks :
      (n : Node) (c : ℕ)
      → IsCarried n
      → (ltb c b'0' || ltb b'9' c) ≡ true
      → (b':' == c) ≡ false
      → Lacks c (cs n.clash (codes "server"))
      → Lacks c (hostport n.clash)
  unfolding hostport itoa
  hostport-Lacks n c x digit colon plain =
      rw (x.has_port.0, hostport)
        (Lacks-append c (cs n.clash (codes "server")) (b':' ∷ itoa_nat x.port) plain
          (colon, AreDigits-Lacks c (itoa_nat x.port) digit (itoa_nat-AreDigits x.port)))

  place_read :
      (n : Node)
      → IsCarried n
      → split_host_port (hostport n.clash)
        ≡ (cs n.clash (codes "server"), ci n.clash (codes "port"))
  unfolding hostport
  place_read n x =
      rw (x.has_port.0, hostport)
        (split_host_port-itoa (cs n.clash (codes "server")) x.port x.host
          (omega (arith, x.has_port.2)))

  -- The node that is read: the name, the host, the port, the cipher and the password of the node.
  unfoldable pub read_node : Node → Node
  read_node n =
      apply_calls
        (set_text cipher (cs n.clash (codes "cipher"))
          ∷ set_text password (cs n.clash (codes "password"))
          ∷ raw_to udp (flag true)
          ∷ [])
        (new_node (codes "ss") n.name (cs n.clash (codes "server")) (ci n.clash (codes "port")))

  ss_link_of_plain :
      (n : Node)
      → ss_plugin_parts n.clash ≡ none
      → ss_link_of encode64 query_escape encode_query userinfo marshal_json n
        ≡ codes "ss://"
          ++ ((encode64 raw_url (creds n) ++ (b'@' ∷ hostport n.clash)) ++ frag n.name)
  unfolding ss_link_of query_suffix same fragment
  ss_link_of_plain n h =
      rw (h, ss_link_of)
        (ap (λ t. codes "ss://" ++ t)
          (sym (append_assoc (encode64 raw_url (creds n)) (b'@' ∷ hostport n.clash) (frag n.name))))

  cut_fragment_link :
      (n : Node) (rest : Text)
      → AreInverse n
      → trim_space n.name ≡ n.name
      → Lacks b'#' rest
      → cut_fragment unescape decode parse_query (rest ++ frag n.name) ≡ (n.name, rest)
  unfolding cut_fragment fragment
  cut_fragment_link n rest inv t plain =
      rw
        (
          cut-Lacks b'#' rest (replace_char b'+' (codes "%20") (query_escape n.name)) plain,
          cut_fragment,
          inv.unescapes,
          t,
        )
        refl

  sip002_link :
      (n : Node)
      → AreInverse n
      → IsCarried n
      → sip002 unescape decode parse_query (encode64 raw_url (creds n)) (hostport n.clash)
        ≡ record {
          creds = (cs n.clash (codes "cipher"), cs n.clash (codes "password"));
          place = (cs n.clash (codes "server"), ci n.clash (codes "port"));
          query = [];
        }
  unfolding sip002 cut_query split_cred
  sip002_link n inv c =
      rw
        (
          cut-none b'?' (hostport n.clash) (hostport-Lacks n b'?' c refl refl c.host_plain.2),
          cut_query,
          b64decode-agree decode (encode64 raw_url (creds n)) (creds n) inv.unspaced inv.agree
              inv.decodes,
          place_read n c,
          cut-Lacks b':' (cs n.clash (codes "cipher")) (cs n.clash (codes "password"))
              c.cipher_plain,
          split_cred,
        )
        refl

  -- The link that the generator writes for a Shadowsocks node without a plugin is read back as the
  -- node's name, host, port, cipher and password, if the encoders and decoders are inverse on its
  -- texts and the node is one that a link can carry: its host, cipher and name are not empty; the host
  -- has no space, `#`, `@` or `?` and no bracket in front; the port is from 1 to 65535; the cipher has
  -- no colon, and the name no space around it.
  pub parse_ss-ss_link_of :
      (n : Node)
      → AreInverse n
      → IsCarried n
      → parse_ss unescape decode parse_query
          (ss_link_of encode64 query_escape encode_query userinfo marshal_json n)
        ≡ some (read_node n)
  unfolding parse_ss ss_link ss_node checked apply_ss_plugin first_value first_non_empty read_node
      same lookup
  parse_ss-ss_link_of n inv c =
      ap (λ t. parse_ss unescape decode parse_query t) (ss_link_of_plain n c.no_plugin)
      ∙ ap (λ t. after (cut_fragment unescape decode parse_query t))
          (trim_prefix-append (codes "ss://") (link ++ frag n.name))
      ∙ ap after (cut_fragment_link n link inv c.name_trimmed plain)
      ∙ rw
          (
            cut_last-Lacks b'@' (encode64 raw_url (creds n)) (hostport n.clash)
                (hostport-Lacks n b'@' c refl refl c.host_plain.1),
            ss_link,
            sip002_link n inv c,
            same_ne c.has_cipher,
            same_ne c.host.named,
            port_set,
            same_ne c.has_name,
          )
          refl
    where
      after : Text × Text → Option Node
      after (name, rest) = elim (ss_link unescape decode parse_query rest) [
        | none ↦ none
        | some l ↦ ss_node unescape decode parse_query name l
      ]

      positive : (p : ℕ) → 1 ≤ p → is_zero (pos p) ≡ false
      positive zero h = absurd (omega arith)
      positive (suc p) h = refl

      port_set : is_zero (ci n.clash (codes "port")) ≡ false
      port_set = rw c.has_port.0 (positive c.port c.has_port.1)

      link : Text
      link = encode64 raw_url (creds n) ++ (b'@' ∷ hostport n.clash)

      plain : Lacks b'#' link
      plain =
          Lacks-append b'#' (encode64 raw_url (creds n)) (b'@' ∷ hostport n.clash) inv.plain
            (refl, hostport-Lacks n b'#' c refl refl c.host_plain.0)
