-- ===== src/Tests/Shares.antt =====
-- Runs of the parsers and of the generator of share links.
use subconverter_ng.Common.{
  ◌+◌, ◌-◌, ◌≡◌, refl, false, Option, none, some, List, [], ◌∷◌, Text, codes, same, map, pos,
  lookup, insert, length, inr, arith, All,
}
use subconverter_ng.ExtConfig.{default_config}
use subconverter_ng.Generators.V2ray.Links.Accounts.{AreShared, generate_v2ray-AreShared}
use subconverter_ng.Generators.V2ray.Links.ReadBack.{
  AreInverse, IsCarried, read_node, parse_ss-ss_link_of,
}
use subconverter_ng.Generators.V2ray.Links.{ss_link_of, generate_v2ray}
use subconverter_ng.Generators.V2ray.{ss_plugin_parts}
use subconverter_ng.Generators.{Rendered}
use subconverter_ng.Node.Accessors.{cs, ci, text_of, int_of}
use subconverter_ng.Node.{str, Bag, Node, new_node, set, set_raw}
use subconverter_ng.Parser.Calls.Kept.{IsSound}
use subconverter_ng.Parser.Links.Encoded.{Values, VmessJson, parse_ss}
use subconverter_ng.Parser.Links.Registry.{parse_link}
use subconverter_ng.Parser.Links.Sound.{type_of, parse_lines-IsSound}
use subconverter_ng.Parser.{Encoding, std, raw_url, Protocol, parse_lines}
use subconverter_ng.Pipeline.Filters.{Options}
use subconverter_ng.Pipeline.Prepare.{Counts, prepare_nodes}
use subconverter_ng.Rules.Formats.{lacks-Lacks}
use subconverter_ng.Strings.{is_space, trim_space, replace_char, has_prefix, join}
use subconverter_ng.Urls.{Url}

-- An encoding that shifts each character, and its inverse.
abbrev encode64 : Encoding → Text → Text
encode64 e s = map (λ c. c + 256) s

abbrev decode : Encoding → Text → Option Text
decode e s = some (map (λ c. c - 256) s)

abbrev query_escape : Text → Text
query_escape s = s

abbrev unescape : Text → Option Text
unescape s = some s

abbrev encode_query : Values → Text
encode_query q = []

abbrev userinfo : Text → Text → Text
userinfo u p = []

abbrev marshal_json : Bag → Text
marshal_json m = []

abbrev parse_query : Text → Values
parse_query s = []

abbrev parse_url : Text → Option Url
parse_url s = some (record {
  scheme = codes "trojan";
  user = some (codes "pw", none);
  host = codes "a.org:443";
  hostname = codes "a.org";
  port = codes "443";
  path = [];
  query = [];
  fragment = [];
})

abbrev unmarshal : Text → Option VmessJson
unmarshal s = none

abbrev node : Node
node = set (codes "password") (str (codes "pw")) (
    set (codes "cipher") (str (codes "aes-128-gcm"))
      (new_node (codes "ss") (codes "A") (codes "a.org") (pos 80)))

node-AreInverse :
    AreInverse encode64 query_escape encode_query userinfo marshal_json unescape decode parse_query
      node
unfolding set set_raw new_node insert lookup same cs text_of replace_char is_space
node-AreInverse = record {
  decodes = refl;
  agree = λ e. inr refl;
  plain = lacks-Lacks b'#' (encode64 raw_url (codes "aes-128-gcm:pw")) refl;
  unspaced = (
    refl,
    (
      refl,
      (
        refl,
        (refl, (refl, (refl, (refl, (refl, (refl, (refl, (refl, (refl, (refl, (refl, tt))))))))))),
      ),
    ),
  );
  unescapes = refl;
}

node-IsCarried :
    IsCarried encode64 query_escape encode_query userinfo marshal_json unescape decode parse_query
      node
unfolding ss_plugin_parts trim_space set set_raw new_node insert lookup same cs ci text_of int_of
    has_prefix is_space
node-IsCarried = record {
  no_plugin = refl;
  host = record {
    named = λ e. cc;
    bare = refl;
    unspaced = (refl, (refl, (refl, (refl, (refl, tt)))));
  };
  host_plain = (
    lacks-Lacks b'#' (codes "a.org") refl,
    lacks-Lacks b'@' (codes "a.org") refl,
    lacks-Lacks b'?' (codes "a.org") refl,
  );
  port = 80;
  has_port = (refl, omega arith, omega arith);
  has_cipher = λ e. cc;
  cipher_plain = lacks-Lacks b':' (codes "aes-128-gcm") refl;
  has_name = λ e. cc;
  name_trimmed = refl;
}

parse_ss-ss_link_of_example :
    parse_ss unescape decode parse_query
      (ss_link_of encode64 query_escape encode_query userinfo marshal_json node)
    ≡ some (
        read_node encode64 query_escape encode_query userinfo marshal_json unescape decode
          parse_query node)
parse_ss-ss_link_of_example =
    parse_ss-ss_link_of encode64 query_escape encode_query userinfo marshal_json unescape decode
      parse_query node node-AreInverse node-IsCarried

abbrev options : Options
options = record {
  sort = false;
  udp = false;
  tfo = false;
  skip_cert_verify = false;
  remove_emoji = false;
  add_emoji = false;
  emoji_rules = [];
  rename_rules = [];
  use_rule_providers = false;
  dedup = false;
  filter_deprecated = false;
  append_type = false;
  list_only = false;
  tailscale = false;
  exclude_protocols = [];
}

abbrev marshal : Bag → Option Text
marshal m = none

abbrev parsed : List (Option Node)
parsed = some node ∷ some (new_node (codes "snell") (codes "B") (codes "b.org") (pos 1)) ∷ []

generate_v2ray-AreShared_example :
    (r : Rendered) × (prepared : List Node) × (counts : Counts) × (links : List Text)
    × (generate_v2ray encode64 query_escape encode_query userinfo marshal_json marshal parsed
          (some default_config)
          options
        ≡ some r)
    × (prepare_nodes marshal parsed (some default_config) options ≡ some (prepared, counts))
    × AreShared encode64 query_escape encode_query userinfo marshal_json prepared links
        r.skipped_nodes
    × (r.output ≡ encode64 std (join (codes "\n") links))
    × (r.node_count ≡ length prepared)
    × (r.duplicates ≡ counts.duplicates)
    × (r.deprecated_dropped ≡ counts.deprecated_dropped)
    × (r.excluded_protocols ≡ counts.excluded_protocols)
generate_v2ray-AreShared_example =
    generate_v2ray-AreShared encode64 query_escape encode_query userinfo marshal_json marshal parsed
      (some default_config) options

parse_lines-IsSound_example :
    All
      (λ n. (p : Protocol) × IsSound (type_of p) n)
      (parse_lines
        (parse_link parse_url unescape decode parse_query unmarshal)
        (codes "trojan://pw@a.org:443" ∷ codes "nothing" ∷ [])).nodes
parse_lines-IsSound_example =
    parse_lines-IsSound parse_url unescape decode parse_query unmarshal
      (codes "trojan://pw@a.org:443" ∷ codes "nothing" ∷ [])
