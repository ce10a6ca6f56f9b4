-- ===== src/Pipeline/Filters.antt =====
-- internal/generator/clash.go: the filters by remark, by cipher and by duplicate, and the options
-- stamped onto every node. `yaml.Marshal` is the parameter `marshal`, which may fail.
pub mod Laws
use subconverter_ng.Common.{
  ℕ, suc, Bool, true, false, not, ◌&&◌, ◌||◌, Option, none, some, List, [], ◌∷◌, ◌++◌, Text, codes,
  same, has, if◌then◌else◌, lookup, insert, keep_if,
}
use subconverter_ng.Emoji.{Regex, EmojiRule, remove_emoji, add_emoji}
use subconverter_ng.ExtConfig.{Config}
use subconverter_ng.Node.{Node, Bag, Value, str, flag, rename, set_raw}
use subconverter_ng.Strings.Decimal.{itoa}
use subconverter_ng.Strings.{to_lower, to_upper}

unfoldable pub matches_any : List Regex → Text → Bool
matches_any [] s = false
matches_any (re ∷ res) s = re.matches s || matches_any res s

-- The test of `filterNodes` by which a node stays.
unfoldable pub is_kept : Config → Node → Bool
unfolding matches_any
is_kept cfg n =
    if matches_any cfg.exclude_remarks n.name
    then false
    else elim cfg.include_remarks [ [] ↦ true | re ∷ res ↦ matches_any (re ∷ res) n.name ]

unfoldable pub filter_nodes : Option Config → List Node → List Node
unfolding is_kept
filter_nodes none ns = ns
filter_nodes (some cfg) ns = keep_if (is_kept cfg) ns

-- `supportedSSCiphers`.
abbrev pub supported_ss_ciphers : List Text
supported_ss_ciphers =
    codes "aes-128-gcm"
    ∷ codes "aes-192-gcm"
    ∷ codes "aes-256-gcm"
    ∷ codes "aes-128-cfb"
    ∷ codes "aes-192-cfb"
    ∷ codes "aes-256-cfb"
    ∷ codes "aes-128-ctr"
    ∷ codes "aes-192-ctr"
    ∷ codes "aes-256-ctr"
    ∷ codes "rc4-md5"
    ∷ codes "chacha20-ietf"
    ∷ codes "xchacha20"
    ∷ codes "chacha20-ietf-poly1305"
    ∷ codes "xchacha20-ietf-poly1305"
    ∷ codes "2022-blake3-aes-128-gcm"
    ∷ codes "2022-blake3-aes-256-gcm"
    ∷ codes "2022-blake3-chacha20-poly1305"
    ∷ codes "none"
    ∷ []

-- The cipher of a node, if it is a string.
unfoldable pub cipher_of : Node → Text
unfolding lookup
cipher_of n = elim (lookup (codes "cipher") n.clash) [ some (str c) ↦ c | _ ↦ [] ]

unfoldable pub is_deprecated : Node → Bool
unfolding cipher_of to_lower has same
is_deprecated n =
    same n.typ (codes "ss")
    && not (same (cipher_of n) [])
    && not (has supported_ss_ciphers (to_lower (cipher_of n)))

unfoldable pub filter_deprecated : List Node → List Node × ℕ
unfolding is_deprecated
filter_deprecated [] = ([], 0)
filter_deprecated (n ∷ ns) =
    let (rest, dropped) = filter_deprecated ns in
    if is_deprecated n then (rest, suc dropped) else (n ∷ rest, dropped)

module _ (marshal : Bag → Option Text) where
  unfoldable pub node_signature : Node → Text
  unfolding same itoa
  node_signature n = elim (marshal (keep_if (λ e. not (same e.0 (codes "name"))) n.clash)) [
    | some b ↦ b
    | none ↦ n.typ ++ (b'|' ∷ (n.server ++ (b'|' ∷ itoa n.port)))
  ]

  unfoldable pub dedup_from : List Text → List Node → List Node × ℕ
  unfolding node_signature has
  dedup_from seen [] = ([], 0)
  dedup_from seen (n ∷ ns) =
      let sig = node_signature n in
      let old = has seen sig in
      let (rest, removed) = dedup_from (if old then seen else sig ∷ seen) ns in
      if old then (rest, suc removed) else (n ∷ rest, removed)

  unfoldable pub dedup : List Node → List Node × ℕ
  unfolding dedup_from
  dedup ns = dedup_from [] ns

pub record RenameRule : Type 0 where
  pub pattern : Regex
  pub replace : Text

pub record Options : Type 0 where
  pub sort : Bool
  pub udp : Bool
  pub tfo : Bool
  pub skip_cert_verify : Bool
  pub remove_emoji : Bool
  pub add_emoji : Bool
  pub emoji_rules : List EmojiRule
  pub rename_rules : List RenameRule
  pub use_rule_providers : Bool
  pub dedup : Bool
  pub filter_deprecated : Bool
  pub append_type : Bool
  pub list_only : Bool
  pub tailscale : Bool
  pub exclude_protocols : List Text

unfoldable pub apply_renames : List RenameRule → Node → Node
unfolding rename
apply_renames [] n = n
apply_renames (r ∷ rs) n = apply_renames rs (rename (r.pattern.replace_all n.name r.replace) n)

-- Sets a field that an option asks for.
abbrev pub stamp : Bool → Text → Node → Node
stamp true key n = set_raw key (flag true) n
stamp false key n = n

-- The changes of the name: the type in front, emoji out, the rename rules, an emoji in front.
unfoldable pub apply_name_options : Options → Node → Node
unfolding rename remove_emoji add_emoji apply_renames to_upper same
apply_name_options opts n =
    let typed =
      if opts.append_type && not (same n.typ [])
      then rename (b'[' ∷ (to_upper n.typ ++ (codes "] " ++ n.name))) n
      else n in
    let plain = if opts.remove_emoji then rename (remove_emoji typed.name) typed else typed in
    let renamed = apply_renames opts.rename_rules plain in
    if opts.add_emoji then rename (add_emoji opts.emoji_rules renamed.name) renamed else renamed

unfoldable pub apply_options : Options → Node → Node
unfolding apply_name_options set_raw
apply_options opts n =
    stamp opts.skip_cert_verify (codes "skip-cert-verify")
      (stamp opts.tfo (codes "tfo") (stamp opts.udp (codes "udp") (apply_name_options opts n)))

unfoldable pub apply_node_options : Options → List Node → List Node
unfolding apply_options
apply_node_options opts [] = []
apply_node_options opts (n ∷ ns) = apply_options opts n ∷ apply_node_options opts ns
