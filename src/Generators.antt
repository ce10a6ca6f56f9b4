-- ===== src/Generators.antt =====
-- internal/generator: what a generator gives.
pub mod V2ray
use subconverter_ng.Common.{ℕ, List, Text}

-- `generator.Result`.
pub record Rendered : Type 0 where
  pub output : Text
  pub content_type : Text
  pub node_count : ℕ
  pub empty_groups : List Text
  pub skipped_rules : List Text
  pub skipped_nodes : List Text
  pub duplicates : ℕ
  pub deprecated_dropped : ℕ
  pub excluded_protocols : ℕ
