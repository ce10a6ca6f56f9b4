-- ===== src/Pipeline/Prepare/Stages.antt =====
-- Each stage of the pipeline by itself: what it keeps, and what it counts.
use subconverter_ng.Common.{
  ◌+◌, ◌≡◌, refl, subst⁻¹, inl, inr, Bool, true, false, Option, none, some, List, [], ◌∷◌, Text,
  has, length, keep_if, All, arith, Bool-cases,
}
use subconverter_ng.ExtConfig.{Config}
use subconverter_ng.Node.{Node, Bag, rename, Mirrors}
use subconverter_ng.Pipeline.Filters.Laws.{
  filter_deprecated_lem, dedup_lem, SameEndpoint, SameNodes, Tame-rename, Tame-if,
}
use subconverter_ng.Pipeline.Filters.{
  is_kept, filter_nodes, filter_deprecated, is_deprecated, dedup, dedup_from, node_signature,
}
use subconverter_ng.Pipeline.Names.Distinct.{Renames}
use subconverter_ng.Pipeline.Prepare.{
  sanitize, sanitize_all, sanitize_node_name, exclude_stage, deprecated_stage, dedup_stage,
  sort_stage,
}
use subconverter_ng.Pipeline.Protocols.{is_excluded, filter_loop, filter_protocols, parse_protocols}
use subconverter_ng.Strings.Order.{sort_by, place, length-sort_by}
use subconverter_ng.Strings.{contains_any}

-- The filter by protocol keeps no excluded node, and counts each node that it drops.
filter_loop_lem :
    (excluded : List Text) (ns : List Node)
    → All (λ n. is_excluded excluded n.typ ≡ false) (filter_loop excluded ns).0
      × (length (filter_loop excluded ns).0 + (filter_loop excluded ns).1 ≡ length ns)
unfolding filter_loop
filter_loop_lem excluded [] = (tt, refl)
filter_loop_lem excluded (n ∷ ns) =
    let ih = filter_loop_lem excluded ns in
    elim (Bool-cases (is_excluded excluded n.typ)) [
      | inl t ↦ rw t (ih.0, omega (arith, ih.1))
      | inr f ↦ rw f ((f, ih.0), omega (arith, ih.1))
    ]

pub All-true : (typ : Text) (ns : List Node) → All (λ n. is_excluded [] n.typ ≡ false) ns
unfolding is_excluded has
All-true typ [] = tt
All-true typ (n ∷ ns) = (refl, All-true typ ns)

pub filter_protocols_lem :
    (excluded : List Text) (ns : List Node)
    → All (λ n. is_excluded excluded n.typ ≡ false) (filter_protocols excluded ns).0
      × (length (filter_protocols excluded ns).0 + (filter_protocols excluded ns).1 ≡ length ns)
unfolding filter_protocols
filter_protocols_lem [] ns = (All-true [] ns, omega arith)
filter_protocols_lem (e ∷ excluded) ns = filter_loop_lem (e ∷ excluded) ns

module _ (P : Node → Type 0) where
  All-keep_if : (p : Node → Bool) (ns : List Node) → All P ns → All P (keep_if p ns)
  All-keep_if p [] h = tt
  All-keep_if p (n ∷ ns) h = elim (Bool-cases (p n)) [
    | inl t ↦ rw t (h.0, All-keep_if p ns h.1)
    | inr f ↦ rw f (All-keep_if p ns h.1)
  ]

  All-filter_deprecated : (ns : List Node) → All P ns → All P (filter_deprecated ns).0
  unfolding filter_deprecated
  All-filter_deprecated [] h = tt
  All-filter_deprecated (n ∷ ns) h = elim (Bool-cases (is_deprecated n)) [
    | inl t ↦ rw t (All-filter_deprecated ns h.1)
    | inr f ↦ rw f (h.0, All-filter_deprecated ns h.1)
  ]

  All-dedup_from :
      (marshal : Bag → Option Text) (seen : List Text) (ns : List Node)
      → All P ns
      → All P (dedup_from marshal seen ns).0
  unfolding dedup_from
  All-dedup_from marshal seen [] h = tt
  All-dedup_from marshal seen (n ∷ ns) h = elim (Bool-cases (has seen (node_signature marshal n))) [
    | inl t ↦ rw t (All-dedup_from marshal seen ns h.1)
    | inr f ↦ rw f (h.0, All-dedup_from marshal (node_signature marshal n ∷ seen) ns h.1)
  ]

  All-place :
      (key : Node → Text) (n : Node) (ns : List Node) → P n → All P ns → All P (place key n ns)
  unfolding place
  All-place key n [] p h = (p, tt)
  All-place key n (m ∷ ns) p h = ground (arith, p, h, All-place key n ns p h.1)

  All-sort_by : (key : Node → Text) (ns : List Node) → All P ns → All P (sort_by key ns)
  unfolding sort_by
  All-sort_by key [] h = tt
  All-sort_by key (n ∷ ns) h = All-place key n (sort_by key ns) h.0 (All-sort_by key ns h.1)

  -- Whatever holds of the nodes that the first filter lets through holds of the selected ones.
  pub All-stages :
      (marshal : Bag → Option Text) (cfg : Option Config) (dep dup sort : Bool) (ns : List Node)
      → All P ns
      → All P (
          sort_stage sort
            (dedup_stage marshal dup (deprecated_stage dep (filter_nodes cfg ns)).0).0)
  unfolding sort_stage dedup_stage deprecated_stage dedup
  All-stages marshal cfg dep dup sort ns h =
      sorted sort _ (deduped dup _ (current dep _ (filtered cfg)))
    where
      filtered : (cfg : Option Config) → All P (filter_nodes cfg ns)
      filtered none = unfold filter_nodes in h
      filtered (some c) = unfold filter_nodes in All-keep_if (is_kept c) ns h

      current : (dep : Bool) (ms : List Node) → All P ms → All P (deprecated_stage dep ms).0
      current false ms a = a
      current true ms a = All-filter_deprecated ms a

      deduped : (dup : Bool) (ms : List Node) → All P ms → All P (dedup_stage marshal dup ms).0
      deduped false ms a = a
      deduped true ms a = All-dedup_from marshal [] ms a

      sorted : (sort : Bool) (ms : List Node) → All P ms → All P (sort_stage sort ms)
      sorted false ms a = a
      sorted true ms a = All-sort_by (λ n. n.name) ms a

-- The two filters that count: the nodes that stay and the number of those that go.
pub exclude_stage-count :
    (raw : List Text) (ns : List Node)
    → length (exclude_stage raw ns).0 + (exclude_stage raw ns).1 ≡ length ns
unfolding exclude_stage
exclude_stage-count [] ns = omega arith
exclude_stage-count (r ∷ raw) ns = (filter_protocols_lem (parse_protocols (r ∷ raw)) ns).1

pub exclude_stage-excludes :
    (raw : List Text) (ns : List Node)
    → All (λ n. is_excluded (parse_protocols raw) n.typ ≡ false) (exclude_stage raw ns).0
unfolding exclude_stage
exclude_stage-excludes [] ns = unfold parse_protocols in All-true [] ns
exclude_stage-excludes (r ∷ raw) ns = (filter_protocols_lem (parse_protocols (r ∷ raw)) ns).0

pub deprecated_stage-count :
    (dep : Bool) (ns : List Node)
    → length (deprecated_stage dep ns).0 + (deprecated_stage dep ns).1 ≡ length ns
unfolding deprecated_stage
deprecated_stage-count false ns = omega arith
deprecated_stage-count true ns = (filter_deprecated_lem ns).1

pub dedup_stage-count :
    (marshal : Bag → Option Text) (dup : Bool) (ns : List Node)
    → length (dedup_stage marshal dup ns).0 + (dedup_stage marshal dup ns).1 ≡ length ns
unfolding dedup_stage
dedup_stage-count marshal false ns = omega arith
dedup_stage-count marshal true ns = (dedup_lem marshal ns).2

pub length-sort_stage : (sort : Bool) (ns : List Node) → length (sort_stage sort ns) ≡ length ns
unfolding sort_stage
length-sort_stage false ns = refl
length-sort_stage true ns = length-sort_by (λ n. n.name) ns

pub sanitize_all-SameNodes : (ns : List Node) → SameNodes ns (sanitize_all ns)
unfolding sanitize_all sanitize
sanitize_all-SameNodes [] = tt
sanitize_all-SameNodes (n ∷ ns) = (
  Tame-if (λ m. contains_any m.name (b'\r' ∷ b'\n' ∷ []))
      (λ m. rename (sanitize_node_name m.name) m) (Tame-rename (λ m. sanitize_node_name m.name)) n,
  sanitize_all-SameNodes ns,
)

pub Renames-SameNodes :
    (seen : List Text) (ns ms : List Node) → Renames seen ns ms → SameNodes ns ms
Renames-SameNodes seen [] [] r = tt
Renames-SameNodes seen (n ∷ ns) (m ∷ ms) r = (
  subst⁻¹ (λ x. SameEndpoint n x × (Mirrors n → Mirrors x)) r.0
      (Tame-if (λ k. has seen k.name) (λ k. rename m.name k) (Tame-rename (λ k. m.name)) n),
  Renames-SameNodes (m.name ∷ seen) ns ms r.1,
)
Renames-SameNodes seen [] (m ∷ ms) r = elim r [ ]
Renames-SameNodes seen (n ∷ ns) [] r = elim r [ ]
