-- ===== src/Groups/Rendered.antt =====
-- Every group is rendered with its members, and no group is empty.
use subconverter_ng.Common.{
  ◌≡◌, ◌≢◌, refl, sym, ◌∙◌, ◌⊎◌, inl, inr, false, not, ◌&&◌, List, [], ◌∷◌, Text, same, has,
  Distinct,
}
use subconverter_ng.Emoji.{Compile}
use subconverter_ng.ExtConfig.{ProxyGroup}
use subconverter_ng.Groups.{resolve_selectors, GroupOut, direct, group_with, build_groups}
use subconverter_ng.Node.{Node}
use subconverter_ng.Groups.Members.{any_selects, resolve_selectors_lem}

module _ (compile : Compile) (nodes : List Node) (all_names : List Text) where
  -- The definition of a group but for its members.
  abbrev pub IsGroup : ProxyGroup → GroupOut → Type 0
  IsGroup d g =
      (g.name ≡ d.name)
      × (g.typ ≡ d.typ)
      × (g.url ≡ d.test_url)
      × (g.interval ≡ d.interval)
      × (g.timeout ≡ d.timeout)
      × (g.tolerance ≡ d.tolerance)

  -- Group by group: the names that its selectors select, each once, or DIRECT alone where they
  -- select none; `empty` names the latter groups in order.
  abbrev pub AreGroups : List ProxyGroup → List GroupOut → List Text → Type 0
  AreGroups [] gs empty = (gs ≡ []) × (empty ≡ [])
  AreGroups (d ∷ ds) gs empty =
      (g : GroupOut) × (rest : List GroupOut) × (left : List Text) × (gs ≡ g ∷ rest)
      × IsGroup d g
      × AreGroups ds rest left
      × ((Distinct g.proxies
            × (g.proxies ≢ [])
            × (empty ≡ left)
            × ((x : Text)
                → has g.proxies x
                  ≡ (not (same x []) && any_selects compile nodes all_names d.selectors x)))
          ⊎ ((g.proxies ≡ direct ∷ [])
              × (empty ≡ d.name ∷ left)
              × ((x : Text)
                  → (not (same x []) && any_selects compile nodes all_names d.selectors x)
                    ≡ false)))

  -- Every group is rendered, in order, with the fields of its definition. Its members are the
  -- non-empty names that one of its selectors selects, each once; where there are none it has DIRECT
  -- alone, and the names of these groups, no others, are reported.
  pub build_groups-AreGroups :
      (ds : List ProxyGroup)
      → AreGroups ds
          (build_groups compile ds nodes all_names).0
          (build_groups compile ds nodes all_names).1
  unfolding build_groups
  build_groups-AreGroups [] = (refl, refl)
  build_groups-AreGroups (d ∷ ds) =
      go (resolve_selectors compile d.selectors nodes all_names) refl
        (resolve_selectors_lem compile nodes all_names d.selectors) (build_groups-AreGroups ds)
    where
      go :
          (ms : List Text)
          → resolve_selectors compile d.selectors nodes all_names ≡ ms
          → Distinct (resolve_selectors compile d.selectors nodes all_names)
            × ((x : Text)
                → has (resolve_selectors compile d.selectors nodes all_names) x
                  ≡ (not (same x []) && any_selects compile nodes all_names d.selectors x))
          → AreGroups ds
              (build_groups compile ds nodes all_names).0
              (build_groups compile ds nodes all_names).1
          → AreGroups
              (d ∷ ds)
              (build_groups compile (d ∷ ds) nodes all_names).0
              (build_groups compile (d ∷ ds) nodes all_names).1
      go [] e (dist, mem) ih =
          rw (e, build_groups)
            (
              group_with d (direct ∷ []),
              _,
              _,
              refl,
              (refl, refl, refl, refl, refl, refl),
              ih,
              inr (refl, refl, λ x. sym (mem x) ∙ rw e (unfold has in refl)),
            )
      go (m ∷ ms) e (dist, mem) ih =
          rw (e, build_groups)
            (
              group_with d (m ∷ ms),
              _,
              _,
              refl,
              (refl, refl, refl, refl, refl, refl),
              ih,
              inl (rw e at dist, λ z. cc, refl, λ x. rw e at (mem x)),
            )
