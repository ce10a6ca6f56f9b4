-- ===== src/Pipeline/Filters/Laws.antt =====
-- What the filters keep and count, and what the options leave alone.
use subconverter_ng.Common.{
  ℕ, suc, ◌+◌, ◌≡◌, refl, ap, subst⁻¹, ◌∙◌, inl, inr, Bool, true, false, not, ◌&&◌, ◌||◌, Option,
  List, [], ◌∷◌, ◌++◌, Text, codes, same, same_iff, same_self, has, Distinct, if◌then◌else◌, length,
  All, arith, Bool-cases,
}
use subconverter_ng.Emoji.{remove_emoji, add_emoji}
use subconverter_ng.Strings.{to_upper}
use subconverter_ng.Node.{
  Node, Bag, flag, rename, set_raw, Mirrors, rename-Mirrors, set_raw-Mirrors,
}
use subconverter_ng.Pipeline.Filters.{
  Options, RenameRule, is_deprecated, filter_deprecated, node_signature, dedup_from, dedup,
  apply_renames, apply_name_options, apply_options, apply_node_options, stamp,
}

-- A filter by cipher keeps no deprecated node, and counts each node that it drops.
pub filter_deprecated_lem :
    (ns : List Node)
    → All (λ n. is_deprecated n ≡ false) (filter_deprecated ns).0
      × (length (filter_deprecated ns).0 + (filter_deprecated ns).1 ≡ length ns)
unfolding filter_deprecated
filter_deprecated_lem [] = (tt, refl)
filter_deprecated_lem (n ∷ ns) =
    let ih = filter_deprecated_lem ns in
    elim (Bool-cases (is_deprecated n)) [
      | inl t ↦ rw t (ih.0, omega (arith, ih.1))
      | inr f ↦ rw f ((f, ih.0), omega (arith, ih.1))
    ]

module _ (marshal : Bag → Option Text) where
  abbrev pub signatures : List Node → List Text
  signatures [] = []
  signatures (n ∷ ns) = node_signature marshal n ∷ signatures ns

  -- Every signature of the input is one of the output, or was seen before.
  abbrev pub Covered : List Text → List Text → List Text → Type 0
  Covered seen out [] = Unit
  Covered seen out (s ∷ ss) = ((has seen s || has out s) ≡ true) × Covered seen out ss

  abbrev pub Unseen : List Text → List Text → Type 0
  Unseen seen [] = Unit
  Unseen seen (s ∷ ss) = (has seen s ≡ false) × Unseen seen ss

  Unseen-cons :
      (s : Text) (seen ss : List Text) → Unseen (s ∷ seen) ss → (has ss s ≡ false) × Unseen seen ss
  unfolding has
  Unseen-cons s seen [] u = (refl, tt)
  Unseen-cons s seen (t ∷ ss) u =
      let (a, b) = Unseen-cons s seen ss u.1 in
      (ground (arith, same_iff t s, same_iff s t), (ground arith, b))

  Covered-cons :
      (s : Text) (seen out ss : List Text) → Covered (s ∷ seen) out ss → Covered seen (s ∷ out) ss
  unfolding has
  Covered-cons s seen out [] c = tt
  Covered-cons s seen out (t ∷ ss) c =
      (ground (arith, same_iff s t), Covered-cons s seen out ss c.1)

  found : (s : Text) (seen ss : List Text) → (has seen s || has (s ∷ ss) s) ≡ true
  unfolding has
  found s seen ss = ground (arith, same_self s)

  dedup_from_old :
      (seen : List Text) (n : Node) (ns : List Node)
      → has seen (node_signature marshal n) ≡ true
      → dedup_from marshal seen (n ∷ ns)
        ≡ ((dedup_from marshal seen ns).0, suc (dedup_from marshal seen ns).1)
  unfolding dedup_from
  dedup_from_old seen n ns old = rw old

  dedup_from_new :
      (seen : List Text) (n : Node) (ns : List Node)
      → has seen (node_signature marshal n) ≡ false
      → dedup_from marshal seen (n ∷ ns) ≡ (
        n ∷ (dedup_from marshal (node_signature marshal n ∷ seen) ns).0,
        (dedup_from marshal (node_signature marshal n ∷ seen) ns).1,
      )
  unfolding dedup_from
  dedup_from_new seen n ns new = rw new

  abbrev Deduped : List Text → List Node → List Node × ℕ → Type 0
  Deduped seen ns r =
      Distinct (signatures r.0)
      × Unseen seen (signatures r.0)
      × Covered seen (signatures r.0) (signatures ns)
      × (length r.0 + r.1 ≡ length ns)

  dedup_from_lem :
      (seen : List Text) (ns : List Node) → Deduped seen ns (dedup_from marshal seen ns)
  dedup_from_lem seen [] = unfold dedup_from in (tt, tt, tt, refl)
  dedup_from_lem seen (n ∷ ns) = elim (Bool-cases (has seen (node_signature marshal n))) [
    | inl old ↦
        let (d, u, c, k) = dedup_from_lem seen ns in
        subst⁻¹ (Deduped seen (n ∷ ns)) (dedup_from_old seen n ns old)
          (d, u, (ground arith, c), omega (arith, k))
    | inr new ↦
        let s = node_signature marshal n in
        let (d, u, c, k) = dedup_from_lem (s ∷ seen) ns in
        let (lacks, u') = Unseen-cons s seen _ u in
        subst⁻¹ (Deduped seen (n ∷ ns)) (dedup_from_new seen n ns new)
          ((lacks, d), (new, u'), (found s seen _, Covered-cons s seen _ _ c), omega (arith, k))
  ]

  -- Removing duplicates leaves no two nodes of one signature and loses no signature, and counts
  -- each node that it removes.
  pub dedup_lem :
      (ns : List Node)
      → Distinct (signatures (dedup marshal ns).0)
        × Covered [] (signatures (dedup marshal ns).0) (signatures ns)
        × (length (dedup marshal ns).0 + (dedup marshal ns).1 ≡ length ns)
  unfolding dedup
  dedup_lem ns = let (d, u, c, k) = dedup_from_lem [] ns in (d, c, k)

-- Two nodes with one type and one endpoint.
pub record SameEndpoint (n m : Node) : Type 0 where
  pub same_typ : m.typ ≡ n.typ
  pub same_server : m.server ≡ n.server
  pub same_port : m.port ≡ n.port

SameEndpoint-trans : {n m k : Node} → SameEndpoint n m → SameEndpoint m k → SameEndpoint n k
SameEndpoint-trans a b = record {
  same_typ = b.same_typ ∙ a.same_typ;
  same_server = b.same_server ∙ a.same_server;
  same_port = b.same_port ∙ a.same_port;
}

pub rename-SameEndpoint : (name : Text) (n : Node) → SameEndpoint n (rename name n)
unfolding rename
rename-SameEndpoint name n = record { same_typ = refl; same_server = refl; same_port = refl }

-- A change that keeps a node's type and endpoint, and its mapping in step.
abbrev pub Tame : (Node → Node) → Type 0
Tame f = (n : Node) → SameEndpoint n (f n) × (Mirrors n → Mirrors (f n))

Tame-self : Tame (λ n. n)
Tame-self n = (record { same_typ = refl; same_server = refl; same_port = refl }, λ m. m)

pub Tame-rename : (name : Node → Text) → Tame (λ n. rename (name n) n)
Tame-rename name n = (rename-SameEndpoint (name n) n, rename-Mirrors (name n) n)

pub Tame-if : (b : Node → Bool) (f : Node → Node) → Tame f → Tame (λ n. if b n then f n else n)
Tame-if b f h n = elim (Bool-cases (b n)) [ inl t ↦ rw t (h n) | inr e ↦ rw e (Tame-self n) ]

Tame-stamp :
    (b : Bool) (key : Text)
    → (same key (codes "name") ≡ false)
    → (same key (codes "type") ≡ false)
    → (same key (codes "server") ≡ false)
    → (same key (codes "port") ≡ false)
    → Tame (stamp b key)
Tame-stamp false key a b c d n = Tame-self n
Tame-stamp true key a b c d n = (
  unfold set_raw in record { same_typ = refl; same_server = refl; same_port = refl },
  set_raw-Mirrors key (flag true) n (a, b, c, d),
)

pub Tame-comp : (f g : Node → Node) → Tame f → Tame g → Tame (λ n. g (f n))
Tame-comp f g a b n = (SameEndpoint-trans (a n).0 (b (f n)).0, λ m. (b (f n)).1 ((a n).1 m))

Tame-apply_renames : (rs : List RenameRule) → Tame (apply_renames rs)
unfolding apply_renames
Tame-apply_renames [] n = Tame-self n
Tame-apply_renames (r ∷ rs) n =
    Tame-comp (λ n. rename (r.pattern.replace_all n.name r.replace) n) (apply_renames rs)
      (Tame-rename (λ n. r.pattern.replace_all n.name r.replace)) (Tame-apply_renames rs) n

Tame-apply_name_options : (opts : Options) → Tame (apply_name_options opts)
unfolding apply_name_options
Tame-apply_name_options opts =
    Tame-comp _ _
      (Tame-comp _ _
        (Tame-comp _ _
          (Tame-if (λ n. opts.append_type && not (same n.typ []))
            (λ n. rename (b'[' ∷ (to_upper n.typ ++ (codes "] " ++ n.name))) n) (Tame-rename _))
          (Tame-if (λ n. opts.remove_emoji) (λ n. rename (remove_emoji n.name) n) (Tame-rename _)))
        (Tame-apply_renames opts.rename_rules))
      (Tame-if (λ n. opts.add_emoji) (λ n. rename (add_emoji opts.emoji_rules n.name) n)
        (Tame-rename _))

Tame-apply_options : (opts : Options) → Tame (apply_options opts)
unfolding apply_options same
Tame-apply_options opts =
    Tame-comp _ _
      (Tame-comp _ _
        (Tame-comp (apply_name_options opts) (stamp opts.udp (codes "udp"))
          (Tame-apply_name_options opts) (Tame-stamp opts.udp (codes "udp") refl refl refl refl))
        (Tame-stamp opts.tfo (codes "tfo") refl refl refl refl))
      (Tame-stamp opts.skip_cert_verify (codes "skip-cert-verify") refl refl refl refl)

-- Node by node, one list has the types and endpoints of the other, and its mappings are in step
-- wherever those were.
abbrev pub SameNodes : List Node → List Node → Type 0
SameNodes [] [] = Unit
SameNodes (n ∷ ns) (m ∷ ms) = (SameEndpoint n m × (Mirrors n → Mirrors m)) × SameNodes ns ms
SameNodes _ _ = ⊥

-- The options rename nodes and set flags; they keep every node's type and endpoint, and keep its
-- mapping in step with its fields.
pub apply_node_options-SameNodes :
    (opts : Options) (ns : List Node) → SameNodes ns (apply_node_options opts ns)
unfolding apply_node_options
apply_node_options-SameNodes opts [] = tt
apply_node_options-SameNodes opts (n ∷ ns) =
    (Tame-apply_options opts n, apply_node_options-SameNodes opts ns)

pub SameNodes-trans : (ns ms ks : List Node) → SameNodes ns ms → SameNodes ms ks → SameNodes ns ks
SameNodes-trans [] [] [] a b = tt
SameNodes-trans (n ∷ ns) (m ∷ ms) (k ∷ ks) a b =
    ((SameEndpoint-trans a.0.0 b.0.0, λ h. b.0.1 (a.0.1 h)), SameNodes-trans ns ms ks a.1 b.1)
SameNodes-trans [] [] (k ∷ ks) a b = elim b [ ]
SameNodes-trans [] (m ∷ ms) ks a b = elim a [ ]
SameNodes-trans (n ∷ ns) [] ks a b = elim a [ ]
SameNodes-trans (n ∷ ns) (m ∷ ms) [] a b = elim b [ ]

pub SameNodes-length : (ns ms : List Node) → SameNodes ns ms → length ms ≡ length ns
SameNodes-length [] [] a = refl
SameNodes-length (n ∷ ns) (m ∷ ms) a = ap suc (SameNodes-length ns ms a.1)
SameNodes-length [] (m ∷ ms) a = elim a [ ]
SameNodes-length (n ∷ ns) [] a = elim a [ ]
