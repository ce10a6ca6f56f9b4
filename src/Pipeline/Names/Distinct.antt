-- ===== src/Pipeline/Names/Distinct.antt =====
-- The loop of `uniquifyNames` ends, and its names are distinct.
use subconverter_ng.Common.{
  ℕ, zero, suc, ◌+◌, ◌<◌, ◌≡◌, ◌≢◌, refl, sym, ap, inl, inr, false, none, some, List, [], ◌∷◌, ◌++◌,
  Text, same_iff, has, Distinct, Within, Distinct-length-le, length, if◌then◌else◌, arith,
  Bool-cases, Option-cases,
}
use subconverter_ng.Node.{Node, rename}
use subconverter_ng.Pipeline.Names.{candidate, probe, free_name, uniquify_from, uniquify_names}
use subconverter_ng.Strings.Decimal.{itoa_nat, itoa_nat-injective}

append_cancel : (s a b : Text) → s ++ a ≡ s ++ b → a ≡ b
append_cancel [] a b h = h
append_cancel (c ∷ s) a b h = append_cancel s a b (cc)

candidate-injective : (name : Text) (i j : ℕ) → candidate name i ≡ candidate name j → i ≡ j
unfolding candidate
candidate-injective name i j h =
    let after : (b' ' ∷ itoa_nat i) ≡ b' ' ∷ itoa_nat j = append_cancel name _ _ h in
    itoa_nat-injective i j (cc)

-- The candidates from number `i` on.
candidates : ℕ → Text → ℕ → List Text
candidates zero name i = []
candidates (suc f) name i = candidate name i ∷ candidates f name (i + 1)

candidates-lacks :
    (f : ℕ) (name : Text) (i j : ℕ) → i < j → has (candidates f name j) (candidate name i) ≡ false
unfolding candidates has
candidates-lacks zero name i j h = refl
candidates-lacks (suc f) name i j h =
    let ne : candidate name j ≢ candidate name i =
      λ e. absurd (omega (arith, candidate-injective name j i e)) in
    ground (
      arith,
      ne,
      same_iff (candidate name j) (candidate name i),
      candidates-lacks f name i (j + 1) (omega arith),
    )

candidates-Distinct : (f : ℕ) (name : Text) (i : ℕ) → Distinct (candidates f name i)
unfolding candidates
candidates-Distinct zero name i = tt
candidates-Distinct (suc f) name i =
    (candidates-lacks f name i (i + 1) (omega arith), candidates-Distinct f name (i + 1))

length-candidates : (f : ℕ) (name : Text) (i : ℕ) → length (candidates f name i) ≡ f
unfolding candidates
length-candidates zero name i = refl
length-candidates (suc f) name i = ap suc (length-candidates f name (i + 1))

-- When the fuel runs out, every candidate was taken.
probe-none :
    (f : ℕ) (seen : List Text) (name : Text) (i : ℕ)
    → probe f seen name i ≡ none
    → Within (candidates f name i) seen
unfolding probe candidates
probe-none zero seen name i h = tt
probe-none (suc f) seen name i h = elim (Bool-cases (has seen (candidate name i))) [
  | inl t ↦ (t, probe-none f seen name (i + 1) (ground arith))
  | inr n ↦ absurd (ground arith)
]

probe-some :
    (f : ℕ) (seen : List Text) (name : Text) (i : ℕ) {c : Text}
    → probe f seen name i ≡ some c
    → has seen c ≡ false
unfolding probe
probe-some zero seen name i h = absurd (ground arith)
probe-some (suc f) seen name i {c} h = elim (Bool-cases (has seen (candidate name i))) [
  | inl t ↦ probe-some f seen name (i + 1) (ground arith)
  | inr n ↦ let it : candidate name i ≡ c = ground arith in rw (← it) n
]

-- With one more round than names in the way, the loop finds a free name.
probe-total :
    (seen : List Text) (name : Text) (i : ℕ)
    → (c : Text) × (probe (suc (length seen)) seen name i ≡ some c)
probe-total seen name i = elim (Option-cases (probe (suc (length seen)) seen name i)) [
  | inl z ↦ absurd (
      omega (
        arith,
        length-candidates (suc (length seen)) name i,
        Distinct-length-le (candidates (suc (length seen)) name i) seen
            (candidates-Distinct (suc (length seen)) name i)
            (probe-none (suc (length seen)) seen name i z),
      ))
  | inr r ↦ r
]

free_name-total :
    (seen : List Text) (name : Text)
    → (c : Text) × (free_name seen name ≡ some c)
      × (has seen c ≡ false)
      × (has seen name ≡ false → c ≡ name)
unfolding free_name
free_name-total seen name = elim (Bool-cases (has seen name)) [
  | inl t ↦
      let (c, found) = probe-total seen name 2 in
      (c, rw t found, probe-some (suc (length seen)) seen name 2 found, λ n. absurd (ground arith))
  | inr n ↦ (name, rw n, n, λ _. refl)
]

abbrev pub names : List Node → List Text
names [] = []
names (n ∷ ns) = n.name ∷ names ns

-- Node by node: one whose name is free stays as it is, any other takes another name and keeps the
-- rest. `seen` holds the names of the nodes before.
abbrev pub Renames : List Text → List Node → List Node → Type 0
Renames seen [] [] = Unit
Renames seen (n ∷ ns) (m ∷ ms) =
    (m ≡ (if has seen n.name then rename m.name n else n)) × Renames (m.name ∷ seen) ns ms
Renames seen _ _ = ⊥

abbrev Fresh : List Text → List Text → Type 0
Fresh seen [] = Unit
Fresh seen (x ∷ xs) = (has seen x ≡ false) × Fresh seen xs

Fresh-cons :
    (y : Text) (seen xs : List Text) → Fresh (y ∷ seen) xs → (has xs y ≡ false) × Fresh seen xs
unfolding has
Fresh-cons y seen [] f = (refl, tt)
Fresh-cons y seen (x ∷ xs) f =
    let (a, b) = Fresh-cons y seen xs f.1 in
    (ground (arith, same_iff x y, same_iff y x), (ground arith, b))

name-given :
    (seen : List Text) (n : Node) (c : Text)
    → (has seen n.name ≡ false → c ≡ n.name)
    → (if has seen n.name then rename c n else n).name ≡ c
unfolding rename
name-given seen n c h = elim (Bool-cases (has seen n.name)) [
  | inl t ↦ rw t
  | inr f ↦ rw f (sym (h f))
]

uniquify_from_cons :
    (seen : List Text) (n : Node) (ns out : List Node) (c : Text)
    → free_name seen n.name ≡ some c
    → uniquify_from (c ∷ seen) ns ≡ some out
    → uniquify_from seen (n ∷ ns) ≡ some ((if has seen n.name then rename c n else n) ∷ out)
unfolding uniquify_from
uniquify_from_cons seen n ns out c found rest = rw (found, uniquify_from) (rw rest)

uniquify_from-total :
    (seen : List Text) (ns : List Node)
    → (out : List Node) × (uniquify_from seen ns ≡ some out)
      × Distinct (names out)
      × Fresh seen (names out)
      × Renames seen ns out
unfolding uniquify_from
uniquify_from-total seen [] = ([], refl, tt, tt, tt)
uniquify_from-total seen (n ∷ ns) =
    let (c, found, free, keeps) = free_name-total seen n.name in
    let (out, rest, distinct, fresh, renames) = uniquify_from-total (c ∷ seen) ns in
    let m : Node = if has seen n.name then rename c n else n in
    let named : m.name ≡ c = name-given seen n c keeps in
    let (lacks, fresh') = Fresh-cons c seen (names out) fresh in
    (
      m ∷ out,
      uniquify_from_cons seen n ns out c found rest,
      (rw named lacks, distinct),
      (rw named free, fresh'),
      (rw named, rw named renames),
    )

-- Every list of nodes gets its names in bounded time: the loop that looks for a free suffix always
-- ends. The names are distinct, a node whose name is free keeps it, and every other node changes
-- in its name alone.
pub uniquify_names-Distinct :
    (ns : List Node)
    → (out : List Node) × (uniquify_names ns ≡ some out) × Distinct (names out) × Renames [] ns out
unfolding uniquify_names
uniquify_names-Distinct ns = let (out, e, d, f, r) = uniquify_from-total [] ns in (out, e, d, r)
