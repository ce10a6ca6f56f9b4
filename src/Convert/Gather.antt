-- ===== src/Convert/Gather.antt =====
-- internal/convert/convert.go: `fetchAndParseAll`, one goroutine for each source.
--
-- `fetch` gives the body and the headers of a URL and `parse` the nodes of a text; `none` is an
-- error of either. `order` is the order in which the goroutines write their results.
pub mod Refined
use subconverter_ng.Cache.{Header}
use subconverter_ng.Common.{
  ℕ, suc, Bool, true, false, Option, none, some, List, [], ◌∷◌, ◌++◌, Text, codes, if◌then◌else◌,
  lookup, get_elem?, run_tasks,
}
use subconverter_ng.Node.{Node}
use subconverter_ng.Urls.{first_value}
use subconverter_ng.Parser.{Parsed, is_share_link}

-- What a goroutine writes.
pub record Slot : Type 0 where
  pub nodes : List Node
  pub skipped : List Text
  pub userinfo : Text
  pub failed : Bool

abbrev pub empty_slot : Slot
empty_slot = record { nodes = []; skipped = []; userinfo = []; failed = false }

abbrev pub failed_slot : Slot
failed_slot = record { nodes = []; skipped = []; userinfo = []; failed = true }

-- What all the sources give, or the number of the first that failed, from 1.
pub data Gathered : Type 0 where
  gathered : List Node → List Text → Text → Gathered
  source_failed : ℕ → Gathered

unfoldable pub parsed_slot : Text → Option Parsed → Slot
parsed_slot userinfo none = failed_slot
parsed_slot userinfo (some p) = record {
  nodes = p.nodes;
  skipped = p.skipped;
  userinfo = userinfo;
  failed = false;
}

-- Puts the results of a source in front of those of the others.
abbrev pub put_first : Slot → Gathered → Gathered
put_first s (gathered nodes skipped userinfo) =
    gathered (s.nodes ++ nodes) (s.skipped ++ skipped) userinfo
put_first s (source_failed i) = source_failed i

-- The loop over the results, of which the first has the number `i`.
unfoldable pub collect : ℕ → List Text → (ℕ → Slot) → Gathered
collect i [] slots = gathered [] [] []
collect i (u ∷ us) slots =
    let rest = collect (suc i) us (λ j. slots (suc j)) in
    if (slots 0).failed then source_failed i else put_first (slots 0) rest

-- Sets the header that is passed on.
abbrev pub with_userinfo : Text → Gathered → Gathered
with_userinfo userinfo (gathered nodes skipped old) = gathered nodes skipped userinfo
with_userinfo userinfo (source_failed i) = source_failed i

-- The header of the first source.
abbrev pub first_userinfo : List Text → (ℕ → Slot) → Text
first_userinfo [] slots = []
first_userinfo (u ∷ us) slots = (slots 0).userinfo

module _ (fetch : Text → Option (Text × Header)) (parse : Text → Option Parsed) where
  -- What the goroutine of a source writes: a link is parsed as it is, a URL is fetched.
  unfoldable pub source : Text → Slot
  source u = if is_share_link u then parsed_slot [] (parse u) else elim (fetch u) [
    | none ↦ failed_slot
    | some (body, header) ↦
        parsed_slot (first_value header (codes "Subscription-Userinfo")) (parse body)
  ]

  unfoldable pub source_at : List Text → ℕ → Slot
  source_at urls i = elim (get_elem? urls i) [ none ↦ empty_slot | some u ↦ source u ]

  unfoldable pub fetch_and_parse_all : List ℕ → List Text → Gathered
  fetch_and_parse_all order urls =
      let slots = run_tasks (source_at urls) order (λ i. empty_slot) in
      with_userinfo (first_userinfo urls slots) (collect 1 urls slots)
