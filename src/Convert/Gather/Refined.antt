-- ===== src/Convert/Gather/Refined.antt =====
-- The goroutines give what fetching one source after the other would give.
use subconverter_ng.Cache.{Header}
use subconverter_ng.Common.{
  ℕ, suc, ◌<◌, ◌≡◌, refl, true, ap, Option, List, [], ◌∷◌, Text, if◌then◌else◌, length, arith,
  completes, run_tasks, run_tasks_slot,
}
use subconverter_ng.Convert.Gather.{
  Slot, empty_slot, Gathered, gathered, source_failed, put_first, with_userinfo, first_userinfo,
  collect, source, source_at, fetch_and_parse_all,
}
use subconverter_ng.Parser.{Parsed}

-- Every goroutine of a list runs to its end.
abbrev pub AllComplete : List ℕ → ℕ → Type 0
AllComplete order n = (i : ℕ) → i < n → completes order i ≡ true

module _ (fetch : Text → Option (Text × Header)) (parse : Text → Option Parsed) where
  -- One source after the other, the first with the number `i`, up to the first that fails.
  unfoldable pub gather_in_turn : ℕ → List Text → Gathered
  gather_in_turn i [] = gathered [] [] []
  gather_in_turn i (u ∷ us) =
      let rest = gather_in_turn (suc i) us in
      let s = source fetch parse u in if s.failed then source_failed i else put_first s rest

  abbrev pub userinfo_of : List Text → Text
  userinfo_of [] = []
  userinfo_of (u ∷ us) = (source fetch parse u).userinfo

  unfoldable pub fetch_in_turn : List Text → Gathered
  fetch_in_turn urls = with_userinfo (userinfo_of urls) (gather_in_turn 1 urls)

  collect_pointwise :
      (i : ℕ) (urls : List Text) (slots : ℕ → Slot)
      → ((j : ℕ) → j < length urls → slots j ≡ source_at fetch parse urls j)
      → collect i urls slots ≡ gather_in_turn i urls
  unfolding collect gather_in_turn source_at
  collect_pointwise i [] slots h = refl
  collect_pointwise i (u ∷ us) slots h = rw (
    h 0 (omega arith),
    collect_pointwise (suc i) us (λ j. slots (suc j)) (λ j l. h (suc j) (omega arith)),
  )

  first_userinfo_pointwise :
      (urls : List Text) (slots : ℕ → Slot)
      → ((j : ℕ) → j < length urls → slots j ≡ source_at fetch parse urls j)
      → first_userinfo urls slots ≡ userinfo_of urls
  unfolding source_at
  first_userinfo_pointwise [] slots h = refl
  first_userinfo_pointwise (u ∷ us) slots h = ap (λ s. s.userinfo) (h 0 (omega arith))

  -- The sources give the same in whatever order their goroutines complete: the nodes and skipped
  -- lines of all, in the order of the sources, with the header of the first; or the failure of the
  -- first source, in that order, that fails.
  pub fetch_and_parse_all-in_turn :
      (order : List ℕ) (urls : List Text)
      → AllComplete order (length urls)
      → fetch_and_parse_all fetch parse order urls ≡ fetch_in_turn urls
  unfolding fetch_and_parse_all fetch_in_turn
  fetch_and_parse_all-in_turn order urls all =
      rw (collect_pointwise 1 urls slots written, first_userinfo_pointwise urls slots written)
    where
      slots : ℕ → Slot
      slots = run_tasks (source_at fetch parse urls) order (λ i. empty_slot)

      written : (j : ℕ) → j < length urls → slots j ≡ source_at fetch parse urls j
      written j l = run_tasks_slot (source_at fetch parse urls) order (λ i. empty_slot) j (all j l)
