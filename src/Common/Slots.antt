-- ===== src/Common/Slots.antt =====
-- Tasks that each write one slot of a shared array, in any order of completion.
use Prim.Native.Nat.{ℕ}
use mathlib.Core.Path.{◌≡◌, refl, ◌∙◌}
use mathlib.Core.Logic.{inl, inr}
use mathlib.Core.Bool.{Bool, true, false, ◌||◌}
use mathlib.Core.List.{List, [], ◌∷◌}
use native.Mathlib.Omega.{arith}
use subconverter_ng.Common.Tests.{if◌then◌else◌, ◌==◌, Bool-cases}

-- Whether a task is among those that complete.
unfoldable pub completes : List ℕ → ℕ → Bool
completes [] i = false
completes (j ∷ js) i = j == i || completes js i

module _ {ℓ} {A : Type ℓ} (task : ℕ → A) where
  -- The array after the tasks of `order` have completed, one after the other.
  unfoldable pub run_tasks : List ℕ → (ℕ → A) → ℕ → A
  run_tasks [] slots = slots
  run_tasks (i ∷ order) slots = run_tasks order (λ j. if i == j then task i else slots j)

  run_task_slot :
      (order : List ℕ) (slots : ℕ → A) (i : ℕ)
      → run_tasks order slots i ≡ (if completes order i then task i else slots i)
  unfolding run_tasks completes
  run_task_slot [] slots i = refl
  run_task_slot (j ∷ order) slots i =
      run_task_slot order (λ k. if j == k then task j else slots k) i
      ∙ elim (Bool-cases (completes order i)) [
        | inl t ↦ ground (arith, t)
        | inr f ↦ ground (arith, f)
      ]

  -- A slot whose task completes holds what the task wrote, in whatever order the tasks complete.
  pub run_tasks_slot :
      (order : List ℕ) (slots : ℕ → A) (i : ℕ)
      → completes order i ≡ true
      → run_tasks order slots i ≡ task i
  run_tasks_slot order slots i h = run_task_slot order slots i ∙ ground (arith, h)

  -- A slot whose task never completes stays as it was.
  pub run_tasks_idle :
      (order : List ℕ) (slots : ℕ → A) (i : ℕ)
      → completes order i ≡ false
      → run_tasks order slots i ≡ slots i
  run_tasks_idle order slots i h = run_task_slot order slots i ∙ ground (arith, h)
