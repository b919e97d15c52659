-- ===== src/Common/StepLaws.antt =====
-- Facts of common/step.h.
use transaction_system.Base.{ℕ, ◌≡◌, true, List, [], ◌∷◌, arith, Bool, false}
use transaction_system.Base.Lists.{All}
use transaction_system.Common.Steps.{Step, is_read, draw_steps, read_only_flag, make_steps}

abbrev pub IsReadStep : Step → Type 0
IsReadStep s = is_read s.operation ≡ true

read_only_flag-All :
    (n ratio : ℕ) (draws : List (ℕ × ℕ))
    → read_only_flag ratio draws ≡ true
    → All IsReadStep (draw_steps n ratio draws)
unfolding draw_steps read_only_flag
read_only_flag-All n ratio [] h = tt
read_only_flag-All n ratio (d ∷ draws) h = ground (arith, read_only_flag-All n ratio draws)

-- Whether the first step says that the transaction only reads.
abbrev pub says_read_only : List Step → Bool
says_read_only [] = false
says_read_only (s ∷ steps) = s.read_only

-- Where the first step that makeSteps returns is marked read-only, every step is a read.
pub make_steps-All :
    (tuple_num ratio : ℕ) (draws : List (ℕ × ℕ))
    → says_read_only (make_steps tuple_num ratio draws) ≡ true
    → All IsReadStep (make_steps tuple_num ratio draws)
unfolding make_steps draw_steps read_only_flag
make_steps-All tuple_num ratio [] marked = tt
make_steps-All tuple_num ratio ((z, r) ∷ draws) marked =
    ground (arith, read_only_flag-All tuple_num ratio draws)
