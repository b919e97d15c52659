-- ===== src/Common/Steps.antt =====
-- common/step.h: the operations of a transaction and how a workload of them is drawn.
use Prim.Native.Nat.{bit_and}
use transaction_system.Base.{
  ℕ, ◌-◌, ◌%◌, Bool, true, false, ◌&&◌, List, [], ◌∷◌, ◌==◌, ltb, if◌then◌else◌,
}

pub data Operation : Type 0 where
  read write rmw : Operation

pub record Step : Type 0 where
  pub operation : Operation
  pub key : ℕ
  pub read_only : Bool
  pub write_only : Bool

abbrev pub step : Operation → ℕ → Step
step o k = record { operation = o; key = k; read_only = false; write_only = false }

abbrev pub is_read : Operation → Bool
is_read Operation.read = true
is_read _ = false

abbrev pub is_write : Operation → Bool
is_write Operation.write = true
is_write _ = false

-- `Step::operator<`
unfoldable pub step_lt : Step → Step → Bool
step_lt a b =
    if a.key == b.key && (is_write a.operation && is_read b.operation)
    then true
    else if a.key == b.key && (is_write a.operation && is_write b.operation)
    then true
    else ltb a.key b.key

-- The loop of `makeSteps`. Its i-th round draws a pair: the result of `zipf()` and of `rand.next()`.
unfoldable pub draw_steps : (tuple_num ratio : ℕ) → List (ℕ × ℕ) → List Step
draw_steps tuple_num ratio [] = []
draw_steps tuple_num ratio ((z, r) ∷ draws) =
    let key = bit_and z (tuple_num - 1) in
    (if ltb (r % 100) ratio then step Operation.read key else step Operation.write key)
    ∷ draw_steps tuple_num ratio draws

unfoldable pub read_only_flag : ℕ → List (ℕ × ℕ) → Bool
read_only_flag ratio [] = true
read_only_flag ratio ((z, r) ∷ draws) = ltb (r % 100) ratio && read_only_flag ratio draws

unfoldable pub write_only_flag : ℕ → List (ℕ × ℕ) → Bool
write_only_flag ratio [] = true
write_only_flag ratio ((z, r) ∷ draws) =
    (if ltb (r % 100) ratio then false else true) && write_only_flag ratio draws

-- `steps.begin()->readOnly = …; steps.begin()->writeOnly = …`, for `maxOp` = 0 a write through a
-- past-the-end iterator, which is left out here.
abbrev mark_first : Bool → Bool → List Step → List Step
mark_first r w [] = []
mark_first r w (s ∷ steps) = record s { read_only = r; write_only = w } ∷ steps

-- `makeSteps`, with `maxOp` the number of draws.
unfoldable pub make_steps : (tuple_num ratio : ℕ) → List (ℕ × ℕ) → List Step
unfolding draw_steps read_only_flag write_only_flag
make_steps tuple_num ratio draws =
    mark_first (read_only_flag ratio draws) (write_only_flag ratio draws)
      (draw_steps tuple_num ratio draws)
