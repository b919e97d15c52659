-- ===== src/Base/Shared.antt =====
-- A memory that one thread accesses among others: before each of its accesses the others may have
-- changed it in any way that `Others` says, so a spin loop sees what they do between two turns.
use Prim.Native.Nat.{ℕ, ◌+◌}
use transaction_system.Base.Run.{Cmd, ok}

-- What the other threads make of the memory just before this thread's n-th access.
abbrev pub Interference : Type 0 → Type 0
Interference M = ℕ → M → M

-- The memory as this thread left it, and the number of accesses it has made.
pub record Shared (M : Type 0) : Type 0 where
  pub memory : M
  pub turn : ℕ

-- One access: the others first, then `f`.
abbrev pub access : {M A : Type 0} → Interference M → (M → A × M) → Cmd (Shared M) A
access others f w =
    let m = others w.turn w.memory in ok (f m).0 (record { memory = (f m).1; turn = w.turn + 1 })
