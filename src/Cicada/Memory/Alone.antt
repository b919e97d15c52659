-- ===== src/Cicada/Memory/Alone.antt =====
-- Cicada's memory where the other threads stand still.
use transaction_system.Base.{ℕ, ◌+◌, ◌≡◌, refl, some, update}
use transaction_system.Base.Run.{ok}
use transaction_system.Cicada.Memory.{Others, World, Version, load_version, change_version}

abbrev pub alone : Others
alone n m = m

pub load_version-ok :
    (p : ℕ) (v : Version) (w : World)
    → w.memory.version p ≡ some v
    → load_version alone p w ≡ ok v (record w { turn = w.turn + 1 })
unfolding load_version
load_version-ok p v w there = rw (there, load_version) refl

pub change_version-ok :
    (p : ℕ) (f : Version → Version) (v : Version) (w : World)
    → w.memory.version p ≡ some v
    → change_version alone p f w
      ≡ ok tt (record {
        memory = record w.memory { version = update w.memory.version p (some (f v)) };
        turn = w.turn + 1;
      })
unfolding change_version
change_version-ok p f v w there = rw (there, change_version) refl
