-- ===== src/Cicada/Collector/Lock.antt =====
-- The garbage collection lock of a record after maintain.
use transaction_system.Base.{
  ℕ, suc, ◌+◌, ◌%◌, ◌^◌, ◌<◌, ◌≡◌, refl, true, false, List, [], ◌∷◌, some, ◌==◌, leb, arith, update,
}
use transaction_system.Base.Run.{Returns, returns, ok}
use transaction_system.Cicada.Memory.{
  Memory, World, Version, exchange_gc_lock, gc_right_loop, get_gc_right,
}
use transaction_system.Cicada.Collector.{
  GcElement, load_min_rts, load_record_min_wts, store_record_min_wts, cut_next, collect_loop,
  maintain,
}
use transaction_system.Cicada.Memory.Alone.{alone, load_version-ok, change_version-ok}

right-free :
    (k d : ℕ) (w : World)
    → w.memory.gc_lock k ≡ 0
    → d < 256
    → get_gc_right alone 1 k d w
      ≡ ok true (record {
        memory = record w.memory { gc_lock = update w.memory.gc_lock k d };
        turn = w.turn + 1 + 1;
      })
unfolding get_gc_right gc_right_loop exchange_gc_lock
right-free k d w free small =
    let zero_is : (w.memory.gc_lock k == 0) ≡ true = ground (arith, free) in
    let same : (w.memory.gc_lock k == w.memory.gc_lock k) ≡ true = ground arith in
    let fits : d % 2 ^ 8 ≡ d = omega arith in rw zero_is (rw same (rw fits refl))

right-held :
    (k d : ℕ) (w : World)
    → (w.memory.gc_lock k == 0) ≡ false
    → get_gc_right alone 1 k d w ≡ ok false (record w { turn = w.turn + 1 })
unfolding get_gc_right gc_right_loop
right-held k d w held = rw held refl

-- An element that can be collected stays in front, its record locked.
collect_loop-free :
    (turns thread_id : ℕ) (e : GcElement) (queue : List GcElement) (v : Version) (w : World)
    → thread_id < 255
    → leb w.memory.min_rts e.wts ≡ false
    → w.memory.gc_lock e.key ≡ 0
    → leb e.wts (w.memory.record_min_wts e.key) ≡ false
    → w.memory.version e.version ≡ some v
    → collect_loop alone (suc turns) 1 thread_id (e ∷ queue) w
      ≡ collect_loop alone turns 1 thread_id (e ∷ queue) (record {
        memory = record w.memory {
          gc_lock = update w.memory.gc_lock e.key (thread_id + 1);
          version = update w.memory.version e.version (some (record v { next = 0 }));
          record_min_wts = update w.memory.record_min_wts e.key v.wts;
        };
        turn = w.turn + 1 + 1 + 1 + 1 + 1 + 1 + 1 + 1;
      })
unfolding collect_loop load_min_rts load_record_min_wts cut_next store_record_min_wts
collect_loop-free turns thread_id e queue v w small below free above there =
    let w₁ : World = record w { turn = w.turn + 1 } in
    let m₂ : Memory = record w.memory { gc_lock = update w.memory.gc_lock e.key (thread_id + 1) } in
    let w₄ : World = record { memory = m₂; turn = w.turn + 1 + 1 + 1 + 1 } in
    let w₅ : World = record { memory = m₂; turn = w.turn + 1 + 1 + 1 + 1 + 1 } in
    let m₇ : Memory = record m₂ {
      version = update w.memory.version e.version (some (record v { next = 0 }));
    } in
    let w₇ : World = record { memory = m₇; turn = w.turn + 1 + 1 + 1 + 1 + 1 + 1 } in
    let hit : (e.version == e.version) ≡ true = ground arith in
    let there₇ : m₇.version e.version ≡ some (record v { next = 0 }) = rw hit refl in
    rw below (
      rw (right-free e.key (thread_id + 1) w₁ free (omega arith)) (
        rw above (
          rw (load_version-ok e.version v w₄ there) (
            rw (change_version-ok e.version (λ x. record x { next = 0 }) v w₅ there)
              (rw (load_version-ok e.version (record v { next = 0 }) w₇ there₇) refl)))))

-- An element whose record is locked is taken off.
collect_loop-held :
    (turns thread_id : ℕ) (e : GcElement) (queue : List GcElement) (w : World)
    → leb w.memory.min_rts e.wts ≡ false
    → (w.memory.gc_lock e.key == 0) ≡ false
    → collect_loop alone (suc turns) 1 thread_id (e ∷ queue) w
      ≡ collect_loop alone turns 1 thread_id queue (record w { turn = w.turn + 1 + 1 })
unfolding collect_loop load_min_rts
collect_loop-held turns thread_id e queue w below held =
    rw below (rw (right-held e.key (thread_id + 1) (record w { turn = w.turn + 1 }) held) refl)

collect_loop-empty :
    (turns thread_id : ℕ) (w : World) → collect_loop alone (suc turns) 1 thread_id [] w ≡ ok [] w
unfolding collect_loop
collect_loop-empty turns thread_id w = refl

-- Where the other threads stand still and the garbage collection flag of the thread, whose id is below
-- 255, is set: maintain on one element whose timestamp is below `MinRts` and above the record's
-- `minWts`, with the record's lock free and its version there, returns with an empty queue; it cuts the
-- list after the version and stores the version's `wts` in `minWts`, but leaves the lock of the record
-- with the thread.
pub maintain-keeps_lock :
    (thread_id : ℕ) (e : GcElement) (v : Version) (w : World)
    → w.memory.gc_execute_flag thread_id ≡ 1
    → thread_id < 255
    → e.wts < w.memory.min_rts
    → w.memory.gc_lock e.key ≡ 0
    → w.memory.record_min_wts e.key < e.wts
    → w.memory.version e.version ≡ some v
    → Returns
        (λ queue w'.
          (queue ≡ [])
          × (w'.memory.gc_lock e.key ≡ thread_id + 1)
          × (w'.memory.record_min_wts e.key ≡ v.wts)
          × (w'.memory.version e.version ≡ some (record v { next = 0 })))
        (maintain alone 3 1 thread_id (e ∷ []) w)
unfolding maintain
maintain-keeps_lock thread_id e v w flag small old free young there =
    let go : (w.memory.gc_execute_flag thread_id == 1) ≡ true = ground arith in
    let below : leb w.memory.min_rts e.wts ≡ false = ground arith in
    let above : leb e.wts (w.memory.record_min_wts e.key) ≡ false = ground arith in
    let hit : (e.key == e.key) ≡ true = ground arith in
    let hit' : (e.version == e.version) ≡ true = ground arith in
    let held : (update w.memory.gc_lock e.key (thread_id + 1) e.key == 0) ≡ false = ground arith in
    let m : Memory = record w.memory {
      gc_lock = update w.memory.gc_lock e.key (thread_id + 1);
      version = update w.memory.version e.version (some (record v { next = 0 }));
      record_min_wts = update w.memory.record_min_wts e.key v.wts;
    } in
    let after : World = record { memory = m; turn = w.turn + 1 + 1 + 1 + 1 + 1 + 1 + 1 + 1 + 1 } in
    rw go (
      rw
        (collect_loop-free 2 thread_id e [] v (record w { turn = w.turn + 1 }) small below free
          above there)
        (rw (collect_loop-held 1 thread_id e [] after below held) (
          rw (collect_loop-empty 0 thread_id (record after { turn = after.turn + 1 + 1 }))
            (returns (refl, rw hit refl, rw hit refl, rw hit' refl)))))
