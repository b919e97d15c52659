-- ===== src/Cicada/Executor/Found.antt =====
-- Which version cicada's read finds where the other threads stand still, and that it returns.
use transaction_system.Base.{
  ℕ, zero, suc, ◌+◌, ◌≤◌, ◌<◌, ◌≡◌, refl, true, false, ◌||◌, List, [], ◌∷◌, ◌++◌, some, arith, ap,
  ◌∙◌, sym, lt→ltb, le→ltb,
}
use mathlib.Core.Path.{subst}
use transaction_system.Base.Run.{Returns, returns, Returns-bind, Returns-mono, ok}
use transaction_system.Base.Lists.{length}
use transaction_system.Common.Steps.{Step}
use transaction_system.Cicada.Memory.{Memory, World, Version, committed, aborted, load_latest}
use transaction_system.Cicada.Memory.Alone.{alone, load_version-ok}
use transaction_system.Cicada.Executor.{
  TxExecutor, in_read_set, in_write_set, is_committed, is_pending, is_aborted, skip_later,
  wait_pending, find_committed, first_read_only, read,
}

-- From `p` the list goes through versions at `ps` with `P`, and then to `q`.
abbrev pub Passes : (Version → Type 0) → Memory → ℕ → List ℕ → ℕ → Type 0
Passes P m p [] q = p ≡ q
Passes P m p (x ∷ xs) q =
    (p ≡ x) × ((v : Version) × (m.version x ≡ some v) × P v × Passes P m v.next xs q)

-- The last address, or `d`.
abbrev pub last_of : ℕ → List ℕ → ℕ
last_of d [] = d
last_of d (x ∷ xs) = last_of x xs

skip_later-Passes :
    (turns ts d p q : ℕ) (ps : List ℕ) (u : Version) (w : World)
    → length ps < turns
    → Passes (λ v. ts < v.wts) w.memory p ps q
    → w.memory.version q ≡ some u
    → u.wts ≤ ts
    → Returns
        (λ r w'. (r.0 ≡ last_of d ps) × (r.1 ≡ q) × (w'.memory ≡ w.memory))
        (skip_later alone turns ts d p w)
unfolding skip_later
skip_later-Passes zero ts d p q ps u w enough passes at early = absurd (omega arith)
skip_later-Passes (suc turns) ts d p q [] u w enough passes at early =
    let there : w.memory.version p ≡ some u = ap w.memory.version passes ∙ at in
    rw (load_version-ok p u w there) (rw (le→ltb ts u.wts early) (returns (refl, passes, refl)))
skip_later-Passes (suc turns) ts d p q (x ∷ xs) u w enough (is_x, (v, there, later, rest)) at
      early =
    let there_p : w.memory.version p ≡ some v = ap w.memory.version is_x ∙ there in
    let w₁ : World = record w { turn = w.turn + 1 } in
    let w₂ : World = record w { turn = w.turn + 1 + 1 } in
    rw (load_version-ok p v w there_p) (
      rw (lt→ltb ts v.wts later) (
        rw (load_version-ok p v w₁ there_p) (
          Returns-mono (skip_later-Passes turns ts p v.next q xs u w₂ (omega arith) rest at early)
            λ r w' (d_is, q_is, same). (d_is ∙ ap (λ (y : ℕ). last_of y xs) is_x, q_is, same))))

wait_pending-aborted :
    (turns p : ℕ) (v : Version) (w : World)
    → w.memory.version p ≡ some v
    → v.status ≡ aborted
    → wait_pending alone (suc turns) p w ≡ ok tt (record w { turn = w.turn + 1 })
unfolding wait_pending is_pending
wait_pending-aborted turns p v w there gone =
    let going : is_pending v.status ≡ false = ap is_pending gone in
    rw (load_version-ok p v w there) (rw going refl)

find_committed-skip :
    (turns p : ℕ) (v : Version) (w : World)
    → w.memory.version p ≡ some v
    → v.status ≡ aborted
    → find_committed alone (suc (suc turns)) p w
      ≡ find_committed alone (suc turns) v.next (record w { turn = w.turn + 1 + 1 + 1 + 1 })
unfolding find_committed is_committed is_aborted
find_committed-skip turns p v w there gone =
    let going : is_committed v.status ≡ false = ap is_committed gone in
    let is_gone : is_aborted v.status ≡ true = ap is_aborted gone in
    let w₁ : World = record w { turn = w.turn + 1 } in
    let w₂ : World = record w { turn = w.turn + 1 + 1 } in
    let w₃ : World = record w { turn = w.turn + 1 + 1 + 1 } in
    rw (load_version-ok p v w there) (
      rw going (
        rw (wait_pending-aborted turns p v w₁ there gone) (
          rw (load_version-ok p v w₂ there) (rw is_gone (rw (load_version-ok p v w₃ there) refl)))))

find_committed-Passes :
    (turns p q : ℕ) (ps : List ℕ) (u : Version) (w : World)
    → length ps < turns
    → Passes (λ v. v.status ≡ aborted) w.memory p ps q
    → w.memory.version q ≡ some u
    → u.status ≡ committed
    → Returns (λ r w'. (r ≡ q) × (w'.memory ≡ w.memory)) (find_committed alone turns p w)
unfolding find_committed is_committed
find_committed-Passes zero p q ps u w enough passes at done = absurd (omega arith)
find_committed-Passes (suc turns) p q [] u w enough passes at done =
    let there : w.memory.version p ≡ some u = ap w.memory.version passes ∙ at in
    let stop : is_committed u.status ≡ true = ap is_committed done ∙ refl in
    rw (load_version-ok p u w there) (rw stop (returns (passes, refl)))
find_committed-Passes (suc zero) p q (x ∷ xs) u w enough passes at done = absurd (omega arith)
find_committed-Passes (suc (suc turns)) p q (x ∷ xs) u w enough (is_x, (v, there, gone, rest)) at
      done =
    let there_p : w.memory.version p ≡ some v = ap w.memory.version is_x ∙ there in
    subst (Returns (λ r w'. (r ≡ q) × (w'.memory ≡ w.memory)))
      (sym (find_committed-skip turns p v w there_p gone))
      (find_committed-Passes (suc turns) v.next q xs u (record w { turn = w.turn + 1 + 1 + 1 + 1 })
        (omega arith) rest at done)

-- Where the other threads stand still, cicada's read of a key in neither set, in a transaction that is
-- not read-only, returns, with more turns than the record has later versions and aborted ones to pass:
-- it passes the versions that are later than the transaction and then the aborted ones, and takes the
-- committed version that follows; the element that it appends names the last of the later versions (0
-- without one) and the version taken, whose bytes are returned.
pub read-finds :
    (turns k : ℕ) (t : TxExecutor) (s : Step) (ss : List Step) (w : World) (q r : ℕ)
    (later gone : List ℕ) (u c : Version)
    → (in_write_set k t.write_set || in_read_set k t.read_set) ≡ false
    → t.steps ≡ s ∷ ss
    → s.read_only ≡ false
    → length later < turns
    → length gone < turns
    → Passes (λ v. t.wts.body < v.wts) w.memory (w.memory.latest k) later q
    → w.memory.version q ≡ some u
    → u.wts ≤ t.wts.body
    → Passes (λ v. v.status ≡ aborted) w.memory q gone r
    → w.memory.version r ≡ some c
    → c.status ≡ committed
    → Returns
        (λ t' w'.
          (t'.read_set
            ≡ t.read_set ++ record { key = k; later_ver = last_of 0 later; ver = r } ∷ [])
          × (t'.return_value ≡ c.value)
          × (t'.write_set ≡ t.write_set)
          × (w'.memory ≡ w.memory))
        (read alone turns t k w)
unfolding read first_read_only load_latest
read-finds turns k t s ss w q r later gone u c new begins writes enough enough' passes at early
      passes' at' done =
    let flag : first_read_only t.steps w ≡ ok false w = rw begins (rw writes refl) in
    let w₁ : World = record w { turn = w.turn + 1 } in
    rw new (
      rw flag (
        Returns-bind
          (skip_later-Passes turns t.wts.body 0 (w.memory.latest k) q later u w₁ enough passes at
            early)
          λ found w₂ (last_is, q_is, same).
            let q_there : Passes (λ v. v.status ≡ aborted) w₂.memory found.1 gone r =
              subst (λ (m : Memory). Passes (λ v. v.status ≡ aborted) m found.1 gone r) (sym same)
                (subst (λ (x : ℕ). Passes (λ v. v.status ≡ aborted) w.memory x gone r) (sym q_is)
                  passes') in
            let r_there : w₂.memory.version r ≡ some c =
              ap (λ (m : Memory). m.version r) same ∙ at' in
            Returns-bind
              (find_committed-Passes turns found.1 r gone c w₂ enough' q_there r_there done)
              λ ver w₃ (ver_is, same₃).
                let ver_there : w₃.memory.version ver ≡ some c =
                  ap (λ (m : Memory). m.version ver) same₃
                  ∙ ap w₂.memory.version ver_is
                  ∙ r_there in
                rw (load_version-ok ver c w₃ ver_there) (
                  returns (
                    (λ x.
                        t.read_set
                        ++ record { key = k; later_ver = last_is x; ver = ver_is x } ∷ []),
                    refl,
                    refl,
                    same₃ ∙ same,
                  ))))
