-- ===== src/Masstree/Access/Settles.antt =====
-- What get of masstree/masstree.h returns among other threads: what one pass over a node gave, after which
-- the version of the node was tested, in each layer.
use transaction_system.Base.{
  ℕ, zero, suc, ◌+◌, ◌≡◌, refl, ap, ◌∙◌, Bool, true, false, not, if◌then◌else◌,
}
use transaction_system.Base.Run.{
  Cmd, Run, ok, and_then, Whenever, when, when_fault, when_starved, Whenever-mono,
}
use transaction_system.Masstree.Version.{Version, unchanged}
use transaction_system.Masstree.Key.{KeySlice, Key, next}
use transaction_system.Masstree.Heap.{Addr, Others, World}
use transaction_system.Masstree.Search.{ExtractResult, Extract, load_version, extract_with_index}
use transaction_system.Masstree.Search.Gives.{passed, passed-passed, Gives, OthersOnly, IsStable}
use transaction_system.Masstree.Search.Reads.{
  load_version-Reads, next-Reads, extract_with_index-Reads,
}
use transaction_system.Masstree.Access.{Label, retry, onward, find_border, walk_on, get_loop, get}
use transaction_system.Masstree.Access.Reads.{find_border-Reads, walk_on-IsStable}

not-false : (b : Bool) → not b ≡ false → b ≡ true
not-false true h = refl
not-false false h = absurd cc

module _ (others : Others) (spin : ℕ) (w : World) where
  -- The node and the version come from findBorder at `root`, or from the walk on from there.
  pub data Reached (root : Addr) (k : Key) : Addr → Version → Type 0 where
    found :
        (turns : ℕ) (w₀ w₁ : World) (n : Addr) (v : Version)
        → OthersOnly others w w₀
        → find_border others spin turns root k w₀ ≡ ok (n, v) w₁
        → Reached root k n v
    walked :
        (turns : ℕ) (w₀ w₁ : World) (m : Addr) (u : Version) (n : Addr) (v : Version)
        → Reached root k m u
        → OthersOnly others w w₀
        → walk_on others spin turns m w₀ ≡ ok (n, v) w₁
        → Reached root k n v

  -- A pass over a node that gave `e`: its version was stable before and not deleted, and the version
  -- loaded next after the pass was taken for unchanged.
  pub record Checked (root : Addr) (k : Key) (e : Extract) : Type 0 where
    pub node : Addr
    pub version : Version
    pub reached : Reached root k node version
    pub stable : IsStable version
    pub alive : version.deleted ≡ false
    pub before : World
    pub after : World
    pub last : World
    pub now : Version
    pub since : OthersOnly others w before
    pub gave : extract_with_index others node k before ≡ ok e after
    pub loaded : load_version others node after ≡ ok now last
    pub same : unchanged now version ≡ true

  -- The search for `k` from `root` comes to `r`: by a checked pass that found nothing or a value, or by
  -- one that found a layer, in which the search goes on with the next slice.
  pub data Settles : Addr → Key → Addr → Type 0 where
    missing :
        (root : Addr) (k : Key) (e : Extract)
        → Checked root k e
        → e.result ≡ ExtractResult.not_found
        → Settles root k 0
    has_value :
        (root : Addr) (k : Key) (e : Extract)
        → Checked root k e
        → e.result ≡ ExtractResult.value
        → Settles root k e.lv
    in_layer :
        (root : Addr) (k : Key) (e : Extract) (s : KeySlice) (k₁ : Key) (w₀ w₁ : World) (r : Addr)
        → Checked root k e
        → e.result ≡ ExtractResult.layer
        → next k w₀ ≡ ok (s, k₁) w₁
        → Settles e.lv k₁ r
        → Settles root k r

  abbrev Comes : Addr → Key → Addr → World → Type 0
  Comes root k r w' = OthersOnly others w w' × Settles root k r

  after_run :
      {A B : Type 0} {P : A → Type 0} (Q : B → World → Type 0) (f : Cmd World A)
      (k : A → Cmd World B) (w₁ : World) {r : Run World A}
      → OthersOnly others w w₁
      → f w₁ ≡ r
      → Whenever (λ a w₂. P a × OthersOnly others w₁ w₂) r
      → ((a : A) (w₂ : World) → f w₁ ≡ ok a w₂ → P a → OthersOnly others w w₂ → Whenever Q (k a w₂))
      → Whenever Q (and_then r k)
  after_run Q f k w₁ (m, e) is (when {a = a} {s = w₂} (p, (n, e'))) next =
      next a w₂ is p (m + n, e' ∙ ap (passed others n) e ∙ passed-passed others m n w)
  after_run Q f k w₁ only is when_fault next = when_fault
  after_run Q f k w₁ only is when_starved next = when_starved

  step :
      {A B : Type 0} {P : A → Type 0} (Q : B → World → Type 0) (f : Cmd World A)
      (k : A → Cmd World B) (w₁ : World)
      → Gives others P f
      → OthersOnly others w w₁
      → ((a : A) (w₂ : World) → f w₁ ≡ ok a w₂ → P a → OthersOnly others w w₂ → Whenever Q (k a w₂))
      → Whenever Q (and_then (f w₁) k)
  step Q f k w₁ g only next = after_run Q f k w₁ only refl (g.run w₁) next

  choose :
      {B : Type 0} (Q : B → World → Type 0) (f g : Cmd World B) (w₁ : World) (b : Bool)
      → (b ≡ true → Whenever Q (f w₁))
      → (b ≡ false → Whenever Q (g w₁))
      → Whenever Q ((if b then f else g) w₁)
  choose Q f g w₁ true on_true on_false = on_true refl
  choose Q f g w₁ false on_true on_false = on_false refl

  by_result :
      {B : Type 0} (Q : B → World → Type 0) (f g h i : Cmd World B) (w₁ : World) (r : ExtractResult)
      → (r ≡ ExtractResult.not_found → Whenever Q (f w₁))
      → (r ≡ ExtractResult.value → Whenever Q (g w₁))
      → (r ≡ ExtractResult.layer → Whenever Q (h w₁))
      → Whenever Q (i w₁)
      → Whenever Q (
          (elim r as (λ _. Cmd World B) [
            | ExtractResult.not_found ↦ f
            | ExtractResult.value ↦ g
            | ExtractResult.layer ↦ h
            | ExtractResult.unstable ↦ i
          ])
            w₁)
  by_result Q f g h i w₁ ExtractResult.not_found f' g' h' i' = f' refl
  by_result Q f g h i w₁ ExtractResult.value f' g' h' i' = g' refl
  by_result Q f g h i w₁ ExtractResult.layer f' g' h' i' = h' refl
  by_result Q f g h i w₁ ExtractResult.unstable f' g' h' i' = i'

  -- What is known at a label of get.
  abbrev Known : Addr → Key → Label → Type 0
  Known root k retry = Unit
  Known root k (onward n v) = Reached root k n v × IsStable v

  get_loop-Settles :
      (turns : ℕ) (root : Addr) (k : Key) (l : Label) (w₁ : World)
      → Known root k l
      → OthersOnly others w w₁
      → Whenever (Comes root k) (get_loop others spin turns root k l w₁)
  unfolding get_loop
  get_loop-Settles zero root k l w₁ known only = when_starved
  get_loop-Settles (suc turns) root k retry w₁ known only =
      step (Comes root k) (find_border others spin turns root k) _ w₁
        (find_border-Reads others spin turns root k) only
        λ r w₂ is stable only₂.
          get_loop-Settles turns root k (onward r.0 r.1) w₂
            (found turns w₁ w₂ r.0 r.1 only is, stable) only₂
  get_loop-Settles (suc turns) root k (onward n v) w₁ (reached, stable) only =
      choose (Comes root k) _ _ w₁ v.deleted
        (λ gone. get_loop-Settles turns root k retry w₁ tt only)
        (λ alive.
          step (Comes root k) (extract_with_index others n k) _ w₁
            (extract_with_index-Reads others n k) only
            λ e w₂ gave _ only₂.
              step (Comes root k) (load_version others n) _ w₂ (load_version-Reads others n) only₂
                λ now w₃ loaded _ only₃.
                  choose (Comes root k) _ _ w₃ (not (unchanged now v))
                    (λ changed.
                      step (Comes root k) (walk_on others spin turns n) _ w₃
                        (walk_on-IsStable others spin turns n) only₃
                        λ r w₄ is stable₁ only₄.
                          get_loop-Settles turns root k (onward r.0 r.1) w₄
                            (walked turns w₃ w₄ n v r.0 r.1 reached only₃ is, stable₁) only₄)
                    (λ kept.
                      let pass : Checked root k e = record {
                        node = n;
                        version = v;
                        reached = reached;
                        stable = stable;
                        alive = alive;
                        before = w₁;
                        after = w₂;
                        last = w₃;
                        now = now;
                        since = only;
                        gave = gave;
                        loaded = loaded;
                        same = not-false (unchanged now v) kept;
                      } in
                      by_result (Comes root k) _ _ _ _ w₃ e.result
                        (λ is. when (only₃, missing root k e pass is))
                        (λ is. when (only₃, has_value root k e pass is))
                        (λ is.
                          step (Comes root k) (next k) _ w₃ (next-Reads others k) only₃
                            λ r w₄ moved _ only₄.
                              Whenever-mono (get_loop-Settles turns e.lv r.1 retry w₄ tt only₄)
                                λ a w₅ (only₅, below).
                                  (only₅, in_layer root k e r.0 r.1 w₃ w₄ a pass is moved below))
                        (get_loop-Settles turns root k (onward n v) w₃ (reached, stable) only₃)))

  -- get, where it returns, whatever the other threads do: it has stored nothing, and its result is what
  -- the search comes to. In each layer a pass over a node that findBorder or the walk along the border
  -- nodes reached gave it, whose version was stable before the pass, not deleted, and taken for unchanged
  -- after it: nullptr where the pass found nothing, the value where it found one, and where it found a
  -- layer, what the search for the next slice comes to there.
  pub get-Settles :
      (turns : ℕ) (root : Addr) (k : Key)
      → Whenever
          (λ r w'. OthersOnly others w w' × Settles root k r)
          (get others spin turns root k w)
  unfolding get
  get-Settles turns root k = get_loop-Settles turns root k retry w tt (zero, refl)
