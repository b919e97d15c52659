-- ===== src/Masstree/Alone.antt =====
-- The accesses to one node of masstree/ where the other threads stand still.
use transaction_system.Base.{ℕ, ◌+◌, ◌<◌, ◌≡◌, refl, ap, ◌∙◌, arith, update, ==_iff, lt→ltb, ◌≢◌}
use mathlib.Core.Path.{fun_ext}
use transaction_system.Base.Run.{Cmd, ok}
use transaction_system.Masstree.Version.{Version}
use transaction_system.Masstree.Heap.{
  Heap, World, Addr, Others, Object, BorderNode, border, version_of, with_version, border_part,
  in_border, within, look, change,
}

abbrev pub alone : Others
alone n m = m

abbrev pub world : Heap → ℕ → World
world m t = record { memory = m; turn = t }

abbrev pub put : Addr → Object → Heap → Heap
put p o m = record m { object = update m.object p o }

abbrev pub grown : Heap → Heap
grown m = record m { fresh = m.fresh + 1 }

pub put_self : (p : Addr) (o : Object) (m : Heap) → (put p o m).object p ≡ o
put_self p o m = rw ((==_iff p p).1 refl) refl

pub put_other : (p q : Addr) (o : Object) (m : Heap) → p ≢ q → (put p o m).object q ≡ m.object q
put_other p q o m ne = ground (arith, ==_iff p q)

pub put-put : (p : Addr) (o o' : Object) (m : Heap) → put p o' (put p o m) ≡ put p o' m
put-put p o o' m =
    ap (λ (f : Addr → Object). record m { object = f }) (fun_ext (λ q. ground (arith, ==_iff p q)))

pub within_lem :
    {S A : Type 0} (size i : ℕ) (f : Cmd S A) (w : S) → i < size → within size i f w ≡ f w
within_lem size i f w h = rw (lt→ltb i size h) refl

module _ (p : Addr) (m : Heap) (t : ℕ) (b : BorderNode) (at : m.object p ≡ border b) where
  pub look-border :
      {A : Type 0} (f : BorderNode → A)
      → look alone (border_part f) p (world m t) ≡ ok (f b) (world m (t + 1))
  unfolding look
  look-border f = rw (at, look) refl

  pub look-version : look alone version_of p (world m t) ≡ ok b.version (world m (t + 1))
  unfolding look
  look-version = rw (at, look) refl

  pub change-border :
      (f : BorderNode → BorderNode)
      → change alone (in_border f) p (world m t) ≡ ok tt (world (put p (border (f b)) m) (t + 1))
  unfolding change
  change-border f = rw (at, change) refl

  pub change-version :
      (v : Version)
      → change alone (with_version v) p (world m t)
        ≡ ok tt (world (put p (border (record b { version = v })) m) (t + 1))
  unfolding change
  change-version v = rw (at, change) refl

-- The same where the node was just stored.
module _ (p : Addr) (m : Heap) (t : ℕ) (b : BorderNode) where
  pub change-put :
      (f : BorderNode → BorderNode)
      → change alone (in_border f) p (world (put p (border b) m) t)
        ≡ ok tt (world (put p (border (f b)) m) (t + 1))
  change-put f =
      change-border p (put p (border b) m) t b (put_self p (border b) m) f
      ∙ ap (λ (h : Heap). ok tt (world h (t + 1))) (put-put p (border b) (border (f b)) m)
