-- ===== src/BpTree/Printing.antt =====
-- The queue of bptree/main.c and what print_leaves and print_tree print, addresses left out.
use transaction_system.Base.{
  ℕ, zero, suc, ◌+◌, ◌-◌, Bool, false, List, [], ◌∷◌, ◌++◌, ◌==◌, if◌then◌else◌,
}
use transaction_system.Base.Run.{Cmd, ok, starved, pure, ◌>>=◌, ◌>>◌}
use transaction_system.BpTree.Heap.{
  Addr, Node, Store, get_key, get_pointer, set_next, at_node, node_at,
}
use transaction_system.BpTree.Search.{path_to_root}

-- `queue`, read and written.
unfoldable pub get_queue : Cmd Store Addr
get_queue s = ok s.queue s

unfoldable pub set_queue : Addr → Cmd Store (Unit {0})
set_queue p s = ok tt (record s { queue = p })

-- `while (c->next != NULL) c = c->next;`
unfoldable pub last_loop : ℕ → Addr → Cmd Store Addr
last_loop zero c = λ s. starved
last_loop (suc turns) c = do n ← node_at c; if n.next == 0 then pure c else last_loop turns n.next

unfoldable pub enqueue : ℕ → Addr → Cmd Store (Unit {0})
enqueue turns new_node = do
  q ← get_queue
  if q == 0
      then (do set_queue new_node; at_node new_node (set_next 0))
      else (do c ← last_loop turns q; at_node c (set_next new_node); at_node new_node (set_next 0))

unfoldable pub dequeue : Cmd Store Addr
dequeue = do n ← get_queue; first ← node_at n; set_queue first.next; at_node n (set_next 0); pure n

-- What is printed: a key, a line end, `| `.
pub data Output : Type 0 where
  key_text : ℕ → Output
  line_end : Output
  bar : Output

module _ (order : ℕ) where
  -- The keys of a node, `n` from the i-th.
  unfoldable pub print_keys : ℕ → ℕ → Cmd Node (List Output)
  print_keys zero i = pure []
  print_keys (suc n) i = do
    k ← get_key order i
    rest ← print_keys n (i + 1)
    pure (key_text k ∷ rest)

  -- `while (!c->is_leaf) c = c->pointers[0];`
  unfoldable pub leftmost : ℕ → Addr → Cmd Store Addr
  leftmost zero c = λ s. starved
  leftmost (suc depth) c = do
    n ← node_at c
    if n.is_leaf then pure c else (do p ← at_node c (get_pointer order 0); leftmost depth p)

  unfoldable pub leaves_loop : ℕ → Addr → Cmd Store (List Output)
  leaves_loop zero c = λ s. starved
  leaves_loop (suc leaves) c = do
    n ← node_at c
    keys ← at_node c (print_keys n.num_keys 0)
    p ← at_node c (get_pointer order (order - 1))
    if p == 0 then pure keys else (do rest ← leaves_loop leaves p; pure (keys ++ bar ∷ rest))

  -- `none` is printed as "Empty tree."; here as nothing but the line end.
  unfoldable pub print_leaves : (depth leaves : ℕ) → Addr → Cmd Store (List Output)
  print_leaves depth leaves root =
      if root == 0
      then pure (line_end ∷ [])
      else (do c ← leftmost depth root; keys ← leaves_loop leaves c; pure (keys ++ line_end ∷ []))

  -- `for (i = 0; i <= n->num_keys; i++) enqueue(n->pointers[i]);`
  unfoldable pub enqueue_all : ℕ → Addr → ℕ → ℕ → Cmd Store (Unit {0})
  enqueue_all turns p zero i = pure tt
  enqueue_all turns p (suc n) i = do
    q ← at_node p (get_pointer order i)
    enqueue turns q
    enqueue_all turns p n (i + 1)

  -- Whether `n` is the leftmost child of its parent.
  unfoldable pub is_leftmost : Addr → Node → Cmd Store Bool
  is_leftmost p n =
      if n.parent == 0
      then pure false
      else (do q ← at_node n.parent (get_pointer order 0); pure (p == q))

  -- The rank of `n` where it begins a new one: `rank` after it and what is printed.
  unfoldable pub rank_text : ℕ → Addr → ℕ → Addr → Node → Cmd Store (ℕ × List Output)
  rank_text depth root rank p n = do
    first ← is_leftmost p n
    if first
        then (do
          new_rank ← path_to_root depth root p
          if new_rank == rank then pure (rank, []) else pure (new_rank, line_end ∷ []))
        else pure (rank, [])

  -- `while (queue != NULL)` of print_tree, over as many nodes as `nodes`.
  unfoldable pub tree_loop : (nodes depth turns : ℕ) → Addr → ℕ → Cmd Store (List Output)
  tree_loop zero depth turns root rank = do
    q ← get_queue
    if q == 0 then pure (line_end ∷ []) else (λ s. starved)
  tree_loop (suc nodes) depth turns root rank = do
    q ← get_queue
    if q == 0 then pure (line_end ∷ []) else (do
      p ← dequeue
      n ← node_at p
      (rank₁, text) ← rank_text depth root rank p n
      keys ← at_node p (print_keys n.num_keys 0)
      if n.is_leaf then pure tt else enqueue_all turns p (n.num_keys + 1) 0
      rest ← tree_loop nodes depth turns root rank₁
      pure (text ++ (keys ++ bar ∷ rest)))

  unfoldable pub print_tree : (nodes depth turns : ℕ) → Addr → Cmd Store (List Output)
  print_tree nodes depth turns root =
      if root == 0
      then pure (line_end ∷ [])
      else (do set_queue 0; enqueue turns root; tree_loop nodes depth turns root 0)
