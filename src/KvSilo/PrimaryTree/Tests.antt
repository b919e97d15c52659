-- ===== src/KvSilo/PrimaryTree/Tests.antt =====
-- The theorems on kvsilo/primary_tree.cpp at concrete trees, and runs.
use transaction_system.Base.{ℕ, ◌≡◌, ◌≢◌, refl, List, [], ◌∷◌, arith, update, true, some, none}
use transaction_system.Base.Run.{ok, fault, Returns}
use transaction_system.BpTree.Heap.{Addr, Store, absent, a_node, a_record, blank_node}
use transaction_system.BpTree.Entries.{Entry, lookup}
use transaction_system.KvSilo.PrimaryTree.{read, write, primary_tree}
use transaction_system.KvSilo.PrimaryTree.Reads.{write-read}
use transaction_system.KvSilo.PrimaryTree.Initial.{new_store, FindsEight, primary_tree-find}

primary_tree-find_example : Returns (λ root s. FindsEight 2 root s) (primary_tree 2 new_store)
primary_tree-find_example = primary_tree-find 0

-- One leaf with the keys 4 and 6, whose records stand at 1 and 2.
abbrev two_records : Store
two_records = record {
  object = update (update (update (λ p. absent) 1 (a_record 40)) 2 (a_record 60)) 3 (
      a_node (record (blank_node true) {
        keys = update (update (λ i. none) 0 (some 4)) 1 (some 6);
        pointers = update (update (update (λ i. none) 0 (some 1)) 1 (some 2)) 3 (some 0);
        num_keys = 2;
      }));
  fresh = 4;
  queue = 0;
}

abbrev two_entries : List Entry
two_entries = (4, 1) ∷ (6, 2) ∷ []

write-read_example :
    (s' : Store) × (write 1 3 6 61 two_records ≡ ok tt s')
    × (s'.object 2 ≡ a_record 61)
    × ((j : ℕ) → lookup j two_entries ≢ 0 → read 1 3 j s' ≡ ok (lookup j two_entries) s')
    × ((j : ℕ) → lookup j two_entries ≡ 0 → read 1 3 j s' ≡ fault)
    × ((p : Addr) → p ≢ 2 → s'.object p ≡ two_records.object p)
write-read_example =
    write-read 0 0 6 61 60 two_records 3 two_entries (omega arith) (λ e. absurd (omega (arith, e)))
      (_, refl, refl, refl, omega arith, (refl, refl, (refl, refl, tt)))
      (λ e. absurd (omega (arith, e))) refl
