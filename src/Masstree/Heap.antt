-- ===== src/Masstree/Heap.antt =====
-- The nodes of masstree/masstree.h in a heap that several threads access, and the accesses to them.
-- A pointer is an address, 0 is nullptr; an access to nullptr, or past the end of an array, is a
-- fault, and so is a failing assertion.
use transaction_system.Base.{ℕ, ◌+◌, Bool, Option, none, some, ltb, if◌then◌else◌, update}
use transaction_system.Base.Run.{Cmd, ok, fault}
use transaction_system.Base.Shared.{Interference, Shared}
use transaction_system.Masstree.Version.{Version, blank_version}
use transaction_system.Masstree.Key.{KeySlice, no_slice}

abbrev pub Addr : Type 0
Addr = ℕ

-- `Node::ORDER`
abbrev pub order : ℕ
order = 16

-- `key_slice` has `order - 1` cells, `child` has `order`.
pub record InteriorNode : Type 0 where
  pub version : Version
  pub parent : Addr
  pub n_keys : ℕ
  pub key_slice : ℕ → ℕ
  pub child : ℕ → Addr

-- The arrays have `order - 1` cells. `lv` holds a value or the next layer, each a pointer. Nothing
-- uses `n_removed` and `permutation`.
pub record BorderNode : Type 0 where
  pub version : Version
  pub parent : Addr
  pub key_len : ℕ → ℕ
  pub key_slice : ℕ → ℕ
  pub lv : ℕ → Addr
  pub next : Addr
  pub prev : Addr
  pub key_suffixes : ℕ → KeySlice

abbrev pub key_len_layer : ℕ
key_len_layer = 255

abbrev pub key_len_unstable : ℕ
key_len_unstable = 254

pub data Object : Type 0 where
  absent : Object
  interior : InteriorNode → Object
  border : BorderNode → Object

pub record Heap : Type 0 where
  pub object : Addr → Object
  pub fresh : Addr

abbrev pub Others : Type 0
Others = Interference Heap

abbrev pub World : Type 0
World = Shared Heap

-- `new BorderNode` and `new InteriorNode`, before they are stored.
abbrev pub blank_border : BorderNode
blank_border = record {
  version = record blank_version { is_border = Bool.true };
  parent = 0;
  key_len = λ i. 0;
  key_slice = λ i. 0;
  lv = λ i. 0;
  next = 0;
  prev = 0;
  key_suffixes = λ i. no_slice;
}

abbrev pub blank_interior : InteriorNode
blank_interior = record {
  version = blank_version;
  parent = 0;
  n_keys = 0;
  key_slice = λ i. 0;
  child = λ i. 0;
}

abbrev pub version_of : Object → Option Version
version_of absent = none
version_of (interior n) = some n.version
version_of (border b) = some b.version

abbrev pub parent_of : Object → Option Addr
parent_of absent = none
parent_of (interior n) = some n.parent
parent_of (border b) = some b.parent

abbrev pub with_version : Version → Object → Option Object
with_version v absent = none
with_version v (interior n) = some (interior (record n { version = v }))
with_version v (border b) = some (border (record b { version = v }))

abbrev pub with_parent : Addr → Object → Option Object
with_parent p absent = none
with_parent p (interior n) = some (interior (record n { parent = p }))
with_parent p (border b) = some (border (record b { parent = p }))

-- A part of a node of one kind, and a change of one.
abbrev pub border_part : {A : Type 0} → (BorderNode → A) → Object → Option A
border_part f (border b) = some (f b)
border_part f (interior n) = none
border_part f absent = none

abbrev pub interior_part : {A : Type 0} → (InteriorNode → A) → Object → Option A
interior_part f (interior n) = some (f n)
interior_part f (border b) = none
interior_part f absent = none

abbrev pub in_border : (BorderNode → BorderNode) → Object → Option Object
in_border f (border b) = some (border (f b))
in_border f (interior n) = none
in_border f absent = none

abbrev pub in_interior : (InteriorNode → InteriorNode) → Object → Option Object
in_interior f (interior n) = some (interior (f n))
in_interior f (border b) = none
in_interior f absent = none

-- An access to cell `i` of an array of `size` cells.
abbrev pub within : {S A : Type 0} → ℕ → ℕ → Cmd S A → Cmd S A
within size i f w = if ltb i size then f w else fault

-- One access to the object at `p`: a load of a part of it, or a store of one.
module _ (others : Others) where
  unfoldable pub look : {A : Type 0} → (Object → Option A) → Addr → Cmd World A
  look f p w =
      let m = others w.turn w.memory in
      elim (f (m.object p)) [
        | none ↦ fault
        | some a ↦ ok a (record { memory = m; turn = w.turn + 1 })
      ]

  unfoldable pub change : (Object → Option Object) → Addr → Cmd World (Unit {0})
  change f p w =
      let m = others w.turn w.memory in
      elim (f (m.object p)) [
        | none ↦ fault
        | some o ↦
            ok tt (record { memory = record m { object = update m.object p o }; turn = w.turn + 1 })
      ]

  unfoldable pub allocate : Object → Cmd World Addr
  allocate o w =
      let m = others w.turn w.memory in
      ok m.fresh (record {
        memory = record { object = update m.object m.fresh o; fresh = m.fresh + 1 };
        turn = w.turn + 1;
      })
