-- ===== src/Masstree/Version.antt =====
-- masstree/version.h: `Version`, a union of the 32-bit `body` with bit fields, the first in the
-- lowest bit, as gcc and clang lay them out on x86-64.
pub mod Check
use Prim.Native.Nat.{bit_xor}
use transaction_system.Base.{
  ℕ, ◌+◌, ◌*◌, ◌%◌, ◌^◌, ◌≡◌, refl, Bool, true, false, leb, if◌then◌else◌,
}

pub record Version : Type 0 where
  pub v_split : ℕ
  pub v_insert : ℕ
  pub is_border : Bool
  pub is_root : Bool
  pub deleted : Bool
  pub splitting : Bool
  pub inserting : Bool
  pub locked : Bool

abbrev pub bit : Bool → ℕ
bit b = if b then 1 else 0

-- `Version()`
abbrev pub blank_version : Version
blank_version = record {
  v_split = 0;
  v_insert = 0;
  is_border = false;
  is_root = false;
  deleted = false;
  splitting = false;
  inserting = false;
  locked = false;
}

-- All bits of `body` but the highest. The two bits between v_insert and is_border stay 0.
unfoldable pub low_body : Version → ℕ
low_body v =
    v.v_split
    + v.v_insert * 2 ^ 16
    + bit v.is_border * 2 ^ 26
    + bit v.is_root * 2 ^ 27
    + bit v.deleted * 2 ^ 28
    + bit v.splitting * 2 ^ 29
    + bit v.inserting * 2 ^ 30

unfoldable pub body : Version → ℕ
body v = low_body v + bit v.locked * 2 ^ 31

-- `Version::lock`
abbrev pub lock_bit : ℕ
lock_bit = 0x8000_0000

-- `operator ^`
unfoldable pub version_xor : Version → Version → ℕ
version_xor v w = bit_xor (body v) (body w)

-- `(now ^ before) <= Version::lock`, by which the readers tell that a node did not change.
unfoldable pub unchanged : Version → Version → Bool
unfolding version_xor
unchanged now before = leb (version_xor now before) lock_bit

-- What unlock makes of a version: `++v_insert` and `++v_split` wrap within their fields.
unfoldable pub unlocked : Version → Version
unlocked v =
    let counted : Version =
      if v.inserting
      then record v { v_insert = (v.v_insert + 1) % 2 ^ 8 }
      else if v.splitting
      then record v { v_split = (v.v_split + 1) % 2 ^ 16 }
      else v in
    record counted { locked = false; inserting = false; splitting = false }

-- The layout that `body` gives a locked border root.
body_of_root :
    body (record blank_version { v_split = 3; is_root = true; is_border = true; locked = true })
    ≡ 0x8c00_0003
unfolding body low_body
body_of_root = refl
