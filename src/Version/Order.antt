-- ===== src/Version/Order.antt =====
-- The derived order of `Version` in src/message.rs.
use Prim.Native.Nat.{Ordering}
use enody_rs.Common.{ℕ, ◌+◌, ◌*◌, ◌<◌, ◌≡◌, ◌↔◌, true, arith}
use enody_rs.Version.{Version, InRange, cmp, is_newer}

-- The fields in one number, the major version in front.
abbrev pub weight : Version → ℕ
weight v = (v.major * 256 + v.minor) * 65536 + v.patch

-- Between versions whose fields fit their types, the derived order is that of the packed numbers:
-- newer is greater, equal is equal, and older is less.
pub cmp-weight :
    (a b : Version)
    → InRange a
    → InRange b
    → ((is_newer a b ≡ true) ↔ (weight b < weight a))
      × ((cmp a b ≡ Ordering.eq) ↔ (a ≡ b))
      × ((cmp a b ≡ Ordering.lt) ↔ (weight a < weight b))
unfolding cmp
cmp-weight a b ha hb =
    ((ground arith, ground arith), (ground arith, ground arith), (ground arith, ground arith))
