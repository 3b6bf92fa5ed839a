-- ===== src/Version/Examples.antt =====
-- Runs of `Version` in src/message.rs on concrete texts, and its theorems at concrete inputs.
use enody_rs.Strings.Numbers.{decimal, parse_uint}
use Prim.Native.Nat.{Ordering}
use enody_rs.Common.{◌<◌, ◌≡◌, ◌↔◌, refl, true, codes, ok, err, arith}
use enody_rs.Strings.Parts.{split}
use enody_rs.Version.{Version, InRange, display, from_str, cmp, is_newer}
use enody_rs.Version.RoundTrip.{Reads, from_str-display, from_str_sound}
use enody_rs.Version.Order.{weight, cmp-weight}

abbrev release : Version
release = record { major = 1; minor = 12; patch = 300 }

abbrev older : Version
older = record { major = 1; minor = 2; patch = 40000 }

printed : display release ≡ codes "1.12.300"
unfolding display decimal
printed = refl

parsed : from_str (codes "1.12.300") ≡ ok release
unfolding from_str split parse_uint
parsed = refl

with_plus : from_str (codes "+1.12.300") ≡ ok release
unfolding from_str split parse_uint
with_plus = refl

too_many : from_str (codes "1.2.3.4") ≡ err (codes "too many version parts")
unfolding from_str split parse_uint
too_many = refl

too_large : from_str (codes "1.256.3") ≡ err (codes "invalid minor")
unfolding from_str split parse_uint
too_large = refl

two_parts : from_str (codes "1.2") ≡ err (codes "missing patch")
unfolding from_str split parse_uint
two_parts = refl

from_str-display_example : from_str (display release) ≡ ok release
from_str-display_example = from_str-display release (omega arith)

from_str_sound_example : Reads (split b'.' (codes "1.12.300")) release × InRange release
from_str_sound_example = from_str_sound (codes "1.12.300") release parsed

cmp-weight_example :
    ((is_newer release older ≡ true) ↔ (weight older < weight release))
    × ((cmp release older ≡ Ordering.eq) ↔ (release ≡ older))
    × ((cmp release older ≡ Ordering.lt) ↔ (weight release < weight older))
cmp-weight_example = cmp-weight release older (omega arith) (omega arith)
