-- ===== src/Driver/Version.antt =====
-- driver/version.go: version numbers and the features that depend on them. A slice of five numbers is a
-- record of them. `strings.SplitN` and `strconv.ParseUint` are of the standard library.
pub mod Order
use Prim.Native.Nat.{bit_and, bit_or}
use go_hdb.Prelude.{
  ℕ, zero, suc, ◌+◌, ◌-◌, ◌*◌, ◌/◌, ◌^◌, Bool, true, false, ◌&&◌, ◌||◌, not, Option, none, some,
  List, [], ◌∷◌, leb, ltb, ◌==◌, if◌then◌else◌, Bytes,
}
use go_hdb.Prelude.Int.{ℤ, pos, negsuc, leb_ℤ}

pub record VersionNumber : Type 0 where
  pub major : ℕ
  pub minor : ℕ
  pub revision : ℕ
  pub patch : ℕ
  pub build_id : ℕ

-- strings.SplitN at dots, into n parts at most.
abbrev add_head : ℕ → List Bytes → List Bytes
add_head c [] = (c ∷ []) ∷ []
add_head c (part ∷ parts) = (c ∷ part) ∷ parts

unfoldable pub split_n : ℕ → Bytes → List Bytes
split_n n [] = [] ∷ []
split_n zero (c ∷ s) = add_head c (split_n zero s)
split_n (suc n) (c ∷ s) =
    let part = split_n n s in
    let same = split_n (suc n) s in if c == b'.' then [] ∷ part else add_head c same

-- strconv.ParseUint in base 10 to 64 bits, where its error is ignored: 0 for what is no number, the
-- greatest number for one that is too great.
abbrev is_digit : ℕ → Bool
is_digit c = leb b'0' c && leb c b'9'

abbrev max_uint64 : ℕ
max_uint64 = 2 ^ 64 - 1

unfoldable pub digits_value : ℕ → Bytes → Option ℕ
digits_value acc [] = some acc
digits_value acc (c ∷ s) =
    let rest = digits_value (acc * 10 + (c - b'0')) s in if is_digit c then rest else none

abbrev clamped : Option ℕ → ℕ
clamped none = 0
clamped (some v) = if leb v max_uint64 then v else max_uint64

unfoldable pub parse_uint : Bytes → ℕ
parse_uint [] = 0
parse_uint (c ∷ s) = clamped (digits_value 0 (c ∷ s))

-- The number of a part that is not there is 0.
abbrev part_value : ℕ → List Bytes → ℕ
part_value i [] = 0
part_value zero (p ∷ parts) = parse_uint p
part_value (suc i) (p ∷ parts) = part_value i parts

unfoldable pub parse_version_number : Bytes → VersionNumber
parse_version_number s =
    let parts = split_n 4 s in
    record {
      major = part_value 0 parts;
      minor = part_value 1 parts;
      revision = part_value 2 parts;
      patch = part_value 3 parts;
      build_id = part_value 4 parts;
    }

abbrev pub is_zero : VersionNumber → Bool
is_zero vn = vn.major == 0 && vn.minor == 0 && vn.revision == 0 && vn.patch == 0 && vn.build_id == 0

unfoldable pub compare_uint64 : ℕ → ℕ → ℤ
compare_uint64 u1 u2 = if u1 == u2 then pos 0 else if ltb u2 u1 then pos 1 else negsuc 0

-- The loop of `compare`: the first result that is not 0.
abbrev first_nonzero : ℤ → ℤ → ℤ
first_nonzero (pos zero) rest = rest
first_nonzero (pos (suc n)) rest = pos (suc n)
first_nonzero (negsuc n) rest = negsuc n

-- The build id is ignored.
unfoldable pub compare : VersionNumber → VersionNumber → ℤ
compare v w = first_nonzero (compare_uint64 v.major w.major) (
    first_nonzero (compare_uint64 v.minor w.minor) (
      first_nonzero (compare_uint64 v.revision w.revision)
        (first_nonzero (compare_uint64 v.patch w.patch) (pos 0))))

abbrev pub number : ℕ → ℕ → ℕ → VersionNumber
number major minor revision = record {
  major = major;
  minor = minor;
  revision = revision;
  patch = 0;
  build_id = 0;
}

abbrev pub version_number_one : VersionNumber
version_number_one = number 1 0 120

abbrev pub hdbf_server_version : ℕ
hdbf_server_version = 2

abbrev pub hdbf_connect_client_info : ℕ
hdbf_connect_client_info = 4

-- `hdbFeatureAvailability`.
abbrev pub feature_availability : List (ℕ × VersionNumber)
feature_availability =
    (hdbf_server_version, number 2 0 0) ∷ (hdbf_connect_client_info, number 2 0 42) ∷ []

pub record Version : Type 0 where
  pub vn : VersionNumber
  pub feature : ℕ

-- The range over the map, in any order.
unfoldable pub detect : VersionNumber → List (ℕ × VersionNumber) → ℕ → ℕ
detect vn [] feature = feature
detect vn ((f, cv) ∷ fs) feature =
    detect vn fs (if leb_ℤ (pos 0) (compare vn cv) then bit_or feature f else feature)

unfoldable pub parse_version : Bytes → Version
parse_version s =
    let parsed = parse_version_number s in
    let vn = if is_zero parsed then version_number_one else parsed in
    record { vn = vn; feature = detect vn feature_availability 0 }

abbrev pub sps : Version → ℕ
sps v = v.vn.revision / 10

unfoldable pub has_feature : Version → ℕ → Bool
has_feature v feature = not (bit_and v.feature feature == 0)
