-- ===== src/Driver/Version/Order.antt =====
-- driver/version.go: the order of versions, and what features mean.
use Prim.Native.Nat.{bit_and, bit_or}
use go_hdb.Prelude.{
  ℕ, ◌<◌, ◌≡◌, ◌⊎◌, refl, Bool, true, false, not, arith, ◌==◌, if◌then◌else◌, Bytes,
}
use go_hdb.Prelude.Int.{ℤ, pos, negsuc, leb_ℤ}
use go_hdb.Driver.Version.{
  VersionNumber, compare_uint64, compare, Version, detect, parse_version, has_feature,
  feature_availability, hdbf_server_version, hdbf_connect_client_info, number,
}

-- Lower in the first of the four numbers that differs.
abbrev pub IsLower : VersionNumber → VersionNumber → Type 0
IsLower v w =
    (v.major < w.major)
    ⊎ ((v.major ≡ w.major)
        × ((v.minor < w.minor)
            ⊎ ((v.minor ≡ w.minor)
                × ((v.revision < w.revision) ⊎ ((v.revision ≡ w.revision) × (v.patch < w.patch))))))

-- Equal but for the build id.
abbrev pub IsSame : VersionNumber → VersionNumber → Type 0
IsSame v w =
    (v.major ≡ w.major) × (v.minor ≡ w.minor) × (v.revision ≡ w.revision) × (v.patch ≡ w.patch)

abbrev pub IsOrder : VersionNumber → VersionNumber → ℤ → Type 0
IsOrder v w r =
    ((r ≡ negsuc 0) × IsLower v w) ⊎ (((r ≡ pos 0) × IsSame v w) ⊎ ((r ≡ pos 1) × IsLower w v))

uint64_cases :
    (a b : ℕ)
    → ((compare_uint64 a b ≡ negsuc 0) × (a < b))
      ⊎ (((compare_uint64 a b ≡ pos 0) × (a ≡ b)) ⊎ ((compare_uint64 a b ≡ pos 1) × (b < a)))
unfolding compare_uint64
uint64_cases a b = ground arith

-- `compare` is -1, 0 or 1, as the one version is lower than the other, the same but for the build id, or
-- higher.
pub compare-IsOrder : (v w : VersionNumber) → IsOrder v w (compare v w)
unfolding compare
compare-IsOrder v w = ground (
  arith,
  uint64_cases v.major w.major,
  uint64_cases v.minor w.minor,
  uint64_cases v.revision w.revision,
  uint64_cases v.patch w.patch,
)

detect-features :
    (vn : VersionNumber)
    → let version : Version = record { vn = vn; feature = detect vn feature_availability 0 } in
      (has_feature version hdbf_server_version ≡ leb_ℤ (pos 0) (compare vn (number 2 0 0)))
      × (has_feature version hdbf_connect_client_info ≡ leb_ℤ (pos 0) (compare vn (number 2 0 42)))
unfolding detect has_feature
detect-features vn =
    split_both (leb_ℤ (pos 0) (compare vn (number 2 0 0)))
      (leb_ℤ (pos 0) (compare vn (number 2 0 42)))
  where
    split_both :
        (b c : Bool)
        → let feature =
            (if c then bit_or (if b then bit_or 0 2 else 0) 4 else if b then bit_or 0 2 else 0) in
          (not (bit_and feature 2 == 0) ≡ b) × (not (bit_and feature 4 == 0) ≡ c)
    split_both true true = (refl, refl)
    split_both true false = (refl, refl)
    split_both false true = (refl, refl)
    split_both false false = (refl, refl)

-- A parsed version has a feature exactly if it is not lower than the version that the feature needs.
pub parse_version-features :
    (s : Bytes)
    → let version = parse_version s in
      (has_feature version hdbf_server_version ≡ leb_ℤ (pos 0) (compare version.vn (number 2 0 0)))
      × (has_feature version hdbf_connect_client_info
          ≡ leb_ℤ (pos 0) (compare version.vn (number 2 0 42)))
unfolding parse_version
parse_version-features s = detect-features (parse_version s).vn
