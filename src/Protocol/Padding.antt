-- ===== src/Protocol/Padding.antt =====
-- driver/internal/protocol/protocol.go: the padding behind a part.
use go_hdb.Prelude.{ℕ, suc, ◌+◌, ◌-◌, ◌%◌, ◌≤◌, ◌<◌, ◌≡◌, arith, ◌==◌, if◌then◌else◌}
use go_hdb.Prelude.Int.{ℤ, pos, negsuc}

abbrev pub padding : ℕ
padding = 8

-- `padBytes`. Go's remainder has the sign of the dividend.
unfoldable pub pad_bytes : ℤ → ℕ
pad_bytes (pos n) = if n % padding == 0 then 0 else padding - n % padding
pad_bytes (negsuc n) = if suc n % padding == 0 then 0 else padding + suc n % padding

-- The padding is the least that makes a size a multiple of 8.
pub pad_bytes_least :
    (n m : ℕ)
    → n ≤ m
    → m % 8 ≡ 0
    → ((n + pad_bytes (pos n)) % 8 ≡ 0) × (pad_bytes (pos n) < 8) × (n + pad_bytes (pos n) ≤ m)
unfolding pad_bytes
pad_bytes_least n m h k = ground arith
