-- ===== src/Storage.antt =====
-- The size of the claim for an uploaded image (src/extensions/storage.rs).
mod Tests
use kubevirt_webgui.Base.{
  ℕ, ◌+◌, ◌*◌, ◌/◌, ◌%◌, ◌^◌, ◌≤◌, ◌<◌, ◌≡◌, Bool, true, false, ◌⊎◌, ltb, ◌==◌, if◌then◌else◌,
  arith,
}

abbrev pub gib : ℕ
gib = 1073741824

abbrev div_ceil : ℕ → ℕ → ℕ
div_ceil a b = if a % b == 0 then a / b else a / b + 1

abbrev max : ℕ → ℕ → ℕ
max a b = if ltb a b then b else a

-- `u64`: sums and products wrap around.
unfoldable pub claim_size : ℕ → ℕ
claim_size bytes =
    let padded = (bytes + bytes / 10) % 2 ^ 64 in (max (div_ceil padded gib) 1 * gib) % 2 ^ 64

-- An image of less than 2^63 bytes fits into its claim with a tenth extra, and the claim is a whole
-- number of GiB: one, or less than one GiB more than that.
pub claim_size_lem :
    (bytes : ℕ)
    → bytes < 2 ^ 63
    → (bytes + bytes / 10 ≤ claim_size bytes)
      × (claim_size bytes % gib ≡ 0)
      × (gib ≤ claim_size bytes)
      × ((claim_size bytes ≡ gib) ⊎ (claim_size bytes < bytes + bytes / 10 + gib))
unfolding claim_size
claim_size_lem bytes h = ground arith
