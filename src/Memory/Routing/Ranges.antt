-- ===== src/Memory/Routing/Ranges.antt =====
-- What `route` accepts and what it returns.
use dolphin_re_mcp.Prelude.{ℕ, ◌≡◌, ◌⊎◌, ◌↔◌, true, arith}
use dolphin_re_mcp.Errors.{ok}
use dolphin_re_mcp.Prelude.Int.{ℤ, pos, ◌+ℤ◌, ◌≤ℤ◌, ◌<ℤ◌}
use dolphin_re_mcp.Memory.Routing.{
  mem1_base, mem1_end, mem2_base, mem2_end, is_valid, Region, mem1, mem2, RoutedAddress, route,
  mem1_size, mem2_size,
}

-- [addr, addr + size) lies in [base, stop).
abbrev pub Within : ℕ → ℕ → ℤ → ℤ → Type 0
Within base stop addr size = (pos base ≤ℤ addr) × (addr +ℤ size ≤ℤ pos stop)

-- An access is valid exactly when it takes at least one byte and stays inside one region.
pub is_valid_iff :
    (addr size : ℤ)
    → (is_valid addr size ≡ true) ↔ (
        (pos 0 <ℤ size)
        × (Within mem1_base mem1_end addr size ⊎ Within mem2_base mem2_end addr size))
unfolding is_valid
is_valid_iff addr size = ground arith

abbrev pub base_of : Region → ℕ
base_of mem1 = mem1_base
base_of mem2 = mem2_base

abbrev pub size_of : Region → ℕ
size_of mem1 = mem1_size
size_of mem2 = mem2_size

-- A routed access names the byte that was asked for: the offset, added to the region's base, is the
-- address, the offset is not negative, `size` is what is left of the region, and the access fits.
pub route_sound :
    (addr size : ℤ) {r : RoutedAddress}
    → route addr size ≡ ok r
    → (pos (base_of r.region) +ℤ r.offset ≡ addr)
      × (pos 0 ≤ℤ r.offset)
      × (r.offset +ℤ r.size ≡ pos (size_of r.region))
      × (size ≤ℤ r.size)
unfolding route
route_sound addr size h = ground arith
