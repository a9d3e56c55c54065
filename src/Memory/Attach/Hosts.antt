-- ===== src/Memory/Attach/Hosts.antt =====
-- The search for the emulator's memory ends, and a guest address goes to the byte of the host that
-- stands for it.
use dolphin_re_mcp.Prelude.{
  ℕ, zero, suc, ◌+◌, ◌<◌, ◌≤◌, ◌≡◌, refl, ap, Option, none, some, List, [], arith, Bool-cases, inl,
  inr, leb, if◌then◌else◌,
}
use dolphin_re_mcp.Prelude.Int.{ℤ, pos, ◌+ℤ◌, ◌-ℤ◌, ◌≤ℤ◌, pos_part, neg_part, eq_of_parts, int_laws}
use dolphin_re_mcp.Errors.{Result, ok, err, attach_error}
use dolphin_re_mcp.Memory.Routing.{Region, mem1, mem2, RoutedAddress, route}
use dolphin_re_mcp.Memory.Routing.Ranges.{base_of, size_of, route_sound}
use dolphin_re_mcp.Memory.Attach.{
  HostRegion, MemoryInfo, Host, AttachBackend, address_space, collect, collected, walk_at,
  walk_loop, walk_mem_regions, host_addr, based,
}

collected-ok :
    (mbi : MemoryInfo) (r : Result (List HostRegion)) {rs : List HostRegion}
    → r ≡ ok rs
    → collected mbi r ≡ ok (collect mbi rs)
collected-ok mbi r h = rw h refl

module _ (query : ℕ → Option MemoryInfo) (ends : (a : ℕ) → address_space ≤ a → query a ≡ none) where
  walk_at-ok :
      (fuel addr : ℕ) (o : Option MemoryInfo)
      → ((a : ℕ) → addr < a → (rs : List HostRegion) × (walk_loop query fuel a ≡ ok rs))
      → (rs : List HostRegion) × (walk_at addr o (walk_loop query fuel) ≡ ok rs)
  walk_at-ok fuel addr none h = ([], refl)
  walk_at-ok fuel addr (some mbi) h =
      elim (Bool-cases (leb (mbi.base_address + mbi.region_size) addr)) [
        | inl b ↦ (collect mbi [], rw b refl)
        | inr b ↦
            let next = mbi.base_address + mbi.region_size in
            let later : addr < next = ground arith in
            let (rs, run) = h next later in
            (collect mbi rs, rw b (collected-ok mbi (walk_loop query fuel next) run))
      ]

  walk_loop-ok :
      (fuel addr : ℕ)
      → address_space ≤ fuel + addr
      → (rs : List HostRegion) × (walk_loop query (suc fuel) addr ≡ ok rs)
  unfolding walk_loop
  walk_loop-ok zero addr h = ([], rw (ends addr (omega (arith, h))) refl)
  walk_loop-ok (suc fuel) addr h =
      walk_at-ok (suc fuel) addr (query addr)
        λ a later. walk_loop-ok fuel a (omega (arith, h, later))

-- The walk over a process ends, if the system has no regions from the limit of its address space on:
-- it gives the regions that it saw, or it raises AttachError where the process cannot be opened.
pub walk_mem_regions-ends :
    (host : Host) (pid : ℕ)
    → ((a : ℕ) → address_space ≤ a → host.query a ≡ none)
    → (rs : List HostRegion) × (walk_mem_regions host pid
        ≡ (if host.open_process pid then ok rs else err attach_error))
unfolding walk_mem_regions
walk_mem_regions-ends host pid ends =
    let (rs, run) = walk_loop-ok host.query ends address_space 0 (omega arith) in (rs, rw run refl)

abbrev pub base_in : AttachBackend → Region → ℕ
base_in b mem1 = b.mem1_region.base_addr
base_in b mem2 = b.mem2_region.base_addr

shifted :
    (host guest stop : ℕ) (off left addr size : ℤ)
    → pos guest +ℤ off ≡ addr
    → pos 0 ≤ℤ off
    → off +ℤ left ≡ pos stop
    → size ≤ℤ left
    → let a = pos host +ℤ off in
      (a -ℤ pos host ≡ addr -ℤ pos guest) × (pos host ≤ℤ a) × (a +ℤ size ≤ℤ pos (host + stop))
shifted host guest stop off left addr size e low whole fits =
    let e₀ = ap pos_part e in
    let e₁ = ap neg_part e in
    let w₀ = ap pos_part whole in
    let w₁ = ap neg_part whole in
    (eq_of_parts _ _ (omega (int_laws, e₀, e₁)), omega int_laws, omega (int_laws, w₀, w₁))

based_sound :
    (b : AttachBackend) (addr size : ℤ) (region : Region) (off left : ℤ)
    → pos (base_of region) +ℤ off ≡ addr
    → pos 0 ≤ℤ off
    → off +ℤ left ≡ pos (size_of region)
    → size ≤ℤ left
    → let a = based b (record { region = region; offset = off; size = left }) in
      (a -ℤ pos (base_in b region) ≡ addr -ℤ pos (base_of region))
      × (pos (base_in b region) ≤ℤ a)
      × (a +ℤ size ≤ℤ pos (base_in b region + size_of region))
based_sound b addr size mem1 off left =
    shifted (base_in b mem1) (base_of mem1) (size_of mem1) off left addr size
based_sound b addr size mem2 off left =
    shifted (base_in b mem2) (base_of mem2) (size_of mem2) off left addr size

-- The address that is read or written in the emulator's process lies in the region that the guest
-- address lies in, with all of the access, as far from the region's start as in the guest.
pub host_addr_sound :
    (b : AttachBackend) (addr size : ℤ) {r : RoutedAddress}
    → route addr size ≡ ok r
    → (a : ℤ) × (host_addr b addr size ≡ ok a)
      × (a -ℤ pos (base_in b r.region) ≡ addr -ℤ pos (base_of r.region))
      × (pos (base_in b r.region) ≤ℤ a)
      × (a +ℤ size ≤ℤ pos (base_in b r.region + size_of r.region))
unfolding host_addr
host_addr_sound b addr size {r} h =
    let (names, low, whole, fits) = route_sound addr size {r = r} h in
    let (far, from, to) = based_sound b addr size r.region r.offset r.size names low whole fits in
    (based b r, rw h refl, far, from, to)
