-- ===== src/Tests/Memory.antt =====
-- Addresses of a game that its players look at.
use dolphin_re_mcp.Prelude.{◌+◌, ◌≡◌, refl, ◌↔◌, true, ◌⊎◌}
use dolphin_re_mcp.Errors.{ok}
use dolphin_re_mcp.Memory.Attach.{AttachBackend, host_addr}
use dolphin_re_mcp.Memory.Attach.Hosts.{base_in, host_addr_sound}
use dolphin_re_mcp.Prelude.Int.{ℤ, ◌-ℤ◌, pos, ◌+ℤ◌, ◌≤ℤ◌, ◌<ℤ◌}
use dolphin_re_mcp.Memory.Routing.{route, is_valid, mem1_base, mem1_end, mem2_base, mem2_end, mem2}
use dolphin_re_mcp.Memory.Routing.Ranges.{is_valid_iff, route_sound, Within, base_of, size_of}

is_valid_iff_example : (is_valid (pos 0x817ffffe) (pos 4) ≡ true) ↔ (
    (pos 0 <ℤ pos 4)
    × (Within mem1_base mem1_end (pos 0x817ffffe) (pos 4)
        ⊎ Within mem2_base mem2_end (pos 0x817ffffe) (pos 4)))
is_valid_iff_example = is_valid_iff (pos 0x817ffffe) (pos 4)

route_sound_example :
    (pos (base_of mem2) +ℤ pos 16 ≡ pos 0x90000010)
    × (pos 0 ≤ℤ pos 16)
    × (pos 16 +ℤ pos 67108848 ≡ pos (size_of mem2))
    × (pos 4 ≤ℤ pos 67108848)
unfolding route
route_sound_example = route_sound (pos 0x90000010) (pos 4) refl

abbrev pub dolphin : AttachBackend
dolphin = record {
  pid = 4711;
  mem1_region = record { base_addr = 0x2000000000; size = 0x02000000 };
  mem2_region = record { base_addr = 0x2080000000; size = 0x04000000 };
  handle = true;
}

host_addr_sound_example :
    (a : ℤ) × (host_addr dolphin (pos 0x90000010) (pos 4) ≡ ok a)
    × (a -ℤ pos (base_in dolphin mem2) ≡ pos 0x90000010 -ℤ pos (base_of mem2))
    × (pos (base_in dolphin mem2) ≤ℤ a)
    × (a +ℤ pos 4 ≤ℤ pos (base_in dolphin mem2 + size_of mem2))
unfolding route
host_addr_sound_example =
    host_addr_sound dolphin (pos 0x90000010) (pos 4)
      {r = record { region = mem2; offset = pos 16; size = pos 67108848 }} refl
