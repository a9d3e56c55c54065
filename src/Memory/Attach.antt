-- ===== src/Memory/Attach.antt =====
-- memory/attach.py: the two memory backends and the search for the emulator's memory. The
-- operating system's calls are parameters.
pub mod Hosts
use dolphin_re_mcp.Prelude.{
  ℕ, zero, suc, ◌+◌, Bool, true, false, not, ◌&&◌, Option, none, some, List, [], ◌∷◌, leb, ◌==◌,
  if◌then◌else◌, length,
}
use dolphin_re_mcp.Prelude.Int.{ℤ, pos, ◌+ℤ◌}
use dolphin_re_mcp.Prelude.Text.{Bytes}
use dolphin_re_mcp.Errors.{Result, ok, err, attach_error, os_error, out_of_fuel}
use dolphin_re_mcp.Exec.{Exec, lift, ◌>>=◌, ◌>>◌}
use dolphin_re_mcp.Memory.Routing.{Region, mem1, mem2, RoutedAddress, route}
use dolphin_re_mcp.Gdb.Stub.{Stub}
use dolphin_re_mcp.Gdb.Commands.{read_mem, write_mem}

abbrev pub mem1_reserved_size : ℕ
mem1_reserved_size = 0x02000000

abbrev pub mem2_reserved_size : ℕ
mem2_reserved_size = 0x04000000

abbrev pub mem_commit : ℕ
mem_commit = 0x1000

abbrev pub mem_mapped : ℕ
mem_mapped = 0x40000

abbrev pub page_readwrite : ℕ
page_readwrite = 0x04

-- `_Region`
pub record HostRegion : Type 0 where
  pub base_addr : ℕ
  pub size : ℕ

-- `_MEMORY_BASIC_INFORMATION`, as far as it is read. A base address of 0 is None.
pub record MemoryInfo : Type 0 where
  pub base_address : ℕ
  pub region_size : ℕ
  pub state : ℕ
  pub protect : ℕ
  pub kind : ℕ

-- The calls of the operating system: `open_process` tells whether it gives a handle, `query` is
-- none where VirtualQueryEx returns 0, and `read_process` and `write_process` give the bytes
-- that they moved, or none where they fail.
pub record Host : Type 0 where
  pub is_windows : Bool
  pub find_pid : Option ℕ
  pub open_process : ℕ → Bool
  pub query : ℕ → Option MemoryInfo
  pub read_process : ℤ → ℤ → Option Bytes
  pub write_process : ℤ → Bytes → Option ℕ

-- `WindowsAttachBackend`; `handle` tells that it has one.
pub record AttachBackend : Type 0 where
  pub pid : ℕ
  pub mem1_region : HostRegion
  pub mem2_region : HostRegion
  pub handle : Bool

unfoldable pub is_guest_memory : MemoryInfo → Bool
is_guest_memory mbi =
    (mbi.state == mem_commit)
    && ((mbi.kind == mem_mapped)
        && ((mbi.protect == page_readwrite) && not (mbi.base_address == 0)))

abbrev pub collect : MemoryInfo → List HostRegion → List HostRegion
collect mbi rest =
    if is_guest_memory mbi
    then (record { base_addr = mbi.base_address; size = mbi.region_size }) ∷ rest
    else rest

abbrev pub collected : MemoryInfo → Result (List HostRegion) → Result (List HostRegion)
collected mbi (ok rest) = ok (collect mbi rest)
collected mbi (err e) = err e

-- The loop of `_walk_mem_regions`, at one address.
abbrev pub walk_at :
    ℕ → Option MemoryInfo → (ℕ → Result (List HostRegion)) → Result (List HostRegion)
walk_at addr none next = ok []
walk_at addr (some mbi) next =
    let next_addr = mbi.base_address + mbi.region_size in
    if leb next_addr addr then ok (collect mbi []) else collected mbi (next next_addr)

unfoldable pub walk_loop : (ℕ → Option MemoryInfo) → ℕ → ℕ → Result (List HostRegion)
walk_loop query zero addr = err out_of_fuel
walk_loop query (suc fuel) addr = walk_at addr (query addr) (walk_loop query fuel)

-- As many rounds as there are addresses below the limit of a 64-bit process.
abbrev pub address_space : ℕ
address_space = 0x10000000000000000

unfoldable pub walk_mem_regions : Host → ℕ → Result (List HostRegion)
walk_mem_regions host pid =
    if host.open_process pid then walk_loop host.query (suc address_space) 0 else err attach_error

unfoldable pub pick_first : List HostRegion → ℕ → Option HostRegion
pick_first [] wanted_size = none
pick_first (r ∷ rs) wanted_size =
    if r.size == wanted_size then some r else pick_first rs wanted_size

-- `cls(pid, mem1, mem2)`, which opens the handle.
abbrev pub open_handle : Host → ℕ → Option HostRegion → Option HostRegion → Result AttachBackend
open_handle host pid (some m1) (some m2) =
    if host.open_process pid
    then ok (record { pid = pid; mem1_region = m1; mem2_region = m2; handle = true })
    else err attach_error
open_handle host pid _ _ = err attach_error

abbrev pub choose_regions : Host → ℕ → Result (List HostRegion) → Result AttachBackend
choose_regions host pid (err e) = err e
choose_regions host pid (ok regions) =
    open_handle host pid (pick_first regions mem1_reserved_size)
      (pick_first regions mem2_reserved_size)

abbrev pub find_regions : Host → Option ℕ → Result AttachBackend
find_regions host none = err attach_error
find_regions host (some pid) = choose_regions host pid (walk_mem_regions host pid)

-- `WindowsAttachBackend.find_dolphin()`
unfoldable pub find_dolphin : Host → Result AttachBackend
find_dolphin host = if host.is_windows then find_regions host host.find_pid else err attach_error

-- `close()`
unfoldable pub close_handle : AttachBackend → AttachBackend
close_handle b = record b { handle = false }

abbrev pub based : AttachBackend → RoutedAddress → ℤ
based b r = elim r.region [
  | mem1 ↦ pos b.mem1_region.base_addr +ℤ r.offset
  | mem2 ↦ pos b.mem2_region.base_addr +ℤ r.offset
]

abbrev pub based_result : AttachBackend → Result RoutedAddress → Result ℤ
based_result b (ok r) = ok (based b r)
based_result b (err e) = err e

-- `_host_addr(addr, size)`
unfoldable pub host_addr : AttachBackend → ℤ → ℤ → Result ℤ
host_addr b addr size = based_result b (route addr size)

abbrev pub whole : ℤ → Option Bytes → Result Bytes
whole size none = err os_error
whole size (some bytes) = elim size [
  | pos n ↦ if length bytes == n then ok bytes else err os_error
  | _ ↦ err os_error
]

abbrev pub read_at : Host → ℤ → Result ℤ → Result Bytes
read_at host size (err e) = err e
read_at host size (ok a) = whole size (host.read_process a size)

-- `WindowsAttachBackend.read(addr, size)`
unfoldable pub attach_read : Host → AttachBackend → ℤ → ℤ → Result Bytes
attach_read host b addr size = read_at host size (host_addr b addr size)

abbrev pub written : ℕ → Option ℕ → Result (Unit {0})
written n none = err os_error
written n (some m) = if m == n then ok tt else err os_error

abbrev pub write_at : Host → Bytes → Result ℤ → Result (Unit {0})
write_at host bytes (err e) = err e
write_at host bytes (ok a) = written (length bytes) (host.write_process a bytes)

-- `WindowsAttachBackend.write(addr, data)`
unfoldable pub attach_write : Host → AttachBackend → ℤ → Bytes → Result (Unit {0})
attach_write host b addr bytes = write_at host bytes (host_addr b addr (pos (length bytes)))

-- `GDBMemoryBackend.read(addr, size)`
unfoldable pub gdb_mem_read : ℤ → ℤ → Exec Stub Bytes
gdb_mem_read addr size = do lift (route addr size); read_mem addr size

-- `GDBMemoryBackend.write(addr, data)`
unfoldable pub gdb_mem_write : ℤ → Bytes → Exec Stub Unit
gdb_mem_write addr bytes = do lift (route addr (pos (length bytes))); write_mem addr bytes
