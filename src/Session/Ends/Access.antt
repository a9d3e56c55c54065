-- ===== src/Session/Ends/Access.antt =====
-- Memory accesses end.
use dolphin_re_mcp.Prelude.{refl, Option, none, some, arith}
use dolphin_re_mcp.Prelude.Int.{ℤ, pos, negsuc}
use dolphin_re_mcp.Prelude.Text.{Bytes}
use dolphin_re_mcp.Errors.{Result, ok, err}
use dolphin_re_mcp.Exec.{lift}
use dolphin_re_mcp.Gdb.Commands.{read_mem}
use dolphin_re_mcp.Memory.Routing.{route, RoutedAddress}
use dolphin_re_mcp.Memory.Attach.{
  Host, AttachBackend, host_addr, based_result, whole, read_at, attach_read, gdb_mem_read,
}
use dolphin_re_mcp.Session.{on_stub, read_backend, mem_read}
use dolphin_re_mcp.Session.Proper.{Ends, Ends-bind, Ends-if, IsClean, Ends-lift, Ends-on_stub}
use dolphin_re_mcp.Session.Ends.Client.{read_mem-Ends}

-- Memory accesses.
route-IsClean : (addr size : ℤ) → IsClean (route addr size)
unfolding route
route-IsClean addr size = ground arith

whole-IsClean : (size : ℤ) (o : Option Bytes) → IsClean (whole size o)
whole-IsClean size none = refl
whole-IsClean (pos n) (some bytes) = ground arith
whole-IsClean (negsuc n) (some bytes) = refl

read_at-IsClean :
    (host : Host) (b : AttachBackend) (size : ℤ) (r : Result RoutedAddress)
    → IsClean r
    → IsClean (read_at host size (based_result b r))
read_at-IsClean host b size (ok r) h = whole-IsClean size _
read_at-IsClean host b size (err e) h = h

pub attach_read-IsClean :
    (host : Host) (b : AttachBackend) (addr size : ℤ) → IsClean (attach_read host b addr size)
unfolding attach_read host_addr
attach_read-IsClean host b addr size =
    read_at-IsClean host b size (route addr size) (route-IsClean addr size)

gdb_mem_read-Ends : (addr size : ℤ) → Ends (gdb_mem_read addr size)
unfolding gdb_mem_read
gdb_mem_read-Ends addr size =
    Ends-bind (lift (route addr size)) (λ _. read_mem addr size)
      (Ends-lift (route addr size) (route-IsClean addr size)) λ _. read_mem-Ends addr size

read_backend-Ends :
    (host : Host) (b : Option AttachBackend) (addr size : ℤ) → Ends (read_backend host b addr size)
read_backend-Ends host none addr size =
    Ends-on_stub (gdb_mem_read addr size) (gdb_mem_read-Ends addr size)
read_backend-Ends host (some b) addr size =
    Ends-if b.handle (lift (attach_read host b addr size)) (on_stub (gdb_mem_read addr size))
      (Ends-lift (attach_read host b addr size) (attach_read-IsClean host b addr size))
      (Ends-on_stub (gdb_mem_read addr size) (gdb_mem_read-Ends addr size))

pub mem_read-Ends : (host : Host) (addr size : ℤ) → Ends (mem_read host addr size)
unfolding mem_read
mem_read-Ends host addr size s = read_backend-Ends host s.attach_backend addr size s
