-- ===== src/Tools/Execution/Stack.antt =====
-- The frames of a stack walk.
use dolphin_re_mcp.Prelude.{
  ℕ, zero, suc, ◌≤◌, ◌<◌, ◌≡◌, ◌⊎◌, take, refl, inl, Bool, true, false, Option, none, some, List,
  [], ◌∷◌, arith, leb, ◌==◌, length,
}
use dolphin_re_mcp.Prelude.Text.{Bytes, codes, eq_text, big_endian}
use dolphin_re_mcp.Exec.{Exec, pure, ◌>>=◌}
use dolphin_re_mcp.Exec.Along.{OnValue, OnValue-bind, OnValue-trivial}
use dolphin_re_mcp.Memory.Attach.{Host}
use dolphin_re_mcp.Prelude.Dict.{lookup}
use dolphin_re_mcp.Session.{Session, Environment, ensure_connected}
use dolphin_re_mcp.Tools.Execution.{
  Frame, try_read, frame_of, in_front, walk_on, frames_at, stack_from, or_zero, get_gprs, get_stack,
}

-- The stack pointers grow from frame to frame, and none is zero.
abbrev pub Climbs : ℕ → List Frame → Type 0
Climbs low [] = Unit
Climbs low (f ∷ fs) = (low < f.frame_sp) × Climbs f.frame_sp fs

abbrev pub Walked : ℕ → ℕ → List Frame → Type 0
Walked depth low frames = (length frames ≤ depth) × Climbs low frames

walk_on-Walked :
    (depth low : ℕ) (b : Bool) (rest : Exec Session (List Frame)) (s : Session)
    → (b ≡ false → OnValue (Walked depth low) (rest s))
    → OnValue (Walked depth low) (walk_on b rest s)
walk_on-Walked depth low true rest s h = (omega arith, tt)
walk_on-Walked depth low false rest s h = h refl

in_front-Walked :
    (depth low : ℕ) (f : Frame) (m : Exec Session (List Frame)) (s : Session)
    → low < f.frame_sp
    → OnValue (Walked depth f.frame_sp) (m s)
    → OnValue (Walked (suc depth) low) (in_front f m s)
in_front-Walked depth low f m s above h =
    OnValue-bind (Walked depth f.frame_sp) (Walked (suc depth) low) m (λ frames. pure (f ∷ frames))
      s h λ frames t (short, climbs). (omega (arith, short), (above, climbs))

frames_at-Walked :
    (depth low sp : ℕ) (next : ℕ → Exec Session (List Frame)) (o : Option Bytes) (s : Session)
    → low < sp
    → ((prev : ℕ) (t : Session) → sp < prev → OnValue (Walked depth sp) (next prev t))
    → OnValue (Walked (suc depth) low) (frames_at sp next o s)
frames_at-Walked depth low sp next none s above h = (omega arith, tt)
frames_at-Walked depth low sp next (some blob) s above h =
    let prev = big_endian (take 4 blob) in
    in_front-Walked depth low (frame_of sp blob) (walk_on (leb prev sp) (next prev)) s above
      (walk_on-Walked depth sp (leb prev sp) (next prev) s λ on. h prev s (ground (arith, on)))

stack_from-Walked :
    (host : Host) (depth low sp : ℕ) (s : Session)
    → (low < sp) ⊎ (sp ≡ 0)
    → OnValue (Walked depth low) (stack_from host depth sp s)
unfolding stack_from
stack_from-Walked host zero low sp s start = (omega arith, tt)
stack_from-Walked host (suc depth) low sp s start =
    walk_on-Walked (suc depth) low (sp == 0)
      (try_read host sp >>= frames_at sp (stack_from host depth)) s
      λ on.
        OnValue-bind (λ o. Unit) (Walked (suc depth) low) (try_read host sp)
          (frames_at sp (stack_from host depth)) s (OnValue-trivial (try_read host sp s))
          λ o t _.
            frames_at-Walked depth low sp (stack_from host depth) o t (ground (arith, on, start))
              λ prev u above. stack_from-Walked host depth sp prev u (inl above)

-- A stack walk gives at most as many frames as were asked for, and their stack pointers are not
-- zero and grow, so that it does not run in circles on a corrupt stack.
pub get_stack-Climbs :
    (env : Environment) (depth : ℕ) (s : Session) → OnValue (Walked depth 0) (get_stack env depth s)
unfolding get_stack
get_stack-Climbs env depth s =
    OnValue-bind (λ o. Unit) (Walked depth 0) (ensure_connected env) _ s
      (OnValue-trivial (ensure_connected env s))
      λ _ t _.
        OnValue-bind (λ o. Unit) (Walked depth 0) (get_gprs env) _ t
          (OnValue-trivial (get_gprs env t))
          λ gprs u _.
            stack_from-Walked env.host depth 0 (or_zero (lookup eq_text (codes "r1") gprs)) u
              (ground arith)
