-- ===== src/Session/Proper.antt =====
-- Code that ends: whatever it raises is an exception of the program, so no loop ran out of fuel.
use dolphin_re_mcp.Prelude.{◌≡◌, Bool, true, false, if◌then◌else◌}
use dolphin_re_mcp.Errors.{Error, Result, ok, err}
use dolphin_re_mcp.Exec.{
  Exec, Returns, continue, lift, catching, catch, after_cleanup, finally, ◌>>=◌,
}
use dolphin_re_mcp.Gdb.Stub.{Stub}
use dolphin_re_mcp.Session.{Session, is_exception, on_stub}

abbrev pub Proper {ℓ} : {S A : Type ℓ} → Result A × S → Type 0
Proper (ok a, t) = Unit
Proper (err e, t) = is_exception e ≡ true

-- From every state.
abbrev pub Ends : {S A : Type 0} → Exec S A → Type 0
Ends {S} m = (s : S) → Proper (m s)

module _ {S A B : Type 0} (f : A → Exec S B) where
  Proper-continue :
      (r : Result A × S)
      → Proper r
      → ((a : A) (t : S) → Proper (f a t))
      → Proper (continue r.0 f r.1)
  Proper-continue (ok a, t) h k = k a t
  Proper-continue (err e, t) h k = h

  pub Proper-bind :
      (m : Exec S A) (s : S)
      → Proper (m s)
      → ((a : A) (t : S) → Proper (f a t))
      → Proper ((m >>= f) s)
  Proper-bind m s h k = Proper-continue (m s) h k

pub Ends-bind :
    {S A B : Type 0} (m : Exec S A) (f : A → Exec S B)
    → Ends m
    → ((a : A) → Ends (f a))
    → Ends (m >>= f)
Ends-bind m f h k s = Proper-bind f m s (h s) k

module _ {S A : Type 0} where
  pub Ends-if : (b : Bool) (m n : Exec S A) → Ends m → Ends n → Ends (if b then m else n)
  Ends-if true m n h k = h
  Ends-if false m n h k = k

  Proper-handled :
      (b : Bool) (e : Error) (t : S) (handler : Exec S A)
      → is_exception e ≡ true
      → Proper (handler t)
      → Proper (if b then handler t else (err e, t))
  Proper-handled true e t handler h k = k
  Proper-handled false e t handler h k = h

  Proper-catching :
      (test : Error → Bool) (r : Result A × S) (handler : Exec S A)
      → Proper r
      → Ends handler
      → Proper (catching test r handler)
  Proper-catching test (ok a, t) handler h k = tt
  Proper-catching test (err e, t) handler h k = Proper-handled (test e) e t handler h (k t)

  pub Ends-catch :
      (m : Exec S A) (test : Error → Bool) (handler : Exec S A)
      → Ends m
      → Ends handler
      → Ends (catch m test handler)
  Ends-catch m test handler h k s = Proper-catching test (m s) handler (h s) k

  Proper-cleanup :
      {B : Type 0} (r : Result A) (t : S) (p : Result B × S)
      → Proper (r, t)
      → Proper p
      → Proper (after_cleanup r p)
  Proper-cleanup (ok a) t (ok b, u) h k = tt
  Proper-cleanup (err e) t (ok b, u) h k = h
  Proper-cleanup r t (err e, u) h k = k

  pub Ends-finally :
      {B : Type 0} (m : Exec S A) (cleanup : Exec S B)
      → Ends m
      → Ends cleanup
      → Ends (finally m cleanup)
  Ends-finally m cleanup h k s = Proper-cleanup (m s).0 (m s).1 (cleanup (m s).1) (h s) (k (m s).1)

  pub Returns-Proper : (m : Exec S A) (s : S) → Returns (m s) → Proper (m s)
  Returns-Proper m s (a, t, run) = rw run tt

  pub Proper-errors :
      (r : Result A × S) (e : Error) → Proper r → r.0 ≡ err e → is_exception e ≡ true
  Proper-errors (ok a, t) e h run = cc
  Proper-errors (err x, t) e h run = let same : x ≡ e = cc in rw (← same) h

-- A result that is no error of the model.
abbrev pub IsClean : {A : Type 0} → Result A → Type 0
IsClean (ok a) = Unit
IsClean (err e) = is_exception e ≡ true

pub IsClean-if :
    {A : Type 0} (b : Bool) (r q : Result A) → IsClean r → IsClean q → IsClean (if b then r else q)
IsClean-if true r q h k = h
IsClean-if false r q h k = k

pub Proper-if :
    {S A : Type 0} (b : Bool) (r q : Result A × S)
    → Proper r
    → Proper q
    → Proper (if b then r else q)
Proper-if true r q h k = h
Proper-if false r q h k = k

pub Ends-lift : {S A : Type 0} (r : Result A) → IsClean r → Ends {S = S} (lift r)
Ends-lift (ok a) h s = tt
Ends-lift (err e) h s = h

Proper-on_stub :
    {A : Type 0} (s : Session) (r : Result A × Stub)
    → Proper r
    → Proper (r.0, record s { stub = r.1 })
Proper-on_stub s (ok a, t) h = tt
Proper-on_stub s (err e, t) h = h

pub Ends-on_stub : {A : Type 0} (m : Exec Stub A) → Ends m → Ends (on_stub m)
Ends-on_stub m h s = Proper-on_stub s (m s.stub) (h s.stub)
