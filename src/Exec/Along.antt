-- ===== src/Exec/Along.antt =====
-- What every run of a computation does to the state, returned or raised: a preorder on states that
-- the steps of the computation follow.
use dolphin_re_mcp.Prelude.{◌≡◌, refl, Bool, true, false, if◌then◌else◌}
use dolphin_re_mcp.Errors.{Error, Result, ok, err}
use dolphin_re_mcp.Exec.{Exec, pure, ◌>>=◌, continue, catch, catching, finally, after_cleanup}

abbrev pub Along : {S A : Type 0} → (S → S → Type 0) → Exec S A → Type 0
Along {S = S} R m = (s : S) → R s (m s).1

module _ {S : Type 0} (R : S → S → Type 0) (stay : (s : S) → R s s)
    (next : (s t u : S) → R s t → R t u → R s u) where
  Along-continue :
      {A B : Type 0} (f : A → Exec S B) (s : S) (r : Result A × S)
      → R s r.1
      → ((a : A) → Along R (f a))
      → R s (continue r.0 f r.1).1
  Along-continue f s (ok a, t) h k = next s t _ h (k a t)
  Along-continue f s (err e, t) h k = h

  pub Along-bind :
      {A B : Type 0} (m : Exec S A) (f : A → Exec S B)
      → Along R m
      → ((a : A) → Along R (f a))
      → Along R (m >>= f)
  Along-bind m f h k s = Along-continue f s (m s) (h s) k

  pub Along-if :
      {A : Type 0} (b : Bool) (s : S) (p q : Result A × S)
      → R s p.1
      → R s q.1
      → R s (if b then p else q).1
  Along-if true s p q h k = h
  Along-if false s p q h k = k

  Along-catching :
      {A : Type 0} (test : Error → Bool) (handler : Exec S A) (s : S) (r : Result A × S)
      → R s r.1
      → Along R handler
      → R s (catching test r handler).1
  Along-catching test handler s (ok a, t) h k = h
  Along-catching test handler s (err e, t) h k =
      Along-if (test e) s (handler t) (err e, t) (next s t _ h (k t)) h

  pub Along-catch :
      {A : Type 0} (m : Exec S A) (test : Error → Bool) (handler : Exec S A)
      → Along R m
      → Along R handler
      → Along R (catch m test handler)
  Along-catch m test handler h k s = Along-catching test handler s (m s) (h s) k

  Along-cleanup :
      {A B : Type 0} (r : Result A) (s : S) (p : Result B × S) → R s p.1 → R s (after_cleanup r p).1
  Along-cleanup r s (ok b, t) h = h
  Along-cleanup r s (err e, t) h = h

  pub Along-finally :
      {A B : Type 0} (m : Exec S A) (cleanup : Exec S B)
      → Along R m
      → Along R cleanup
      → Along R (finally m cleanup)
  Along-finally m cleanup h k s =
      Along-cleanup (m s).0 s (cleanup (m s).1) (next s (m s).1 _ (h s) (k (m s).1))

-- A claim `O` about a run whose first part leaves the state in `P`.
module _ {S A B : Type 0} (P : S → Type 0) (O : Result B × S → Type 0)
    (raised : (e : Error) (t : S) → P t → O (err e, t)) where
  outcome-continue :
      (f : A → Exec S B) (r : Result A × S)
      → P r.1
      → ((a : A) (t : S) → P t → O (f a t))
      → O (continue r.0 f r.1)
  outcome-continue f (ok a, t) h k = k a t h
  outcome-continue f (err e, t) h k = raised e t h

  pub outcome-bind :
      (m : Exec S A) (f : A → Exec S B) (s : S)
      → P (m s).1
      → ((a : A) (t : S) → P t → O (f a t))
      → O ((m >>= f) s)
  outcome-bind m f s h k = outcome-continue f (m s) h k

-- What escapes a handler of some errors is another error.
module _ {S A : Type 0} (test : Error → Bool) (P : S → Type 0) (O : Result A × S → Type 0)
    (returned : (a : A) (t : S) → P t → O (ok a, t))
    (escaped : (e : Error) (t : S) → test e ≡ false → P t → O (err e, t)) where
  escaped-if :
      (b : Bool) (e : Error) (a : A) (t : S)
      → test e ≡ b
      → P t
      → O (if b then (ok a, t) else (err e, t))
  escaped-if true e a t h p = returned a t p
  escaped-if false e a t h p = escaped e t h p

  outcome-catching : (a : A) (r : Result A × S) → P r.1 → O (catching test r (λ t. (ok a, t)))
  outcome-catching a (ok b, t) p = returned b t p
  outcome-catching a (err e, t) p = escaped-if (test e) e a t refl p

  pub outcome-catch : (m : Exec S A) (a : A) (s : S) → P (m s).1 → O (catch m test (pure a) s)
  outcome-catch m a s p = outcome-catching a (m s) p

-- A claim about a run that goes on with a value of its own.
module _ {S A B : Type 0} (O : Result A × S → Type 0) (O' : Result B × S → Type 0) (b : B)
    (returned : (a : A) (t : S) → O (ok a, t) → O' (ok b, t))
    (raised : (e : Error) (t : S) → O (err e, t) → O' (err e, t)) where
  outcome-map_at : (r : Result A × S) → O r → O' (continue r.0 (λ _. pure b) r.1)
  outcome-map_at (ok a, t) h = returned a t h
  outcome-map_at (err e, t) h = raised e t h

  pub outcome-map : (m : Exec S A) (s : S) → O (m s) → O' ((m >>= λ _. pure b) s)
  outcome-map m s h = outcome-map_at (m s) h

-- What holds of the state if the run returns.
abbrev pub OnReturn : {S A : Type 0} → (S → Type 0) → Result A × S → Type 0
OnReturn P (ok a, t) = P t
OnReturn P (err e, t) = Unit

OnReturn-raised :
    {S B : Type 0} (A : Type 0) (Q : S → Type 0) (e : Error) (p : Result B × S)
    → OnReturn {A = A} Q (after_cleanup (err e) p)
OnReturn-raised A Q e (ok b, u) = tt
OnReturn-raised A Q e (err e', u) = tt

module _ {S A : Type 0} where
  pub OnReturn-trivial : (r : Result A × S) → OnReturn (λ t. Unit) r
  OnReturn-trivial (ok a, t) = tt
  OnReturn-trivial (err e, t) = tt

module _ {S A : Type 0} (P : S → Type 0) where
  pub OnReturn-always : (r : Result A × S) → P r.1 → OnReturn P r
  OnReturn-always (ok a, t) h = h
  OnReturn-always (err e, t) h = tt

module _ {S A B : Type 0} (P Q : S → Type 0) where
  OnReturn-continue :
      (f : A → Exec S B) (r : Result A × S)
      → OnReturn P r
      → ((a : A) (t : S) → P t → OnReturn Q (f a t))
      → OnReturn Q (continue r.0 f r.1)
  OnReturn-continue f (ok a, t) h k = k a t h
  OnReturn-continue f (err e, t) h k = tt

  pub OnReturn-bind :
      (m : Exec S A) (f : A → Exec S B) (s : S)
      → OnReturn P (m s)
      → ((a : A) (t : S) → P t → OnReturn Q (f a t))
      → OnReturn Q ((m >>= f) s)
  OnReturn-bind m f s h k = OnReturn-continue f (m s) h k

  OnReturn-returned :
      (a : A) (p : Result B × S) → OnReturn Q p → OnReturn Q (after_cleanup (ok a) p)
  OnReturn-returned a (ok b, u) h = h
  OnReturn-returned a (err e, u) h = tt

  OnReturn-cleanup :
      (cleanup : Exec S B) (r : Result A × S)
      → OnReturn P r
      → ((t : S) → P t → OnReturn Q (cleanup t))
      → OnReturn Q (after_cleanup r.0 (cleanup r.1))
  OnReturn-cleanup cleanup (ok a, t) h k = OnReturn-returned a (cleanup t) (k t h)
  OnReturn-cleanup cleanup (err e, t) h k = OnReturn-raised A Q e (cleanup t)

  pub OnReturn-finally :
      (m : Exec S A) (cleanup : Exec S B) (s : S)
      → OnReturn P (m s)
      → ((t : S) → P t → OnReturn Q (cleanup t))
      → OnReturn Q (finally m cleanup s)
  OnReturn-finally m cleanup s h k = OnReturn-cleanup cleanup (m s) h k

-- What holds of the value if the run returns.
abbrev pub OnValue : {S A : Type 0} → (A → Type 0) → Result A × S → Type 0
OnValue P (ok a, t) = P a
OnValue P (err e, t) = Unit

module _ {S A B : Type 0} (P : A → Type 0) (Q : B → Type 0) where
  OnValue-continue :
      (f : A → Exec S B) (r : Result A × S)
      → OnValue P r
      → ((a : A) (t : S) → P a → OnValue Q (f a t))
      → OnValue Q (continue r.0 f r.1)
  OnValue-continue f (ok a, t) h k = k a t h
  OnValue-continue f (err e, t) h k = tt

  pub OnValue-bind :
      (m : Exec S A) (f : A → Exec S B) (s : S)
      → OnValue P (m s)
      → ((a : A) (t : S) → P a → OnValue Q (f a t))
      → OnValue Q ((m >>= f) s)
  OnValue-bind m f s h k = OnValue-continue f (m s) h k

module _ {S A : Type 0} where
  pub OnValue-trivial : (r : Result A × S) → OnValue (λ a. Unit) r
  OnValue-trivial (ok a, t) = tt
  OnValue-trivial (err e, t) = tt

-- What holds of the value and of the state behind it if the run returns.
abbrev pub OnRun : {S A : Type 0} → (A → S → Type 0) → Result A × S → Type 0
OnRun P (ok a, t) = P a t
OnRun P (err e, t) = Unit

module _ {S A B : Type 0} (P : A → S → Type 0) (Q : B → S → Type 0) where
  OnRun-continue :
      (f : A → Exec S B) (r : Result A × S)
      → OnRun P r
      → ((a : A) (t : S) → P a t → OnRun Q (f a t))
      → OnRun Q (continue r.0 f r.1)
  OnRun-continue f (ok a, t) h k = k a t h
  OnRun-continue f (err e, t) h k = tt

  pub OnRun-bind :
      (m : Exec S A) (f : A → Exec S B) (s : S)
      → OnRun P (m s)
      → ((a : A) (t : S) → P a t → OnRun Q (f a t))
      → OnRun Q ((m >>= f) s)
  OnRun-bind m f s h k = OnRun-continue f (m s) h k

module _ {S A : Type 0} (P Q : A → S → Type 0) where
  pub OnRun-map : (r : Result A × S) → OnRun P r → ((a : A) (t : S) → P a t → Q a t) → OnRun Q r
  OnRun-map (ok a, t) h k = k a t h
  OnRun-map (err e, t) h k = tt

module _ {S A : Type 0} where
  pub OnRun-trivial : (r : Result A × S) → OnRun (λ a t. Unit) r
  OnRun-trivial (ok a, t) = tt
  OnRun-trivial (err e, t) = tt

-- A handler that leaves what the claim is about.
module _ {S A : Type 0} (P : S → Type 0) (test : Error → Bool) (handler : Exec S A) where
  OnReturn-handled :
      (b : Bool) (e : Error) (t : S)
      → OnReturn P (handler t)
      → OnReturn P (if b then handler t else (err e, t))
  OnReturn-handled true e t h = h
  OnReturn-handled false e t h = tt

  OnReturn-catching :
      (r : Result A × S)
      → OnReturn P r
      → ((e : Error) → r.0 ≡ err e → OnReturn P (handler r.1))
      → OnReturn P (catching test r handler)
  OnReturn-catching (ok a, t) h k = h
  OnReturn-catching (err e, t) h k = OnReturn-handled (test e) e t (k e refl)

  pub OnReturn-catch :
      (m : Exec S A) (s : S)
      → OnReturn P (m s)
      → ((e : Error) → (m s).0 ≡ err e → OnReturn P (handler (m s).1))
      → OnReturn P (catch m test handler s)
  OnReturn-catch m s h k = OnReturn-catching (m s) h k
