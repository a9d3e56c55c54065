-- ===== src/Exec.antt =====
-- Code that changes a state and may raise: what was written before a raise stays written.
pub mod Along
use dolphin_re_mcp.Prelude.{◌≡◌, refl, Bool, true, if◌then◌else◌}
use dolphin_re_mcp.Errors.{Error, Result, ok, err}

abbrev pub Exec {ℓ} : Type ℓ → Type ℓ → Type ℓ
Exec S A = S → Result A × S

module _ {ℓ} {S A : Type ℓ} where
  abbrev pub pure : A → Exec S A
  pure a s = (ok a, s)

  abbrev pub raise : Error → Exec S A
  raise e s = (err e, s)

  abbrev pub lift : Result A → Exec S A
  lift r s = (r, s)

  abbrev pub gets : (S → A) → Exec S A
  gets f s = (ok (f s), s)

  -- `try: m except e if test e: handler`
  abbrev pub catching : (Error → Bool) → Result A × S → Exec S A → Result A × S
  catching test (ok a, s) handler = (ok a, s)
  catching test (err e, s) handler = if test e then handler s else (err e, s)

  abbrev pub catch : Exec S A → (Error → Bool) → Exec S A → Exec S A
  catch m test handler s = catching test (m s) handler

-- Python's statements return nothing.
abbrev pub modify {ℓ} : {S : Type ℓ} → (S → S) → S → Result (Unit {ℓ}) × S
modify f s = (ok tt, f s)

module _ {ℓ} {S A B : Type ℓ} where
  abbrev pub continue : Result A → (A → Exec S B) → Exec S B
  continue (ok a) f s = f a s
  continue (err e) f s = (err e, s)

  infixl 10 ◌>>=◌ ◌>>◌
  abbrev pub ◌>>=◌ : Exec S A → (A → Exec S B) → Exec S B
  ◌>>=◌ m f s = let r = m s in continue r.0 f r.1

  abbrev pub ◌>>◌ : Exec S A → Exec S B → Exec S B
  m >> n = m >>= λ _. n

module _ {ℓ} {S A B : Type ℓ} where
  -- The step from one statement to the next.
  pub bind-ok :
      (m : Exec S A) (f : A → Exec S B) (s : S) {a : A} {t : S}
      → m s ≡ (ok a, t)
      → (m >>= f) s ≡ f a t
  bind-ok m f s h = rw h

  pub bind-err :
      (m : Exec S A) (f : A → Exec S B) (s : S) {e : Error} {t : S}
      → m s ≡ (err e, t)
      → (m >>= f) s ≡ (err e, t)
  bind-err m f s h = rw h

-- `try: m finally: cleanup`. An exception of the cleanup replaces that of `m`.
module _ {ℓ} {S A B : Type ℓ} where
  abbrev pub after_cleanup : Result A → Result B × S → Result A × S
  after_cleanup r (ok _, s) = (r, s)
  after_cleanup r (err e, s) = (err e, s)

  abbrev pub finally : Exec S A → Exec S B → Exec S A
  finally m cleanup s = let r = m s in after_cleanup r.0 (cleanup r.1)

-- A run that does not raise.
abbrev pub Returns {ℓ} : {S A : Type ℓ} → Result A × S → Type ℓ
Returns {S = S} {A = A} r = (a : A) × (s : S) × (r ≡ (ok a, s))

module _ {ℓ} {S A : Type ℓ} (m : Exec S A) (test : Error → Bool) (a : A) (s : S) where
  catch-Returns_at :
      (r : Result A × S)
      → m s ≡ r
      → ((e : Error) → r.0 ≡ err e → test e ≡ true)
      → Returns (catch m test (pure a) s)
  catch-Returns_at (ok b, t) e h = (b, t, rw e)
  catch-Returns_at (err x, t) e h = (a, t, rw e (rw (h x refl)))

  -- A handler that catches all that may be raised.
  pub catch-Returns :
      ((e : Error) → (m s).0 ≡ err e → test e ≡ true) → Returns (catch m test (pure a) s)
  catch-Returns = catch-Returns_at (m s) refl

module _ {ℓ} {S A : Type ℓ} (m : Exec S A) (f : S → S) (s : S) where
  pub finally-Returns : Returns (m s) → Returns (finally m (modify f) s)
  finally-Returns (a, t, e) = (a, f t, rw e)
