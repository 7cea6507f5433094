-- ===== src/Session/Runs.antt =====
-- How a computation on a session that is composed of parts commits what the parts commit, for any
-- relation on the tables that is reflexive and transitive.
use mathlib.Core.Logic.{◌⊎◌, inl, inr}
use bridge_db.Prelude.{◌≡◌, refl, ap, Bool, true, false, ℕ, String, if◌then◌else◌}
use bridge_db.Errors.{ToolError}
use bridge_db.Exec.{Exec, Result, ok, err, ◌>>=◌, ◌>>◌, bind_result}
use bridge_db.Audit.{Trail}
use bridge_db.Session.{Session, gate, always_tx}

pub record Commits (T : Type 0) : Type 1 where
  pub to : T → T → Type 0
  pub here : (t : T) → to t t
  pub join : {s t u : T} → to s t → to t u → to s u

module _ {T : Type 0} (c : Commits T) {A : Type 0} where
  abbrev pub Runs : Exec (Session T) A → Type 0
  Runs m = (s : Session T) → c.to s.tables (m s).1.tables

  -- a gate or an audit line
  pub gated : (m : Exec Trail A) → Runs (gate m)
  gated m s = c.here s.tables

  pub choose :
      (b : Bool) (m k : Exec (Session T) A) (s : Session T)
      → (b ≡ true → c.to s.tables (m s).1.tables)
      → (b ≡ false → c.to s.tables (k s).1.tables)
      → c.to s.tables ((if b then m else k) s).1.tables
  choose true m k s p q = p refl
  choose false m k s p q = q refl

  pub checked :
      (b : Bool) (number : ℕ) (message : String) (k : Exec (Session T) A) (s : Session T)
      → (b ≡ true → c.to s.tables (k s).1.tables)
      → c.to s.tables ((always_tx s.tables b number message >> k) s).1.tables
  checked true number message k s p = p refl
  checked false number message k s p = c.here s.tables

module _ {T : Type 0} (c : Commits T) {A B : Type 0} where
  -- a check of the arguments, before the rest
  pub lifted :
      (r : Result A) (f : A → Exec (Session T) B) (s : Session T)
      → ((a : A) → r ≡ ok a → c.to s.tables (f a s).1.tables)
      → c.to s.tables (bind_result r f s).1.tables
  lifted (ok a) f s p = p a refl
  lifted (err e) f s p = c.here s.tables

  bound :
      (s : Session T) (r : Result A) (f : A → Exec (Session T) B) (s' : Session T)
      → c.to s.tables s'.tables
      → ((a : A) → r ≡ ok a → Runs c (f a))
      → c.to s.tables (bind_result r f s').1.tables
  bound s (ok a) f s' p q = c.join p (q a refl s')
  bound s (err e) f s' p q = p

  -- a sequence, where the rest may use what the first part gives
  pub sequence_with :
      (m : Exec (Session T) A) (f : A → Exec (Session T) B)
      → Runs c m
      → ((a : A) (s : Session T) → (m s).0 ≡ ok a → Runs c (f a))
      → Runs c (m >>= f)
  sequence_with m f p q s = bound s (m s).0 f (m s).1 (p s) (λ a. q a s)

  pub sequence :
      (m : Exec (Session T) A) (f : A → Exec (Session T) B)
      → Runs c m
      → ((a : A) → Runs c (f a))
      → Runs c (m >>= f)
  sequence m f p q = sequence_with m f p (λ a s e. q a)

pub Result-cases :
    {A : Type 0} (r : Result A) → ((a : A) × (r ≡ ok a)) ⊎ ((e : ToolError) × (r ≡ err e))
Result-cases (ok a) = inl (a, refl)
Result-cases (err e) = inr (e, refl)

bind_result-ok :
    {S A B : Type 0} (r : Result A) (f : A → Exec S B) (s : S) (b : B)
    → (bind_result r f s).0 ≡ ok b
    → (a : A) × (r ≡ ok a) × (bind_result r f s ≡ f a s)
bind_result-ok (ok a) f s b h = (a, refl, refl)
bind_result-ok (err e) f s b h = absurd (cc h)

-- A sequence that answers: its first part did.
pub bind-ok :
    {S A B : Type 0} (m : Exec S A) (f : A → Exec S B) (s : S) (b : B)
    → ((m >>= f) s).0 ≡ ok b
    → (a : A) × ((m s).0 ≡ ok a) × ((m >>= f) s ≡ f a (m s).1)
bind-ok m f s b h = bind_result-ok (m s).0 f (m s).1 b h

pub bind-first :
    {S A B : Type 0} (m : Exec S A) (f : A → Exec S B) (s : S) (a : A)
    → (m s).0 ≡ ok a
    → (m >>= f) s ≡ f a (m s).1
bind-first m f s a h = ap (λ (r : Result _). bind_result r f (m s).1) h
