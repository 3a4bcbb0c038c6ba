-- ===== src/Srv/Frame.antt =====
-- What a function of the monad may change: a relation of the state before it and the state behind
-- it, for every run that returns.
use chan.Prelude.{◌≡◌, refl, arith, Bool, true, false, Option, none, some, if◌then◌else◌}
use mathlib.Core.Path.{subst}
use chan.Srv.State.{
  FidPtr, Conn, Outcome, done, panic, stuck, Act, pure, ◌>>=◌, follow, gets, modify, deref, get_fid,
}

-- A relation of states that holds of no change, and of two changes in turn.
pub record Change : Type 1 where
  pub rel : Conn → Conn → Type 0
  pub unchanged : (s : Conn) → rel s s
  pub chained : (s t u : Conn) → rel s t → rel t u → rel s u

abbrev pub Keeps : Change → {A : Type 0} → Act A → Type 0
Keeps R {A} m = (s : Conn) (a : A) (s' : Conn) → m s ≡ done (a, s') → R.rel s s'

pub follow-done :
    {A B : Type 0} (o : Outcome (A × Conn)) (k : A → Act B) (z : B × Conn)
    → follow o k ≡ done z
    → (a : A) × (s : Conn) × (o ≡ done (a, s)) × (k a s ≡ done z)
follow-done (done (a, s)) k z h = (a, s, refl, h)
follow-done panic k z h = absurd (ground arith)
follow-done stuck k z h = absurd (ground arith)

module _ (R : Change) where
  ended : {A : Type 0} (z z' : A × Conn) → done z ≡ done z' → R.rel z.1 z'.1
  ended z z' h = let same : z ≡ z' = cc in subst (λ t. R.rel z.1 t.1) same (R.unchanged z.1)

  pub bind-Keeps :
      {A B : Type 0} (m : Act A) (k : A → Act B)
      → Keeps R m
      → ((a : A) → Keeps R (k a))
      → Keeps R (m >>= k)
  bind-Keeps m k first later s b u h =
      let (a, t, h1, h2) = follow-done (m s) k (b, u) h in
      R.chained s t u (first s a t h1) (later a t b u h2)

  pub if-Keeps :
      {A : Type 0} (b : Bool) (m k : Act A) → Keeps R m → Keeps R k → Keeps R (if b then m else k)
  if-Keeps true m k x y = x
  if-Keeps false m k x y = y

  pub pure-Keeps : {A : Type 0} (a : A) → Keeps R (pure a)
  pure-Keeps v s a s' h = ended (v, s) (a, s') h

  pub deref-Keeps : {A : Type 0} (o : Option A) → Keeps R (deref o)
  deref-Keeps none s a s' h = absurd (ground arith)
  deref-Keeps (some v) s a s' h = pure-Keeps v s a s' h

  pub gets-Keeps : {A : Type 0} (f : Conn → A) → Keeps R (gets f)
  gets-Keeps f s a s' h = ended (f s, s) (a, s') h

  pub get_fid-Keeps : (p : FidPtr) → Keeps R (get_fid p)
  get_fid-Keeps p s a s' h = deref-Keeps (s.fids p) s a s' h

  pub modify-Keeps : (f : Conn → Conn) → ((s : Conn) → R.rel s (f s)) → Keeps R (modify f)
  modify-Keeps f change s a s' h =
      let same : done (a, f s) ≡ done (a, s') = h in
      R.chained s (f s) s' (change s) (ended (a, f s) (a, s') same)
