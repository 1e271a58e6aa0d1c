-- ===== src/Server/Keeps.antt =====
-- The operations of internal/server/server.go keep a property of the state if their steps do,
-- however the calls of the store and of the messaging backend turn out.
use robotdreams.Base.{◌≡◌, refl, Bool, true, false, Option, Result, ok, err, if◌then◌else◌, arith}
use robotdreams.Orgchart.Graph.{Graph}
use robotdreams.Orgchart.Graph
use robotdreams.Server.State.{
  Server, ServerError, M, ◌>>=◌, pure, raise, gets, read, read_climbing, continue,
}

abbrev pub Keeps : {A : Type 0} → (Server → Type 0) → M A → Type 0
Keeps P m = (s : Server) → P s → P (m s).1

module _ (P : Server → Type 0) where
  continue-Keeps :
      {A B : Type 0} (r : Result ServerError A × Server) (f : A → M B)
      → P r.1
      → ((a : A) → Keeps P (f a))
      → P (continue r f).1
  continue-Keeps (ok a, s) f p h = h a s p
  continue-Keeps (err e, s) f p h = p

  pub Keeps-then :
      {A B : Type 0} (m : M A) (f : A → M B)
      → Keeps P m
      → ((a : A) → Keeps P (f a))
      → Keeps P (m >>= f)
  unfolding ◌>>=◌
  Keeps-then m f h k s p = continue-Keeps (m s) f (h s p) k

  pub Keeps-pure : {A : Type 0} (a : A) → Keeps P (pure a)
  unfolding pure
  Keeps-pure a s p = p

  pub Keeps-raise : (A : Type 0) (e : ServerError) → Keeps P (raise {A = A} e)
  unfolding raise
  Keeps-raise A e s p = p

  pub Keeps-gets : {A : Type 0} (f : Server → A) → Keeps P (gets f)
  unfolding gets
  Keeps-gets f s p = p

  pub Keeps-read : {A : Type 0} (f : Graph → Result Graph.Error A) → Keeps P (read f)
  unfolding read
  Keeps-read f s p = ground arith

  pub Keeps-read_climbing :
      {A : Type 0} (f : Graph → Option (Result Graph.Error A)) → Keeps P (read_climbing f)
  unfolding read_climbing
  Keeps-read_climbing f s p = ground arith

  pub Keeps-if :
      {A : Type 0} (b : Bool) (m n : M A) → Keeps P m → Keeps P n → Keeps P (if b then m else n)
  Keeps-if true m n h k = h
  Keeps-if false m n h k = k

-- A sequence that succeeded did so step by step.
continue-ok :
    {A B : Type 0} (r : Result ServerError A × Server) (f : A → M B) (b : B) (s' : Server)
    → continue r f ≡ (ok b, s')
    → (a : A) × (s1 : Server) × (r ≡ (ok a, s1)) × (f a s1 ≡ (ok b, s'))
continue-ok (ok a, s) f b s' h = (a, s, refl, h)
continue-ok (err e, s) f b s' h = cc

pub steps_of_ok :
    {A B : Type 0} (m : M A) (f : A → M B) (b : B) (s s' : Server)
    → (m >>= f) s ≡ (ok b, s')
    → (a : A) × (s1 : Server) × (m s ≡ (ok a, s1)) × (f a s1 ≡ (ok b, s'))
unfolding ◌>>=◌
steps_of_ok m f b s s' h = continue-ok (m s) f b s' h
