-- ===== src/Executor/Session.antt =====
-- Code that writes to the tables and may raise: the tables come back with the exception, too.
use coin_pilot.Base.Result.{Result, ok, raise}
use coin_pilot.Store.{Db}

abbrev pub Exec : Type 0 → Type 0 → Type 0
Exec D A = Db D → Result A × Db D

module _ {D A : Type 0} where
  abbrev pub pure : A → Exec D A
  pure a db = (ok a, db)

  abbrev pub lift : Result A → Exec D A
  lift r db = (r, db)

  abbrev pub gets : (Db D → A) → Exec D A
  gets f db = (ok (f db), db)

module _ {D A B : Type 0} where
  abbrev continue : Result A → (A → Exec D B) → Exec D B
  continue (ok a) f db = f a db
  continue (raise e) f db = (raise e, db)

  infixl 5 ◌>>=◌ ◌>>◌
  abbrev pub ◌>>=◌ : Exec D A → (A → Exec D B) → Exec D B
  ◌>>=◌ m f db = let (r, db') = m db in continue r f db'

  abbrev pub ◌>>◌ : Exec D A → Exec D B → Exec D B
  m >> k = m >>= λ _. k
