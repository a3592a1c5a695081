-- ===== src/Base/Act.antt =====
-- Calls in a world, chained as Go chains them: a failing call ends the function with its error, and
-- what was changed before stays changed.
use mera_drive.Base.Result.{Result, ok, err, Act}

module _ {W E : Type 0} where
  abbrev pub pure : {A : Type 0} → A → Act W E A
  pure a w = (ok a, w)

  abbrev pub raise : {A : Type 0} → E → Act W E A
  raise e w = (err e, w)

  abbrev pub lift : {A : Type 0} → Result E A → Act W E A
  lift r w = (r, w)

  -- A call with no result and no error.
  abbrev pub perform : (W → W) → Act W E (Unit {0})
  perform f w = (ok tt, f w)

  -- The result of a call as a value, for code that looks at its error.
  abbrev pub attempt : {F A : Type 0} → Act W F A → Act W E (Result F A)
  attempt m w = let (r, w') = m w in (ok r, w')

  abbrev pub continue : {A B : Type 0} → Result E A → (A → Act W E B) → Act W E B
  continue (ok a) f w = f a w
  continue (err e) f w = (err e, w)

  infixl 5 ◌>>=◌ ◌>>◌
  abbrev pub ◌>>=◌ : {A B : Type 0} → Act W E A → (A → Act W E B) → Act W E B
  ◌>>=◌ m f w = let (r, w') = m w in continue r f w'

  abbrev pub ◌>>◌ : {B : Type 0} → Act W E (Unit {0}) → Act W E B → Act W E B
  ◌>>◌ m n w = let (r, w') = m w in continue r (λ _. n) w'
