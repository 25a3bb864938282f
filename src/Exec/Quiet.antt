-- ===== src/Exec/Quiet.antt =====
-- Steps that leave the tables and the queue as they are, so that nothing but what is outside may
-- change.
use api_calixio.Prelude.{◌≡◌, ap, ◌∙◌}
use api_calixio.Exec.{Exec, World, Result, ok, err, settle}

module _ {X : Type 0} where
  -- a world that differs from another one outside at most
  abbrev pub IsApart : World X → World X → Type 0
  IsApart w v = v ≡ record w { outside = v.outside }

  abbrev pub IsQuiet : {A : Type 0} → Exec X A → Type 0
  IsQuiet m = (w : World X) → IsApart w (m w).1

  pub IsApart-trans : (u v w : World X) → IsApart u v → IsApart v w → IsApart u w
  IsApart-trans u v w h k = k ∙ ap (λ (t : World X). record t { outside = w.outside }) h

  -- A block is quiet if its first step leaves a world apart from the first one, and the rest is quiet.
  pub settle-IsApart :
      {A B : Type 0} (r : Result A) (f : A → Exec X B) (w u : World X)
      → IsApart w u
      → ((a : A) → IsQuiet (f a))
      → IsApart w (settle r f u).1
  settle-IsApart (ok a) f w u h q = IsApart-trans w u (f a u).1 h (q a u)
  settle-IsApart (err e) f w u h q = h
