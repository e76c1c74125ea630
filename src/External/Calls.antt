-- ===== src/External/Calls.antt =====
-- A service talks to brokers, databases and the clock. The world outside answers each call by a
-- return or an exception, and the log keeps the calls made, the latest first, each with whether it
-- returned. What the world is, and how it answers, is a parameter.
use aidata_pipeline.Prelude.{Bool, true, false, List, ◌∷◌}
use aidata_pipeline.Prelude.Action.{Action, Result, ok, err}

pub record Outside (Call : Type 0) : Type 1 where
  pub World : Type 0
  pub Exn : Type 0
  pub answer : Call → Action World Exn Unit

pub record Entry (Call : Type 0) : Type 0 where
  pub made : Call
  pub returned : Bool

pub record Trace {Call : Type 0} (o : Outside Call) : Type 0 where
  pub world : o.World
  pub log : List (Entry Call)

abbrev pub returned {ℓ} : {E A : Type ℓ} → Result E A → Bool
returned (ok _) = true
returned (err _) = false

module _ {Call : Type 0} (o : Outside Call) where
  -- A call that may raise.
  abbrev pub call : Call → Action (Trace o) o.Exn Unit
  call c s =
      let (r, w) = o.answer c s.world in
      (r, record { world = w; log = record { made = c; returned = returned r } ∷ s.log })

  -- `try: call  except Exception: log it`
  abbrev pub attempt : Call → Action (Trace o) o.Exn Unit
  attempt c s = let (r, s') = call c s in (ok tt, s')

  -- A call that cannot fail and asks nothing of the world, such as a counter's.
  abbrev pub note : Call → Action (Trace o) o.Exn Unit
  note c s = (ok tt, record s { log = record { made = c; returned = true } ∷ s.log })
