-- ===== src/Broker/Once.antt =====
-- Retries at the write broker of src/homeops_ai/write_broker.py.
use homeops_ai.Prelude.{String, List}
use homeops_ai.Value.{Value}
use homeops_ai.Broker.Note.{Note}
use homeops_ai.Broker.State.{Host, Env, World}
use homeops_ai.Broker.Handle.{handle}

module _ (host : Host) where
  -- The states that follow one of the broker, through any requests and whatever happens meanwhile.
  pub data Later (u : World) : World → Type 0 where
    now : Later u u
    after :
        {v : World} (allowed : List String) (env : Env) (request : Value)
        → Later u v
        → Later u (handle host allowed env request v).0
