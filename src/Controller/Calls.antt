-- ===== src/Controller/Calls.antt =====
-- The calls on a controller, as an API server or a program makes them, and what is reached by them.
use p2pmq.Base.{ℕ, String, List, Option, ◌≡◌}
use p2pmq.Commons.Pubsub.{PubsubConfig}
use p2pmq.Controller.Libp2p.{Libp2p}
use p2pmq.Controller.Pubsub.{
  Controller, Outcome, returns, publish, subscribe, relay, leave, unsubscribe, unrelay,
}

pub data Call : Type 0 where
  publishing : String → List ℕ → Call
  subscribing relaying leaving unsubscribing unrelaying : String → Call

-- The topic of a call.
abbrev pub topic_of : Call → String
topic_of (publishing name bytes) = name
topic_of (subscribing name) = name
topic_of (relaying name) = name
topic_of (leaving name) = name
topic_of (unsubscribing name) = name
topic_of (unrelaying name) = name

module _ (p : Libp2p) (cfg : PubsubConfig) where
  unfoldable pub call : Call → Controller p → Controller p × Outcome
  call (publishing name bytes) c = publish p cfg name bytes c
  call (subscribing name) c = subscribe p cfg name c
  call (relaying name) c = relay p cfg name c
  call (leaving name) c = leave p name c
  call (unsubscribing name) c = unsubscribe p name c
  call (unrelaying name) c = unrelay p name c

  -- What calls reach that return, with or without an error.
  pub data Reach (c : Controller p) : Controller p → Type 0 where
    here : Reach c c
    next :
        {d e : Controller p}
        → Reach c d
        → (k : Call) (o : Option String) → call k d ≡ (e, returns o)
        → Reach c e
