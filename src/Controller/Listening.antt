-- ===== src/Controller/Listening.antt =====
-- core/pubsub.go: listenSubscription, which hands the messages of a subscription to the message
-- router, and validateMsg, which asks the validation router. What the subscription yields, and when
-- the context is done, is given; warnings and the wait after an error are left out.
use p2pmq.Base.{Bool, true, false, List, [], ◌∷◌, none, some, Result, ok, err, if◌then◌else◌}
use p2pmq.Router.Queue.{MsgRouter, handle}

-- What `sub.Next` returns.
pub data Next (M : Type 0) : Type 0 where
  next_msg : M → Next M
  next_nil next_cancelled next_failed : Next M

-- One round: the router, and whether the loop goes on. The context may be done after `Next`.
unfoldable pub listen_round : {M T : Type 0} → Bool → Next M → MsgRouter M T → MsgRouter M T × Bool
listen_round done next_cancelled r = (r, false)
listen_round done next_failed r = (r, if done then false else true)
listen_round done next_nil r = (r, true)
listen_round done (next_msg msg) r =
    let (r', e) = handle msg r in
    elim e [ none ↦ (r', true) | some _ ↦ (r', if done then false else true) ]

-- The loop: for each round, whether the context is done before it and after `Next`.
unfoldable pub listen_subscription :
    {M T : Type 0} → List (Bool × Bool × Next M) → MsgRouter M T → MsgRouter M T
listen_subscription [] r = r
listen_subscription ((done_before, done_after, n) ∷ rounds) r =
    let (r', more) = listen_round done_after n r in
    let rest = listen_subscription rounds r' in if done_before then r else if more then rest else r'

-- `validateMsg`, over whether the message is the node's own and what `HandleWait` returns.
unfoldable pub validate_msg : {T : Type 0} → (accept ignore : T) → Bool → Result T → T
validate_msg accept ignore true res = accept
validate_msg accept ignore false (ok res) = res
validate_msg accept ignore false (err e) = ignore
