-- ===== src/Controller/Heard.antt =====
-- What listening to a subscription does to the message router.
use p2pmq.Base.{◌≡◌, ◌≢◌, refl, Bool, true, false, List, [], ◌∷◌, arith, All, ◌∙◌, ap, sym}
use p2pmq.Router.Queue.{MsgRouter, handle}
use p2pmq.Controller.Listening.{
  Next, next_msg, next_nil, next_cancelled, next_failed, listen_round, listen_subscription,
}

-- The messages that the rounds yield.
abbrev pub messages : {M : Type 0} → List (Bool × Bool × Next M) → List M
messages [] = []
messages ((before, after, next_msg msg) ∷ rounds) = msg ∷ messages rounds
messages (_ ∷ rounds) = messages rounds

-- `Handle` for each message in turn, whatever it returns.
abbrev pub handle_all : {M T : Type 0} → List M → MsgRouter M T → MsgRouter M T
handle_all [] r = r
handle_all (msg ∷ msgs) r = handle_all msgs (handle msg r).0

-- A round in which neither the context ends nor the subscription is cancelled.
abbrev pub IsQuiet : {M : Type 0} → Bool × Bool × Next M → Type 0
IsQuiet (before, after, n) = (before ≡ false) × (after ≡ false) × (n ≢ next_cancelled)

module _ {M T : Type 0} where
  quiet_round :
      (n : Next M) (r : MsgRouter M T)
      → n ≢ next_cancelled
      → ((listen_round false n r).1 ≡ true)
        × ((listen_round false n r).0 ≡ handle_all (messages ((false, false, n) ∷ [])) r)
  unfolding listen_round
  quiet_round next_cancelled r h = absurd (h refl)
  quiet_round next_failed r h = (refl, refl)
  quiet_round next_nil r h = (refl, refl)
  quiet_round (next_msg msg) r h = (ground arith, ground arith)

  messages_cons :
      (n : Next M) (rounds : List (Bool × Bool × Next M)) (r : MsgRouter M T)
      → handle_all (messages ((false, false, n) ∷ rounds)) r
        ≡ handle_all (messages rounds) (handle_all (messages ((false, false, n) ∷ [])) r)
  messages_cons (next_msg msg) rounds r = refl
  messages_cons next_cancelled rounds r = refl
  messages_cons next_failed rounds r = refl
  messages_cons next_nil rounds r = refl

  -- As long as the context goes on and the subscription is not cancelled, listenSubscription does
  -- to the message router what calling Handle for each message that Next returns does, in their
  -- order, whatever errors Next and Handle return in between.
  pub listen_subscription-handle_all :
      (rounds : List (Bool × Bool × Next M)) (r : MsgRouter M T)
      → All IsQuiet rounds
      → listen_subscription rounds r ≡ handle_all (messages rounds) r
  unfolding listen_subscription
  listen_subscription-handle_all [] r h = refl
  listen_subscription-handle_all ((true, after, n) ∷ rounds) r (h, hs) = absurd (ground arith)
  listen_subscription-handle_all ((false, true, n) ∷ rounds) r (h, hs) = absurd (ground arith)
  listen_subscription-handle_all ((false, false, n) ∷ rounds) r (h, hs) =
      let (more, same) = quiet_round n r h.2 in
      rw (more, listen_subscription)
        (listen_subscription-handle_all rounds (listen_round false n r).0 hs
          ∙ ap (handle_all (messages rounds)) same
          ∙ sym (messages_cons n rounds r))
