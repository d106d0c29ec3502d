-- ===== src/Router/Steps.antt =====
-- The steps of a router, and what it reaches by them in any order.
use p2pmq.Base.{ℕ, ◌≡◌, Option, some}
use p2pmq.Router.Queue.{
  MsgRouter, handle, handle_wait, await, expire, receive, dispatch_msg, finish, start, stop,
  refresh, refreshed,
}

pub data Op (M T : Type 0) : Type 0 where
  handling handling_wait : M → Op M T
  awaiting expiring dispatching : ℕ → Op M T
  finishing : ℕ → T → Op M T
  receives starts stops refreshing refreshes : Op M T

module _ {M T : Type 0} where
  -- `none` where the goroutine of the step is blocked.
  unfoldable pub step : Op M T → MsgRouter M T → Option (MsgRouter M T)
  step (handling msg) r = some (handle msg r).0
  step (handling_wait msg) r = some (handle_wait msg r).0
  step (awaiting n) r = await n r
  step (expiring n) r = expire n r
  step (dispatching i) r = dispatch_msg i r
  step (finishing i res) r = finish i res r
  step receives r = receive r
  step starts r = some (start r)
  step stops r = stop r
  step refreshing r = refresh r
  step refreshes r = refreshed r

  pub data Reach (r : MsgRouter M T) : MsgRouter M T → Type 0 where
    here : Reach r r
    next : {s t : MsgRouter M T} → Reach r s → (o : Op M T) → step o s ≡ some t → Reach r t

  -- An invariant of every step holds of all that is reached.
  pub Reach_inv {ℓ} :
      (P : MsgRouter M T → Type ℓ)
      → ((o : Op M T) (s t : MsgRouter M T) → step o s ≡ some t → P s → P t)
      → {r s : MsgRouter M T} → Reach r s
      → P r
      → P s
  Reach_inv P keep here h = h
  Reach_inv P keep (next {s = s} {t = t} r o e) h = keep o s t e (Reach_inv P keep r h)
