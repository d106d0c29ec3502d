-- ===== src/Router/Drain.antt =====
-- How a router with a loop and a worker goes on from what it holds.
use p2pmq.Base.{
  ℕ, zero, suc, ◌+◌, ◌<◌, ◌≡◌, refl, List, [], ◌∷◌, ◌++◌, Option, none, some, ◌⊎◌, inl, inr, length,
  length-append, arith, ◌∙◌,
}
use p2pmq.Router.Queue.{
  MsgWrapper, MsgRouter, new_msg_router, callback, receive, dispatch_msg, finish, pick,
}
use p2pmq.Router.Steps.{Op, dispatching, finishing, receives, step, Reach, here, next}
use p2pmq.Router.Work.{work}
use p2pmq.Router.Accounts.{occurs_handled, Reach-IsAccounted}

-- How many of the queued values are the nil of `RefreshHandler`.
abbrev pub nils : {M : Type 0} → List (Option (MsgWrapper M)) → ℕ
nils [] = 0
nils (none ∷ q) = suc (nils q)
nils (some w ∷ q) = nils q

module _ {M T : Type 0} where
  -- The loops of `Start` that have not returned.
  abbrev pub loops : MsgRouter M T → ℕ
  loops r = r.idle + length r.held

  -- A router that can go on by itself.
  record IsLive (r : MsgRouter M T) : Type 0 where
    slots : 0 < r.workers
    looping : 0 < loops r
    no_nil : nils r.q ≡ 0

  record IsStep (r s : MsgRouter M T) : Type 0 where
    op : Op M T
    made : step op r ≡ some s
    less : work s < work r
    live : IsLive s
    kept : s.submitted ≡ r.submitted

  finish-IsStep :
      (x : T) (r : MsgRouter M T) (w : MsgWrapper M) (ws : List (MsgWrapper M))
      → r.busy ≡ w ∷ ws
      → IsLive r
      → (s : MsgRouter M T) × IsStep r s
  unfolding step finish pick
  finish-IsStep x r w ws b h = (
    s,
    record {
      op = finishing 0 x;
      made = rw (b, finish) refl;
      less = ground arith;
      live = record { slots = h.slots; looping = h.looping; no_nil = h.no_nil };
      kept = refl;
    },
  )
    where
      s : MsgRouter M T
      s = record r {
        busy = ws;
        callers = callback w x r.callers;
        handled = (w.number, x) ∷ r.handled;
      }

  dispatch_msg-IsStep :
      (r : MsgRouter M T) (w : MsgWrapper M) (ws : List (MsgWrapper M))
      → r.busy ≡ []
      → r.held ≡ w ∷ ws
      → IsLive r
      → (s : MsgRouter M T) × IsStep r s
  unfolding step dispatch_msg pick
  dispatch_msg-IsStep r w ws b e h = (
    s,
    record {
      op = dispatching 0;
      made = ground (arith, h.slots);
      less = ground arith;
      live = record { slots = h.slots; looping = ground arith; no_nil = h.no_nil };
      kept = refl;
    },
  )
    where
      s : MsgRouter M T
      s = record r { held = ws; busy = r.busy ++ (w ∷ []); idle = suc r.idle }

  receive-IsStep :
      (r : MsgRouter M T) (w : MsgWrapper M) (q : List (Option (MsgWrapper M))) (n : ℕ)
      → r.idle ≡ suc n
      → r.q ≡ some w ∷ q
      → IsLive r
      → (s : MsgRouter M T) × IsStep r s
  unfolding step receive
  receive-IsStep r w q n i e h = (
    s,
    record {
      op = receives;
      made = ground arith;
      less = ground (arith, length-append r.held (w ∷ []));
      live = record {
        slots = h.slots;
        looping = ground (arith, length-append r.held (w ∷ []));
        no_nil = ground (arith, h.no_nil);
      };
      kept = refl;
    },
  )
    where
      s : MsgRouter M T
      s = record r { q = q; idle = n; held = r.held ++ (w ∷ []) }

  record IsDrained (r s : MsgRouter M T) : Type 0 where
    reached : Reach r s
    queue : s.q ≡ []
    loose : s.held ≡ []
    running : s.busy ≡ []
    same : s.submitted ≡ r.submitted

  Reach_trans : {r s t : MsgRouter M T} → Reach r s → Reach s t → Reach r t
  Reach_trans j here = j
  Reach_trans j (next k o e) = next (Reach_trans j k) o e

  first : {r s t : MsgRouter M T} (o : Op M T) → step o r ≡ some s → Reach s t → Reach r t
  first o e here = next here o e
  first o e (next k o' e') = next (first o e k) o' e'

  after :
      (r s : MsgRouter M T)
      → IsStep r s
      → (t : MsgRouter M T) × IsDrained s t
      → (t : MsgRouter M T) × IsDrained r t
  after r s i (t, d) = (
    t,
    record {
      reached = first i.op i.made d.reached;
      queue = d.queue;
      loose = d.loose;
      running = d.running;
      same = d.same ∙ i.kept;
    },
  )

  -- What a live router does next, or that it has nothing left to do.
  next-IsStep :
      T → (r : MsgRouter M T) → IsLive r → ((s : MsgRouter M T) × IsStep r s) ⊎ IsDrained r r
  next-IsStep x r h = go r.busy refl r.held refl r.idle refl r.q refl
    where
      go :
          (busy : List (MsgWrapper M))
          → r.busy ≡ busy
          → (held : List (MsgWrapper M)) → r.held ≡ held
          → (idle : ℕ) → r.idle ≡ idle
          → (q : List (Option (MsgWrapper M))) → r.q ≡ q
          → ((s : MsgRouter M T) × IsStep r s) ⊎ IsDrained r r
      go (w ∷ ws) b held e idle i q f = inl (finish-IsStep x r w ws b h)
      go [] b (w ∷ ws) e idle i q f = inl (dispatch_msg-IsStep r w ws b e h)
      go [] b [] e zero i q f = absurd (ground (arith, h.looping))
      go [] b [] e (suc n) i [] f =
          inr (record { reached = here; queue = f; loose = e; running = b; same = refl })
      go [] b [] e (suc n) i (none ∷ q) f = absurd (ground (arith, h.no_nil))
      go [] b [] e (suc n) i (some w ∷ q) f = inl (receive-IsStep r w q n i f h)

  drain :
      T
      → (fuel : ℕ) (r : MsgRouter M T) → work r < fuel
      → IsLive r
      → (s : MsgRouter M T) × IsDrained r s
  drain x zero r m h = absurd (omega arith)
  drain x (suc fuel) r m h = elim (next-IsStep x r h) [
    | inr d ↦ (r, d)
    | inl (s, i) ↦ after r s i (drain x fuel s (omega (arith, i.less)) i.live)
  ]

  -- From every state that a new router with worker slots reaches by steps of the code in which it
  -- runs at least one loop and no nil is queued, further steps lead to a state in which every
  -- message submitted so far has been handled exactly once.
  pub handled_eventually :
      (q_size workers : ℕ) (x : T) {r : MsgRouter M T}
      → Reach (new_msg_router q_size workers) r
      → 0 < r.workers
      → 0 < loops r
      → nils r.q ≡ 0
      → (s : MsgRouter M T) × Reach r s
        × ((n : ℕ) → n < r.submitted → occurs_handled n s.handled ≡ 1)
  handled_eventually q_size workers x {r} k slots looping no_nil =
      let (s, d) =
        drain x (suc (work r)) r (omega arith)
          (record { slots = slots; looping = looping; no_nil = no_nil }) in
      (
        s,
        d.reached,
        λ n small. ground (
          arith,
          Reach-IsAccounted q_size workers (Reach_trans k d.reached) n,
          d.queue,
          d.loose,
          d.running,
          d.same,
        ),
      )
