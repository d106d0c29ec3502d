-- ===== src/Router/Lost.antt =====
-- A caller of `HandleWait` that is not yet in its second select when the handler returns.
use p2pmq.Base.{
  ℕ, ◌≤◌, ◌<◌, ◌≡◌, ◌≢◌, List, none, some, Option-cases, inl, inr, arith, nat_key, sym,
}
use mathlib.Core.Path.{subst}
use p2pmq.Base.Dict.{lookup, insert, lookup-insert}
use p2pmq.Router.Queue.{
  MsgWrapper, MsgRouter, Caller, calling, receiving, expired, got, handle_wait, await, expire, pick,
  finish, start, stop, refresh, refreshed, new_msg_router,
}
use p2pmq.Router.Steps.{
  Op, handling, handling_wait, awaiting, expiring, dispatching, finishing, receives, starts, stops,
  refreshing, refreshes, step, Reach, Reach_inv,
}
use p2pmq.Router.Accounts.{
  occurs, occurs_handled, IsAccounted, step-IsAccounted, Reach-IsAccounted, occurs-pick,
}
use p2pmq.Router.Callers.{
  receive_callers, send_callers, dispatch_callers, handle_callers, handle_wait_callers,
  lookup-callback,
}

module _ {M T : Type 0} where
  -- The handler has returned for the submission, and its caller has got nothing.
  record IsLost (n : ℕ) (r : MsgRouter M T) : Type 0 where
    accounted : IsAccounted r
    returned : 1 ≤ occurs_handled n r.handled
    empty_handed : (x : T) → lookup n r.callers ≢ some (got x)

  IsLost-quiet :
      (n : ℕ) (s t : MsgRouter M T)
      → IsAccounted t
      → t.callers ≡ s.callers
      → t.handled ≡ s.handled
      → IsLost n s
      → IsLost n t
  IsLost-quiet n s t a c d h = record {
    accounted = a;
    returned = rw d h.returned;
    empty_handed = λ x e. h.empty_handed x (rw c at e);
  }

  -- The submission of a lost message is an old one, and its message runs nowhere.
  IsLost-old : (n : ℕ) (s : MsgRouter M T) → IsLost n s → (n < s.submitted) × (occurs n s.busy ≡ 0)
  IsLost-old n s h = ground (arith, h.accounted n)

  finish-IsLost :
      (n i : ℕ) (res : T) (s t : MsgRouter M T)
      → finish i res s ≡ some t
      → IsAccounted t
      → IsLost n s
      → IsLost n t
  unfolding finish
  finish-IsLost n i res s t e a h = elim (Option-cases (pick i s.busy)) [
    | inl z ↦ absurd (ground arith)
    | inr ((w, rest), p) ↦ record {
      accounted = a;
      returned = ground arith;
      empty_handed = λ x g. ground (
        arith,
        lookup-callback n w res s.callers,
        h.empty_handed x,
        occurs-pick n i s.busy p,
        IsLost-old n s h,
      );
    }
  ]

  -- A step that changes one caller to a state that is no result.
  IsLost-caller :
      (n k : ℕ) (c : Caller T) (s t : MsgRouter M T)
      → IsAccounted t
      → ((x : T) → c ≢ got x)
      → t.callers ≡ insert k c s.callers
      → t.handled ≡ s.handled
      → IsLost n s
      → IsLost n t
  IsLost-caller n k c s t a none_got cs d h = record {
    accounted = a;
    returned = rw d h.returned;
    empty_handed =
        λ x g. ground (arith, lookup-insert k n c s.callers, h.empty_handed x, none_got x);
  }

  wait-IsLost :
      (n : ℕ) (msg : M) (s : MsgRouter M T)
      → IsAccounted (handle_wait msg s).0
      → IsLost n s
      → IsLost n (handle_wait msg s).0
  wait-IsLost n msg s a h =
      let (callers, handled) = handle_wait_callers msg s in
      elim callers [
        | inl same ↦ IsLost-quiet n s _ a same handled h
        | inr new ↦ IsLost-caller n s.submitted calling s _ a (λ x e. cc) new handled h
      ]

  step-IsLost :
      (n : ℕ) (o : Op M T) (s t : MsgRouter M T)
      → step o s ≡ some t
      → IsAccounted t
      → IsLost n s
      → IsLost n t
  unfolding step await expire start stop refresh refreshed
  step-IsLost n (handling msg) s t e a h =
      let (c, d) = handle_callers msg s in IsLost-quiet n s t a (ground arith) (ground arith) h
  step-IsLost n (handling_wait msg) s t e a h =
      let same : (handle_wait msg s).0 ≡ t = ground arith in
      subst (IsLost n) same (wait-IsLost n msg s (subst IsAccounted (sym same) a) h)
  step-IsLost n (awaiting k) s t e a h =
      IsLost-caller n k receiving s t a (λ x z. cc) (ground arith) (ground arith) h
  step-IsLost n (expiring k) s t e a h =
      IsLost-caller n k expired s t a (λ x z. cc) (ground arith) (ground arith) h
  step-IsLost n (dispatching i) s t e a h =
      let (c, d) = dispatch_callers i s t e in IsLost-quiet n s t a c d h
  step-IsLost n (finishing i x) s t e a h = finish-IsLost n i x s t e a h
  step-IsLost n receives s t e a h =
      let (c, d) = receive_callers s t e in IsLost-quiet n s t a c d h
  step-IsLost n starts s t e a h = IsLost-quiet n s t a (ground arith) (ground arith) h
  step-IsLost n stops s t e a h = IsLost-quiet n s t a (ground arith) (ground arith) h
  step-IsLost n refreshing s t e a h =
      let (c, d) = send_callers none s t e in IsLost-quiet n s t a c d h
  step-IsLost n refreshes s t e a h = IsLost-quiet n s t a (ground arith) (ground arith) h

  finish_loses :
      (i : ℕ) (res : T) (r s : MsgRouter M T) (w : MsgWrapper M) (rest : List (MsgWrapper M))
      → IsAccounted r
      → pick i r.busy ≡ some (w, rest)
      → lookup w.number r.callers ≡ some calling
      → finish i res r ≡ some s
      → IsLost w.number s
  unfolding finish
  finish_loses i res r s w rest a p c e = record {
    accounted = step-IsAccounted (finishing i res) r s (unfold step in e) a;
    returned = ground arith;
    empty_handed = λ x g. ground (arith, lookup-callback w.number w res r.callers);
  }

  -- If, in a state reached from a new router, the handler returns while the caller of HandleWait
  -- is between its two selects, the answer is dropped: whatever steps follow, that caller never
  -- gets a result.
  pub early_answer_lost :
      (q_size workers i : ℕ) (res : T) (r s t : MsgRouter M T) (w : MsgWrapper M)
      (rest : List (MsgWrapper M))
      → Reach (new_msg_router q_size workers) r
      → pick i r.busy ≡ some (w, rest)
      → lookup w.number r.callers ≡ some calling
      → finish i res r ≡ some s
      → Reach s t
      → (x : T) → lookup w.number t.callers ≢ some (got x)
  early_answer_lost q_size workers i res r s t w rest reach p c e later =
      (Reach_inv (IsLost w.number)
        (λ o u v z h. step-IsLost w.number o u v z (step-IsAccounted o u v z h.accounted) h) later
        (finish_loses i res r s w rest (Reach-IsAccounted q_size workers reach) p c e)).empty_handed
