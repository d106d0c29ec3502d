-- ===== src/Controller/Lifecycle.antt =====
-- The life of one topic: what a failed join, an unsubscription and a leave lead to.
use p2pmq.Base.{
  Bool, true, false, String, none, some, err, ◌≡◌, refl, inl, inr, ◌∙◌, ap, string_key, Bool-cases,
  arith,
}
use p2pmq.Base.Dict.{lookup, lookup-insert_self}
use p2pmq.Commons.Pubsub.{PubsubConfig}
use p2pmq.Controller.Libp2p.{Libp2p, IsNaming}
use p2pmq.Controller.Topics.{get_topic_wrapper, joining_wrapper}
use p2pmq.Controller.Pubsub.{
  Controller, Outcome, returns, topic_opts, already_joining, try_join, publish, subscribe, relay,
  leave,
}
use p2pmq.Controller.Calls.{
  Call, publishing, subscribing, relaying, leaving, unsubscribing, unrelaying, call, topic_of,
  Reach, here, next,
}
use p2pmq.Controller.Invariant.{IsValid}
use p2pmq.Controller.Join.{join_new-err}
use p2pmq.Controller.Steps.{unsubscribe_frame, unrelay_frame, call-IsValid, Reach-IsValid}
use p2pmq.Controller.Frame.{lookup-call}

module _ (p : Libp2p) (cfg : PubsubConfig) where
  abbrev pub IsStuck : String → Controller p → Type 0
  IsStuck name c = lookup name c.topics ≡ some (joining_wrapper p)

  -- The calls that go through `tryJoin`.
  abbrev pub joins : Call → Bool
  joins (publishing name bytes) = true
  joins (subscribing name) = true
  joins (relaying name) = true
  joins _ = false

  try_join_stuck :
      (name : String) (c : Controller p)
      → IsStuck name c
      → try_join p cfg name c ≡ (c, none, some (already_joining name))
  unfolding try_join get_topic_wrapper
  try_join_stuck name c e = rw (e, try_join)

  stuck-joins :
      (k : Call) (c : Controller p)
      → IsStuck (topic_of k) c
      → joins k ≡ true
      → call p cfg k c ≡ (c, returns (some (already_joining (topic_of k))))
  unfolding call publish subscribe relay
  stuck-joins (publishing name bytes) c e _ = rw (try_join_stuck name c e)
  stuck-joins (subscribing name) c e _ = rw (try_join_stuck name c e)
  stuck-joins (relaying name) c e _ = rw (try_join_stuck name c e)
  stuck-joins (leaving name) c e b = cc
  stuck-joins (unsubscribing name) c e b = cc
  stuck-joins (unrelaying name) c e b = cc

  stuck-leave :
      (name : String) (c : Controller p) → IsStuck name c → leave p name c ≡ (c, returns none)
  unfolding leave get_topic_wrapper
  stuck-leave name c e = rw (e, leave)

  stuck-call :
      (k : Call) (c : Controller p) → IsStuck (topic_of k) c → (call p cfg k c).0.topics ≡ c.topics
  unfolding call
  stuck-call (publishing name bytes) c e =
      ap (λ (r : Controller p × Outcome). r.0.topics) (stuck-joins (publishing name bytes) c e refl)
  stuck-call (subscribing name) c e =
      ap (λ (r : Controller p × Outcome). r.0.topics) (stuck-joins (subscribing name) c e refl)
  stuck-call (relaying name) c e =
      ap (λ (r : Controller p × Outcome). r.0.topics) (stuck-joins (relaying name) c e refl)
  stuck-call (leaving name) c e = rw (stuck-leave name c e)
  stuck-call (unsubscribing name) c e = (unsubscribe_frame p cfg name c).0
  stuck-call (unrelaying name) c e = (unrelay_frame p cfg name c).0

  join_failure :
      (k : Call) (c : Controller p) (x : String)
      → joins k ≡ true
      → lookup (topic_of k) c.topics ≡ none
      → (p.join (topic_of k) (topic_opts cfg (topic_of k)) c.world).1 ≡ err x
      → ((call p cfg k c).1 ≡ returns (some x)) × IsStuck (topic_of k) (call p cfg k c).0
  unfolding call publish subscribe relay try_join get_topic_wrapper
  join_failure (publishing name bytes) c x _ e r =
      rw (e, try_join) (rw (join_new-err p cfg name c x r) (refl, lookup-insert_self name _ _))
  join_failure (subscribing name) c x _ e r =
      rw (e, try_join) (rw (join_new-err p cfg name c x r) (refl, lookup-insert_self name _ _))
  join_failure (relaying name) c x _ e r =
      rw (e, try_join) (rw (join_new-err p cfg name c x r) (refl, lookup-insert_self name _ _))
  join_failure (leaving name) c x b e r = cc
  join_failure (unsubscribing name) c x b e r = cc
  join_failure (unrelaying name) c x b e r = cc

  module _ (naming : IsNaming p) where
    call-IsStuck :
        (name : String) (k : Call) (c : Controller p)
        → IsValid p c
        → IsStuck name c
        → IsStuck name (call p cfg k c).0
    call-IsStuck name k c h e = elim (Bool-cases (string_key.same (topic_of k) name)) [
      | inl same ↦
          let here : topic_of k ≡ name = (string_key.same_iff (topic_of k) name).0 same in
          rw (stuck-call k c (rw here e)) e
      | inr other ↦
          lookup-call p cfg naming k c name h
            (λ eq. absurd (ground (arith, string_key.same_iff (topic_of k) name)))
          ∙ e
    ]

    Reach-IsStuck :
        (name : String) {c d : Controller p}
        → IsValid p c
        → IsStuck name c
        → Reach p cfg c d
        → IsStuck name d
    Reach-IsStuck name h e here = e
    Reach-IsStuck name h e (next {d = d} r k o done) =
        rw (ap (λ (x : Controller p × Outcome). x.0) done) at
          (call-IsStuck name k d (Reach-IsValid p cfg naming h r) (Reach-IsStuck name h e r))

    -- If the topic of a Publish, Subscribe or Relay is unknown to a valid controller and libp2p
    -- refuses to join it, the call returns that error, and after any further calls that return,
    -- every Publish, Subscribe and Relay of the topic leaves the controller as it is and returns
    -- "already tring to join topic <name>".
    pub failed_join_sticks :
        (k l : Call) (c : Controller p) (x : String) {d : Controller p}
        → IsValid p c
        → joins k ≡ true
        → joins l ≡ true
        → topic_of l ≡ topic_of k
        → lookup (topic_of k) c.topics ≡ none
        → (p.join (topic_of k) (topic_opts cfg (topic_of k)) c.world).1 ≡ err x
        → Reach p cfg (call p cfg k c).0 d
        → ((call p cfg k c).1 ≡ returns (some x))
          × (call p cfg l d ≡ (d, returns (some (already_joining (topic_of k)))))
    failed_join_sticks k l c x {d} h bk bl same fresh fails r =
        let (told, stuck) = join_failure k c x bk fresh fails in
        let later = Reach-IsStuck (topic_of k) (call-IsValid p cfg naming k c h) stuck r in
        (told, rw same at (stuck-joins l d (rw same later) bl))
