-- ===== src/Controller/Subscriptions.antt =====
-- What `Subscribe` promises, and how it and `Publish` meet `Unsubscribe` and `Leave`.
use p2pmq.Base.{
  ℕ, ◌||◌, String, List, none, some, Result, ok, err, ◌≡◌, refl, ◌≢◌, inl, inr, ◌∙◌, ap, eqb,
  string_key, Bool-cases, arith, Option-cases,
}
use p2pmq.Base.Dict.{lookup, insert, lookup-insert_self}
use p2pmq.Commons.Pubsub.{PubsubConfig}
use p2pmq.Controller.Libp2p.{Libp2p, IsNaming}
use p2pmq.Controller.Topics.{
  TopicWrapper, topic_state_joining, topic_state_joined, topic_state_unknown, topic_state_err,
  get_topic_wrapper, get_sub,
}
use p2pmq.Controller.Pubsub.{
  Controller, returns, sub_opts, try_join, publish_on, subscribe_on, publish, subscribe,
  close_topic, leave, unsubscribe,
}
use p2pmq.Controller.Invariant.{IsJoined, IsValid, IsValid-world, listener_count, sub_count}
use p2pmq.Controller.Join.{try_join-IsValid, try_join_result}
use p2pmq.Controller.Steps.{subscribe_on_known, subscribe_on_err, subscribe_on_ok, get_sub_found}

module _ (p : Libp2p) (cfg : PubsubConfig) where
  -- An entry that is settled: `tryJoin` returns its handle and changes nothing.
  try_join_known :
      (name : String) (c : Controller p) (tw : TopicWrapper p)
      → lookup name c.topics ≡ some tw
      → tw.state ≢ topic_state_joining
      → try_join p cfg name c ≡ (c, tw.topic, none)
  unfolding try_join get_topic_wrapper
  try_join_known name c tw e s = elim (Bool-cases (eqb tw.state topic_state_joining)) [
    | inl b ↦ absurd (ground arith)
    | inr b ↦ rw (e, try_join, b)
  ]

  -- An entry with a subscription is settled, in a valid controller.
  sub_settled :
      (name : String) (c : Controller p) (sub : p.Subscription)
      → IsValid p c
      → get_sub p name c.topics ≡ some sub
      → (tw : TopicWrapper p) × (lookup name c.topics ≡ some tw) × (tw.state ≢ topic_state_joining)
  unfolding get_sub
  sub_settled name c sub h e = elim (Option-cases (lookup name c.topics)) [
    | inl miss ↦ absurd (ground arith)
    | inr (tw, found) ↦ (tw, found, λ s. absurd (ground (arith, (h.entries name tw found).blank s)))
  ]

  -- On a valid controller that holds a subscription of a topic, Subscribe of that topic changes
  -- nothing and returns nil.
  subscribe_again :
      (name : String) (c : Controller p) (sub : p.Subscription)
      → IsValid p c
      → get_sub p name c.topics ≡ some sub
      → subscribe p cfg name c ≡ (c, returns none)
  unfolding subscribe
  subscribe_again name c sub h e =
      let (tw, found, settled) = sub_settled name c sub h e in
      let (t, handle, named) = (h.entries name tw found).held settled in
      rw (try_join_known name c tw found settled) (
        rw handle (
          subscribe_on_known p cfg name t c sub
            (record {
              wrapper = tw;
              found = found;
              settled = settled;
              handle = handle;
              naming = named;
            })
            e))

  unsubscribe_cancels :
      (name : String) (c : Controller p) (tw : TopicWrapper p) (sub : p.Subscription)
      → lookup name c.topics ≡ some tw
      → tw.state ≢ topic_state_unknown
      → tw.sub ≡ some sub
      → unsubscribe p name c ≡ (record c { world = p.cancel sub c.world }, returns none)
  unfolding unsubscribe get_topic_wrapper
  unsubscribe_cancels name c tw sub found known held =
      elim (Bool-cases (eqb tw.state topic_state_unknown)) [
        | inl b ↦ absurd (ground arith)
        | inr b ↦ rw (found, unsubscribe, b) (rw (held, unsubscribe))
      ]

  -- On a valid controller, Unsubscribe of a topic in a state other than unknown that holds a
  -- subscription cancels it in libp2p, changes nothing else and returns nil, and a Subscribe that
  -- follows returns nil and changes nothing: no new subscription is made and no goroutine is
  -- started.
  pub resubscribe_lost :
      (name : String) (c : Controller p) (tw : TopicWrapper p) (sub : p.Subscription)
      → IsValid p c
      → lookup name c.topics ≡ some tw
      → tw.state ≢ topic_state_unknown
      → tw.sub ≡ some sub
      → (unsubscribe p name c ≡ (record c { world = p.cancel sub c.world }, returns none))
        × (subscribe p cfg name (unsubscribe p name c).0
            ≡ (record c { world = p.cancel sub c.world }, returns none))
  resubscribe_lost name c tw sub h found known held =
      let cancelled = unsubscribe_cancels name c tw sub found known held in
      (
        cancelled,
        rw cancelled (
            subscribe_again name _ sub (IsValid-world p c _ h)
              (get_sub_found p cfg name tw c.topics found ∙ held)),
      )

  subscribe_on_count :
      (name : String) (t : p.Topic) (c : Controller p)
      → IsJoined p name c t
      → IsValid p c
      → (subscribe_on p cfg name (some t) c).1 ≡ returns none
      → listener_count p name (subscribe_on p cfg name (some t) c).0.listeners ≡ 1
  subscribe_on_count name t c j h done = elim (Option-cases (get_sub p name c.topics)) [
    | inr (s, e) ↦
        rw (subscribe_on_known p cfg name t c s j e) (h.listening name ∙ ap (sub_count p) e)
    | inl e ↦ go e (p.subscribe t (sub_opts cfg name) c.world).1 refl
  ]
    where
      go :
          get_sub p name c.topics ≡ none
          → (r : Result p.Subscription) → (p.subscribe t (sub_opts cfg name) c.world).1 ≡ r
          → listener_count p name (subscribe_on p cfg name (some t) c).0.listeners ≡ 1
      go e (err x) er = absurd (ground (arith, subscribe_on_err p cfg name t c x j e er))
      go e (ok s) er =
          rw (subscribe_on_ok p cfg name t c s j e er)
            (ground (arith, h.listening name, string_key.same_iff name name))

  -- When a Subscribe on a valid controller returns nil, exactly one goroutine has been started for
  -- the topic since the start, by this call or an earlier one.
  pub subscribe_listens :
      (naming : IsNaming p) (name : String) (c : Controller p)
      → IsValid p c
      → (subscribe p cfg name c).1 ≡ returns none
      → listener_count p name (subscribe p cfg name c).0.listeners ≡ 1
  unfolding subscribe
  subscribe_listens naming name c h done = elim (Option-cases (try_join p cfg name c).2) [
    | inr (x, e) ↦ absurd (ground arith)
    | inl e ↦
        let (t, handle, j) = try_join_result p cfg naming name c h e in
        let on : subscribe p cfg name c
            ≡ subscribe_on p cfg name (some t) (try_join p cfg name c).0 =
          rw (e, subscribe) (rw handle) in
        rw on
          (subscribe_on_count name t _ j (try_join-IsValid p cfg naming name c h) (rw on at done))
  ]

  abbrev left : String → (c : Controller p) → TopicWrapper p → p.Topic → Controller p
  left name c tw t = record c {
    topics = insert name (record tw { state = topic_state_unknown }) c.topics;
    world = (p.close t c.world).0;
  }

  leave_joined :
      (name : String) (c : Controller p) (tw : TopicWrapper p) (t : p.Topic)
      → lookup name c.topics ≡ some tw
      → tw.state ≡ topic_state_joined
      → tw.topic ≡ some t
      → (p.close t c.world).1 ≡ none
      → leave p name c ≡ (left name c tw t, returns none)
  unfolding leave close_topic get_topic_wrapper
  leave_joined name c tw t found s handle closed =
      elim (Bool-cases (eqb tw.state topic_state_joined || eqb tw.state topic_state_err)) [
        | inr b ↦ absurd (ground arith)
        | inl b ↦
            rw (found, leave, b)
              (rw (handle, close_topic) (rw (closed, close_topic) (rw handle refl)))
      ]

  -- If a known topic is in state joined and libp2p closes its handle without an error, Leave
  -- returns nil, and the next Publish of that topic joins nothing: it publishes on the closed
  -- handle and returns what libp2p answers.
  pub leave-publish :
      (name : String) (bytes : List ℕ) (c : Controller p) (tw : TopicWrapper p) (t : p.Topic)
      → lookup name c.topics ≡ some tw
      → tw.state ≡ topic_state_joined
      → tw.topic ≡ some t
      → (p.close t c.world).1 ≡ none
      → let d = (leave p name c).0 in
        ((leave p name c).1 ≡ returns none)
        × (d.world ≡ (p.close t c.world).0)
        × (publish p cfg name bytes d ≡ (
          record d { world = (p.publish t bytes d.world).0 },
          returns (p.publish t bytes d.world).1,
        ))
  unfolding publish publish_on
  leave-publish name bytes c tw t found s handle closed =
      rw (leave_joined name c tw t found s handle closed) (
        refl,
        refl,
        rw
            (try_join_known name (left name c tw t) (record tw { state = topic_state_unknown })
              (lookup-insert_self name _ _) (λ e. omega arith))
            (rw handle refl),
      )
