-- ===== src/Controller/Join.antt =====
-- `tryJoin` and `trySubscribe` keep the invariant, and what they return.
use p2pmq.Base.{
  String, none, some, Result, ok, err, ◌≡◌, refl, ◌≢◌, inl, inr, sym, eqb, string_key, Bool-cases,
  arith, Option-cases,
}
use p2pmq.Base.Dict.{lookup, insert, lookup-insert_self}
use p2pmq.Commons.Pubsub.{PubsubConfig}
use p2pmq.Controller.Libp2p.{Libp2p, IsNaming}
use p2pmq.Controller.Topics.{
  TopicWrapper, Topics, topic_state_joining, topic_state_joined, joining_wrapper, joining_topic,
  upgrade_topic, get_topic_wrapper, get_sub,
}
use p2pmq.Controller.Pubsub.{
  Controller, topic_opts, validator_opts, register_validator, join_new, try_join,
}
use p2pmq.Controller.Invariant.{IsEntry, IsJoined, IsValid, IsValid-world, IsValid-write}

module _ (p : Libp2p) (cfg : PubsubConfig) where
  abbrev pub joined_wrapper : p.Topic → TopicWrapper p
  joined_wrapper t = record (joining_wrapper p) { state = topic_state_joined; topic = some t }

  pub upgrade-joining :
      (name : String) (t : p.Topic) (topics : Topics p)
      → (upgrade_topic p name t (joining_topic p name topics)).0
        ≡ insert name (joined_wrapper t) (insert name (joining_wrapper p) topics)
  unfolding upgrade_topic joining_topic
  upgrade-joining name t topics =
      rw (lookup-insert_self name (joining_wrapper p) topics, upgrade_topic)

  joining-IsEntry : (name : String) → IsEntry p name (joining_wrapper p)
  joining-IsEntry name = ground arith

  joined-IsEntry :
      (name : String) (t : p.Topic) → p.topic_name t ≡ name → IsEntry p name (joined_wrapper t)
  joined-IsEntry name t h = record {
    known = ground arith;
    blank = λ e. ground arith;
    held = λ e. (t, refl, h);
  }

  get_sub-none :
      (name : String) (topics : Topics p) → lookup name topics ≡ none → get_sub p name topics ≡ none
  unfolding get_sub
  get_sub-none name topics e = rw (e, get_sub)

  get_sub_joining :
      (name : String) (topics : Topics p)
      → get_sub p name (insert name (joining_wrapper p) topics) ≡ none
  unfolding get_sub
  get_sub_joining name topics = rw (lookup-insert_self name (joining_wrapper p) topics, get_sub)

  register_validator-IsValid :
      (name : String) (t : p.Topic) (c : Controller p)
      → IsValid p c
      → IsValid p (register_validator p cfg name t c).0
  unfolding register_validator
  register_validator-IsValid name t c h = elim (Option-cases (validator_opts cfg name)) [
    | inl e ↦ rw (e, register_validator) h
    | inr (o, e) ↦ rw (e, register_validator) (IsValid-world p c _ h)
  ]

  register_validator_topics :
      (name : String) (t : p.Topic) (c : Controller p)
      → ((register_validator p cfg name t c).0.topics ≡ c.topics)
        × ((register_validator p cfg name t c).1 ≡ some t)
  unfolding register_validator
  register_validator_topics name t c = ground arith

  -- The controller of a topic that libp2p has just joined.
  abbrev joined : String → Controller p → p.Topic → Controller p
  joined name c t = record c {
    topics = insert name (joined_wrapper t) (insert name (joining_wrapper p) c.topics);
    world = (p.join name (topic_opts cfg name) c.world).0;
  }

  -- What joining a new topic leaves, by libp2p's answer.
  join_new-ok :
      (name : String) (c : Controller p) (t : p.Topic)
      → (p.join name (topic_opts cfg name) c.world).1 ≡ ok t
      → join_new p cfg name c ≡ register_validator p cfg name t (joined name c t)
  unfolding join_new
  join_new-ok name c t e = rw (e, join_new, upgrade-joining name t c.topics)

  pub join_new-err :
      (name : String) (c : Controller p) (x : String)
      → (p.join name (topic_opts cfg name) c.world).1 ≡ err x
      → join_new p cfg name c ≡ (
        record c {
          topics = insert name (joining_wrapper p) c.topics;
          world = (p.join name (topic_opts cfg name) c.world).0;
        },
        none,
        some x,
      )
  unfolding join_new joining_topic
  join_new-err name c x e = rw (e, join_new)

  module _ (naming : IsNaming p) where
    join_new-IsValid :
        (name : String) (c : Controller p)
        → lookup name c.topics ≡ none
        → IsValid p c
        → IsValid p (join_new p cfg name c).0
    join_new-IsValid name c fresh h = go (p.join name (topic_opts cfg name) c.world).1 refl
      where
        blank :
            (w : p.World)
            → IsValid p (record c { topics = insert name (joining_wrapper p) c.topics; world = w })
        blank w =
            IsValid-write p c w name (joining_wrapper p) (joining-IsEntry name)
              (sym (get_sub-none name c.topics fresh)) h

        go :
            (r : Result p.Topic)
            → (p.join name (topic_opts cfg name) c.world).1 ≡ r
            → IsValid p (join_new p cfg name c).0
        go (err x) e = rw (join_new-err name c x e) (blank _)
        go (ok t) e = rw (join_new-ok name c t e) (
            register_validator-IsValid name t _ (
              IsValid-write p _ _ name (joined_wrapper t)
                (joined-IsEntry name t (naming.named name _ _ t e))
                (sym (get_sub_joining name c.topics))
                (blank (p.join name (topic_opts cfg name) c.world).0)))

    -- `tryJoin` keeps the invariant, whatever libp2p answers.
    pub try_join-IsValid :
        (name : String) (c : Controller p) → IsValid p c → IsValid p (try_join p cfg name c).0
    unfolding try_join get_topic_wrapper
    try_join-IsValid name c h = elim (Option-cases (lookup name c.topics)) [
      | inl e ↦ rw (e, try_join) (join_new-IsValid name c e h)
      | inr (tw, e) ↦ elim (Bool-cases (eqb tw.state topic_state_joining)) [
        | inl b ↦ rw (e, try_join, b) h
        | inr b ↦ rw (e, try_join, b) h
      ]
    ]

    join_new_result :
        (name : String) (c : Controller p)
        → (join_new p cfg name c).2 ≡ none
        → (t : p.Topic) × ((join_new p cfg name c).1 ≡ some t)
          × IsJoined p name (join_new p cfg name c).0 t
    join_new_result name c done = go (p.join name (topic_opts cfg name) c.world).1 refl
      where
        go :
            (r : Result p.Topic)
            → (p.join name (topic_opts cfg name) c.world).1 ≡ r
            → (t : p.Topic) × ((join_new p cfg name c).1 ≡ some t)
              × IsJoined p name (join_new p cfg name c).0 t
        go (err x) e = absurd (ground (arith, join_new-err name c x e))
        go (ok t) e = rw (join_new-ok name c t e) (
            let (kept, handle) = register_validator_topics name t (joined name c t) in
            (
              t,
              handle,
              record {
                wrapper = joined_wrapper t;
                found = rw kept (lookup-insert_self name _ _);
                settled = λ x. omega arith;
                handle = refl;
                naming = naming.named name _ _ t e;
              },
            ))

    -- With no error it returns the handle that the manager holds for that name.
    pub try_join_result :
        (name : String) (c : Controller p)
        → IsValid p c
        → (try_join p cfg name c).2 ≡ none
        → (t : p.Topic) × ((try_join p cfg name c).1 ≡ some t)
          × IsJoined p name (try_join p cfg name c).0 t
    unfolding try_join get_topic_wrapper
    try_join_result name c h done = elim (Option-cases (lookup name c.topics)) [
      | inl e ↦ rw (e, try_join) (join_new_result name c (rw (e, try_join) at done))
      | inr (tw, e) ↦ elim (Bool-cases (eqb tw.state topic_state_joining)) [
        | inl b ↦ absurd (ground arith)
        | inr b ↦
            let settled : tw.state ≢ topic_state_joining = ground arith in
            let (t, handle, named) = (h.entries name tw e).held settled in
            rw (e, try_join, b)
              (
                t,
                handle,
                record {
                  wrapper = tw;
                  found = e;
                  settled = settled;
                  handle = handle;
                  naming = named;
                },
              )
      ]
    ]
