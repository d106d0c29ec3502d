-- ===== src/Controller/Panics.antt =====
-- Which calls panic.
use p2pmq.Base.{
  String, Option, none, some, Result, ok, err, ◌≡◌, ◌≢◌, refl, sym, ◌∙◌, ◌↔◌, ◌⊎◌, inl, inr, eqb,
  string_key, arith, Option-cases, Bool-cases,
}
use p2pmq.Base.Dict.{lookup}
use p2pmq.Commons.Pubsub.{PubsubConfig}
use p2pmq.Controller.Libp2p.{Libp2p, IsNaming}
use p2pmq.Controller.Topics.{
  TopicWrapper, topic_state_unknown, topic_state_joining, get_topic_wrapper, get_sub,
}
use p2pmq.Controller.Pubsub.{
  Controller, Outcome, panic, publish_on, subscribe_on, listen, relay_on, or_return, try_join,
  publish, subscribe, relay, close_topic, leave, unsubscribe, unrelay,
}
use p2pmq.Controller.Calls.{
  Call, publishing, subscribing, relaying, leaving, unsubscribing, unrelaying, call,
}
use p2pmq.Controller.Invariant.{IsValid}
use p2pmq.Controller.Join.{try_join_result}
use p2pmq.Controller.Unset.{unset_join, unset_subscribe_on, unset_call, any_call}

module _ (p : Libp2p) where
  listen-ne-panic :
      (name : String) (r : Result (Option p.Subscription)) (c : Controller p)
      → (listen p name r c).1 ≢ panic
  unfolding listen
  listen-ne-panic name (err x) c e = cc
  listen-ne-panic name (ok none) c e = cc
  listen-ne-panic name (ok (some s)) c e = cc

  pub relay_on-ne-panic :
      (name : String) (t : p.Topic) (c : Controller p) → (relay_on p name (some t) c).1 ≢ panic
  unfolding relay_on
  relay_on-ne-panic name t c = ground arith

  pub leave-panic :
      (name : String) (c : Controller p)
      → IsValid p c
      → ((leave p name c).1 ≡ panic) ↔ (lookup name c.topics ≡ none)
  unfolding leave get_topic_wrapper close_topic
  leave-panic name c h = elim (Option-cases (lookup name c.topics)) [
    | inl e ↦ (λ _. e, λ _. rw (e, leave))
    | inr (tw, e) ↦
        ((λ r. absurd (ground (arith, (h.entries name tw e).held))), (λ n. absurd (ground arith)))
  ]

  unset_join-panic :
      (name : String) (k : Option p.Topic → Controller p → Controller p × Outcome)
      (c : Controller p)
      → IsValid p c
      → ((t : p.Topic) → (k (some t) c).1 ≢ panic)
      → ((unset_join p name k c).1 ≡ panic) ↔ (lookup name c.topics ≡ none)
  unfolding unset_join get_topic_wrapper
  unset_join-panic name k c h calm = elim (Option-cases (lookup name c.topics)) [
    | inl e ↦ (λ _. e, λ _. rw (e, unset_join) refl)
    | inr (tw, e) ↦ elim (Bool-cases (eqb tw.state topic_state_joining)) [
      | inl j ↦ ((λ r. absurd (ground arith)), (λ n. absurd (ground arith)))
      | inr j ↦
          let (t, held, same) = (h.entries name tw e).held (λ z. ground arith) in
          (
            (λ r.
                absurd (calm t (let z : (k tw.topic c).1 ≡ panic = ground arith in rw held at z))),
            (λ n. absurd (ground arith)),
          )
    ]
  ]

  -- The code's conditions for a nil dereference, by the entry of the call's topic.
  abbrev pub Panics : Option PubsubConfig → Call → Controller p → Type 0
  Panics pubsub (publishing name bytes) c = (pubsub ≡ none) × (lookup name c.topics ≡ none)
  Panics pubsub (relaying name) c = (pubsub ≡ none) × (lookup name c.topics ≡ none)
  Panics pubsub (subscribing name) c =
      (pubsub ≡ none)
      × ((lookup name c.topics ≡ none)
          ⊎ ((tw : TopicWrapper p) × (lookup name c.topics ≡ some tw)
              × (tw.state ≢ topic_state_joining)
              × (tw.sub ≡ none)))
  Panics pubsub (leaving name) c = lookup name c.topics ≡ none
  Panics pubsub (unsubscribing name) c =
      (lookup name c.topics ≡ none)
      ⊎ ((tw : TopicWrapper p) × (lookup name c.topics ≡ some tw)
          × (tw.state ≢ topic_state_unknown)
          × (tw.sub ≡ none))
  Panics pubsub (unrelaying name) c =
      (lookup name c.topics ≡ none)
      ⊎ ((tw : TopicWrapper p) × (lookup name c.topics ≡ some tw)
          × (tw.state ≢ topic_state_unknown)
          × (tw.relay_cancel_fn ≡ none))

module _ (p : Libp2p) (cfg : PubsubConfig) where
  or_return-ne-panic :
      (r : Controller p × Option p.Topic × Option String)
      (k : Option p.Topic → Controller p → Controller p × Outcome)
      → (r.2 ≡ none → (k r.1 r.0).1 ≢ panic)
      → (or_return p cfg r k).1 ≢ panic
  or_return-ne-panic (c, t, none) k hk = hk refl
  or_return-ne-panic (c, t, some x) k hk = λ e. cc

  module _ (naming : IsNaming p) where
    joining-ne-panic :
        (name : String) (k : Option p.Topic → Controller p → Controller p × Outcome)
        (c : Controller p)
        → IsValid p c
        → ((t : p.Topic) (d : Controller p) → (k (some t) d).1 ≢ panic)
        → (or_return p cfg (try_join p cfg name c) k).1 ≢ panic
    joining-ne-panic name k c h calm =
        or_return-ne-panic (try_join p cfg name c) k
          (λ done. let (t, e, j) = try_join_result p cfg naming name c h done in rw e (calm t _))

module _ (p : Libp2p) (naming : IsNaming p) where
  handle-get_sub :
      (name : String) (tw : TopicWrapper p) (t : p.Topic) (c : Controller p)
      → lookup name c.topics ≡ some tw
      → p.topic_name t ≡ name
      → ((unset_subscribe_on p (some t) c).1 ≡ panic) ↔ (tw.sub ≡ none)
  unfolding unset_subscribe_on get_sub
  handle-get_sub name tw t c e same =
      let known : lookup (p.topic_name t) c.topics ≡ some tw = rw same e in
      (ground arith, ground arith)

  unset_subscribe-panic :
      (name : String) (c : Controller p)
      → IsValid p c
      → ((unset_join p name (unset_subscribe_on p) c).1 ≡ panic) ↔ (
          (lookup name c.topics ≡ none)
          ⊎ ((tw : TopicWrapper p) × (lookup name c.topics ≡ some tw)
              × (tw.state ≢ topic_state_joining)
              × (tw.sub ≡ none)))
  unfolding unset_join get_topic_wrapper
  unset_subscribe-panic name c h = elim (Option-cases (lookup name c.topics)) [
    | inl e ↦ (λ _. inl e, λ _. rw (e, unset_join) refl)
    | inr (tw, e) ↦ elim (Bool-cases (eqb tw.state topic_state_joining)) [
      | inl j ↦ ((λ r. absurd (ground arith)), (λ n. absurd (ground arith)))
      | inr j ↦
          let (t, held, same) = (h.entries name tw e).held (λ z. ground arith) in
          let lem = handle-get_sub name tw t c e same in
          let left : (unset_join p name (unset_subscribe_on p) c).1
              ≡ (unset_subscribe_on p tw.topic c).1 =
            ground arith in
          (
            λ r. inr (tw, e, (λ z. ground arith), lem.0 (rw held at (sym left ∙ r))),
            λ n. left ∙ rw held (lem.1 (ground arith)),
          )
    ]
  ]

  -- On a valid controller a call panics exactly in these cases: Publish, Subscribe or Relay of a
  -- topic that the manager does not know, where the configuration has no pubsub; Subscribe of a
  -- known topic that is not joining and has no subscription, where it has none; Leave of an
  -- unknown topic; Unsubscribe of an unknown topic, or of one that is not in state unknown and has
  -- no subscription; Unrelay of an unknown topic, or of one that is not in state unknown and has
  -- no relay cancel function.
  pub any_call-panic_iff :
      (pubsub : Option PubsubConfig) (k : Call) (c : Controller p)
      → IsValid p c
      → ((any_call p pubsub k c).1 ≡ panic) ↔ Panics p pubsub k c
  unfolding any_call unset_call unset_join unset_subscribe_on get_sub get_topic_wrapper call publish
      subscribe relay unsubscribe unrelay
  any_call-panic_iff (some cfg) (publishing name bytes) c h = (
    λ e. absurd (
        joining-ne-panic p cfg naming name (publish_on p bytes) c h
          (λ t d. unfold publish_on in λ x. cc) e),
    λ x. absurd (ground arith),
  )
  any_call-panic_iff (some cfg) (subscribing name) c h = (
    λ e. absurd (
        joining-ne-panic p cfg naming name (subscribe_on p cfg name) c h
          (λ t d. unfold subscribe_on in listen-ne-panic p name _ _) e),
    λ x. absurd (ground arith),
  )
  any_call-panic_iff (some cfg) (relaying name) c h = (
    λ e.
        absurd
          (joining-ne-panic p cfg naming name (relay_on p name) c h (relay_on-ne-panic p name) e),
    λ x. absurd (ground arith),
  )
  any_call-panic_iff (some cfg) (leaving name) c h = leave-panic p name c h
  any_call-panic_iff (some cfg) (unsubscribing name) c h = (ground arith, ground arith)
  any_call-panic_iff (some cfg) (unrelaying name) c h = (ground arith, ground arith)
  any_call-panic_iff none (publishing name bytes) c h =
      let lem =
        unset_join-panic p name (publish_on p bytes) c h (λ t. unfold publish_on in λ e. cc) in
      (λ e. (refl, lem.0 e), λ x. lem.1 x.1)
  any_call-panic_iff none (relaying name) c h =
      let lem = unset_join-panic p name (relay_on p name) c h (λ t. relay_on-ne-panic p name t c) in
      (λ e. (refl, lem.0 e), λ x. lem.1 x.1)
  any_call-panic_iff none (subscribing name) c h =
      let lem = unset_subscribe-panic name c h in (λ e. (refl, lem.0 e), λ x. lem.1 x.1)
  any_call-panic_iff none (leaving name) c h = leave-panic p name c h
  any_call-panic_iff none (unsubscribing name) c h = (ground arith, ground arith)
  any_call-panic_iff none (unrelaying name) c h = (ground arith, ground arith)
