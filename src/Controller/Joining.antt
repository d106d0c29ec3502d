-- ===== src/Controller/Joining.antt =====
-- core/pubsub.go and core/topic.go: calls of `tryJoin` that run at the same time. The manager's map
-- holds pointers, so the wrappers are cells of a heap; a call goes on by the reads and writes that
-- another can see between. A critical section with one write is one step; `upgradeTopic`, which
-- holds the lock over two, is two. The calls of libp2p have a lock of their own and are one step.
use p2pmq.Base.{
  ℕ, zero, suc, Bool, true, false, String, Option, none, some, ok, err, ◌≡◌, eqb, if◌then◌else◌,
  string_key, nat_key, ◌==◌,
}
use p2pmq.Base.Dict.{Dict, lookup, insert}
use p2pmq.Commons.Pubsub.{PubsubConfig}
use p2pmq.Controller.Libp2p.{Libp2p}
use p2pmq.Controller.Topics.{TopicWrapper, topic_state_joining, topic_state_joined, joining_wrapper}
use p2pmq.Controller.Pubsub.{topic_opts, validator_opts, already_joining}
pub mod Represents
pub mod Moves
pub mod Alone
pub mod Owned
pub mod Handles
pub mod Races
mod Tests

-- What the calls share. `fresh` is the next address that `&topicWrapper{}` gives.
pub record Shared (p : Libp2p) : Type 0 where
  pub names : Dict String ℕ
  pub heap : Dict ℕ (TopicWrapper p)
  pub fresh : ℕ
  pub locked : Bool
  pub world : p.World

-- Where a call of `tryJoin` is.
pub data Pc (p : Libp2p) : Type 0 where
  -- before `getTopicWrapper`, and after it with a pointer or nil
  looking : Pc p
  found : ℕ → Pc p
  missing : Pc p
  -- the wrapper's state was not joining: before `return topicW.topic`
  settled : ℕ → Pc p
  -- before `Join`
  marked : Pc p
  -- before `upgradeTopic`, and in it after the compare-and-swap
  upgrading : p.Topic → Pc p
  setting : ℕ → p.Topic → Pc p
  -- before `RegisterTopicValidator`
  registering : p.Topic → Pc p
  -- what it returns
  finished : Option p.Topic → Option String → Pc p

-- Calls that run at the same time: the `i`th is for the topic `topic_of i`.
pub record System (p : Libp2p) : Type 0 where
  pub shared : Shared p
  pub calls : ℕ → Pc p

abbrev pub go_on : {p : Libp2p} → ℕ → Pc p → (ℕ → Pc p) → ℕ → Pc p
go_on i pc calls j = if i == j then pc else calls j

module _ (p : Libp2p) (cfg : PubsubConfig) where
  open p use {join, register_topic_validator}

  -- `getTopicWrapper`.
  unfoldable pub look : String → Shared p → Option (Shared p × Pc p)
  look name s =
      if s.locked
      then none
      else elim (lookup name s.names) [ none ↦ some (s, missing) | some a ↦ some (s, found a) ]

  unfoldable pub load_state : String → ℕ → Shared p → Option (Shared p × Pc p)
  load_state name a s = elim (lookup a s.heap) [
    | none ↦ none
    | some tw ↦
        if eqb tw.state topic_state_joining
        then some (s, finished none (some (already_joining name)))
        else some (s, settled a)
  ]

  unfoldable pub load_topic : ℕ → Shared p → Option (Shared p × Pc p)
  load_topic a s = elim (lookup a s.heap) [
    | none ↦ none
    | some tw ↦ some (s, finished tw.topic none)
  ]

  -- `joiningTopic`: a new wrapper, also where another call has put one.
  unfoldable pub mark : String → Shared p → Option (Shared p × Pc p)
  mark name s =
      if s.locked
      then none
      else some (
        record s {
          names = insert name s.fresh s.names;
          heap = insert s.fresh (joining_wrapper p) s.heap;
          fresh = suc s.fresh;
        },
        marked,
      )

  unfoldable pub ask_join : String → Shared p → Option (Shared p × Pc p)
  ask_join name s =
      let (w, r) = join name (topic_opts cfg name) s.world in
      elim r [
        | err e ↦ some (record s { world = w }, finished none (some e))
        | ok t ↦ some (record s { world = w }, upgrading t)
      ]

  -- `upgradeTopic` as far as the compare-and-swap, and its other write.
  unfoldable pub swap_state : String → p.Topic → Shared p → Option (Shared p × Pc p)
  swap_state name t s = if s.locked then none else elim (lookup name s.names) [
    | none ↦ some (s, registering t)
    | some a ↦ elim (lookup a s.heap) [
      | none ↦ none
      | some tw ↦
          if eqb tw.state topic_state_joining
          then some (
            record s {
              heap = insert a (record tw { state = topic_state_joined }) s.heap;
              locked = true;
            },
            setting a t,
          )
          else some (s, registering t)
    ]
  ]

  unfoldable pub set_topic : String → ℕ → p.Topic → Shared p → Option (Shared p × Pc p)
  set_topic name a t s = elim (lookup a s.heap) [
    | none ↦ none
    | some tw ↦ some (
      record s {
        names = insert name a s.names;
        heap = insert a (record tw { topic = some t }) s.heap;
        locked = false;
      },
      registering t,
    )
  ]

  unfoldable pub ask_validator : String → p.Topic → Shared p → Option (Shared p × Pc p)
  ask_validator name t s = elim (validator_opts cfg name) [
    | none ↦ some (s, finished (some t) none)
    | some opts ↦
        let (w, e) = register_topic_validator name opts s.world in
        some (record s { world = w }, finished (some t) e)
  ]

  -- The next step of a call for a topic; `none` where it waits for the lock or has returned.
  unfoldable pub move : String → Shared p → Pc p → Option (Shared p × Pc p)
  move name s looking = look name s
  move name s (found a) = load_state name a s
  move name s missing = mark name s
  move name s (settled a) = load_topic a s
  move name s marked = ask_join name s
  move name s (upgrading t) = swap_state name t s
  move name s (setting a t) = set_topic name a t s
  move name s (registering t) = ask_validator name t s
  move name s (finished t e) = none

  -- A call goes on alone, for at most so many steps.
  unfoldable pub run : ℕ → String → Shared p → Pc p → Shared p × Pc p
  run zero name s pc = (s, pc)
  run (suc n) name s pc = elim (move name s pc) [
    | none ↦ (s, pc)
    | some (s', pc') ↦ run n name s' pc'
  ]

  pub data Reach (topic_of : ℕ → String) (r : System p) : System p → Type 0 where
    here : Reach topic_of r r
    next :
        {s : System p} {t : Shared p} {pc : Pc p}
        → Reach topic_of r s
        → (i : ℕ) → move (topic_of i) s.shared (s.calls i) ≡ some (t, pc)
        → Reach topic_of r (record { shared = t; calls = go_on i pc s.calls })
