-- ===== src/Controller/Joining/Moves.antt =====
-- What a step of a call of `tryJoin` does, by what it finds.
use p2pmq.Base.{
  ℕ, suc, false, true, String, none, some, ok, err, ◌≡◌, eqb, string_key, nat_key, arith,
}
use p2pmq.Base.Dict.{lookup, insert}
use p2pmq.Commons.Pubsub.{PubsubConfig}
use p2pmq.Controller.Libp2p.{Libp2p}
use p2pmq.Controller.Topics.{TopicWrapper, topic_state_joining, topic_state_joined, joining_wrapper}
use p2pmq.Controller.Pubsub.{topic_opts, already_joining}
use p2pmq.Controller.Joining.{
  Shared, looking, found, missing, settled, marked, upgrading, setting, registering, finished, look,
  load_state, load_topic, mark, ask_join, swap_state, set_topic, move,
}

module _ (p : Libp2p) (cfg : PubsubConfig) (name : String) (s : Shared p) where
  pub looking_new :
      s.locked ≡ false → lookup name s.names ≡ none → move p cfg name s looking ≡ some (s, missing)
  unfolding move look
  looking_new free e = ground arith

  pub looking_known :
      (a : ℕ)
      → s.locked ≡ false
      → lookup name s.names ≡ some a
      → move p cfg name s looking ≡ some (s, found a)
  unfolding move look
  looking_known a free e = ground arith

  pub found_joining :
      (a : ℕ) (tw : TopicWrapper p)
      → lookup a s.heap ≡ some tw
      → eqb tw.state topic_state_joining ≡ true
      → move p cfg name s (found a) ≡ some (s, finished none (some (already_joining name)))
  unfolding move load_state
  found_joining a tw e b = ground arith

  pub found_settled :
      (a : ℕ) (tw : TopicWrapper p)
      → lookup a s.heap ≡ some tw
      → eqb tw.state topic_state_joining ≡ false
      → move p cfg name s (found a) ≡ some (s, settled a)
  unfolding move load_state
  found_settled a tw e b = ground arith

  pub settled_topic :
      (a : ℕ) (tw : TopicWrapper p)
      → lookup a s.heap ≡ some tw
      → move p cfg name s (settled a) ≡ some (s, finished tw.topic none)
  unfolding move load_topic
  settled_topic a tw e = ground arith

  -- The cell of a topic that `joiningTopic` has just marked.
  abbrev pub marked_at : p.World → Shared p
  marked_at w = record s {
    names = insert name s.fresh s.names;
    heap = insert s.fresh (joining_wrapper p) s.heap;
    fresh = suc s.fresh;
    world = w;
  }

  pub missing_marks :
      s.locked ≡ false → move p cfg name s missing ≡ some (marked_at s.world, marked)
  unfolding move mark
  missing_marks free = ground arith

  pub marked_fails :
      (x : String)
      → (p.join name (topic_opts cfg name) s.world).1 ≡ err x
      → move p cfg name s marked
        ≡ some (
          record s { world = (p.join name (topic_opts cfg name) s.world).0 },
          finished none (some x),
        )
  unfolding move ask_join
  marked_fails x e = rw (e, ask_join)

  pub marked_joins :
      (t : p.Topic)
      → (p.join name (topic_opts cfg name) s.world).1 ≡ ok t
      → move p cfg name s marked
        ≡ some (record s { world = (p.join name (topic_opts cfg name) s.world).0 }, upgrading t)
  unfolding move ask_join
  marked_joins t e = rw (e, ask_join)

  pub upgrading_swaps :
      (a : ℕ) (tw : TopicWrapper p) (t : p.Topic)
      → s.locked ≡ false
      → lookup name s.names ≡ some a
      → lookup a s.heap ≡ some tw
      → eqb tw.state topic_state_joining ≡ true
      → move p cfg name s (upgrading t)
        ≡ some (
          record s {
            heap = insert a (record tw { state = topic_state_joined }) s.heap;
            locked = true;
          },
          setting a t,
        )
  unfolding move swap_state
  upgrading_swaps a tw t free e f b = ground arith

  pub setting_sets :
      (a : ℕ) (tw : TopicWrapper p) (t : p.Topic)
      → lookup a s.heap ≡ some tw
      → move p cfg name s (setting a t)
        ≡ some (
          record s {
            names = insert name a s.names;
            heap = insert a (record tw { topic = some t }) s.heap;
            locked = false;
          },
          registering t,
        )
  unfolding move set_topic
  setting_sets a tw t e = ground arith
