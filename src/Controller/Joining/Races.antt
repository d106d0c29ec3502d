-- ===== src/Controller/Joining/Races.antt =====
-- Two calls of `tryJoin` for a new topic that run at the same time.
use p2pmq.Base.{
  ℕ, true, false, String, none, some, ok, err, ◌≡◌, ◌≢◌, refl, string_key, nat_key, arith,
}
use p2pmq.Base.Dict.{lookup, insert, lookup-insert_self}
use p2pmq.Commons.Pubsub.{PubsubConfig}
use p2pmq.Controller.Libp2p.{Libp2p}
use p2pmq.Controller.Topics.{TopicWrapper, topic_state_joined, joining_wrapper}
use p2pmq.Controller.Pubsub.{topic_opts, already_joining}
use p2pmq.Controller.Joining.{
  Shared, Pc, looking, missing, upgrading, setting, registering, finished, move, run, System, Reach,
  here, next, go_on,
}
use p2pmq.Controller.Joining.Moves.{
  looking_new, looking_known, found_joining, found_settled, settled_topic, missing_marks,
  marked_fails, marked_joins, upgrading_swaps, setting_sets, marked_at,
}
use p2pmq.Controller.Joining.Alone.{run-step, run_finished}

module _ (p : Libp2p) (cfg : PubsubConfig) (topic_of : ℕ → String) (r : System p) (i j : ℕ)
    (two : i ≢ j) (name : String) (for_first : topic_of i ≡ name)
    (for_second : topic_of j ≡ name) where
  -- What the two calls can come to: the shared state, and where each of them is.
  pub record Meets (s : Shared p) (a b : Pc p) : Type 0 where
    pub system : System p
    pub reached : Reach p cfg topic_of r system
    pub shared : system.shared ≡ s
    pub first : system.calls i ≡ a
    pub second : system.calls j ≡ b

  first_moves :
      {s s' : Shared p} {a a' b : Pc p}
      → Meets s a b
      → move p cfg name s a ≡ some (s', a')
      → Meets s' a' b
  first_moves {s' = s'} {a' = a'} m e = record {
    system = record { shared = s'; calls = go_on i a' m.system.calls };
    reached = next m.reached i (rw (m.shared, m.first, for_first) e);
    shared = refl;
    first = ground arith;
    second = ground (arith, m.second);
  }

  second_moves :
      {s s' : Shared p} {a b b' : Pc p}
      → Meets s a b
      → move p cfg name s b ≡ some (s', b')
      → Meets s' a b'
  second_moves {s' = s'} {b' = b'} m e = record {
    system = record { shared = s'; calls = go_on j b' m.system.calls };
    reached = next m.reached j (rw (m.shared, m.second, for_second) e);
    shared = refl;
    first = ground (arith, m.first);
    second = ground arith;
  }

  module _ (t : p.Topic) (first_looks : r.calls i ≡ looking) (second_looks : r.calls j ≡ looking)
      (free : r.shared.locked ≡ false) (unknown : lookup name r.shared.names ≡ none)
      (joins : (p.join name (topic_opts cfg name) r.shared.world).1 ≡ ok t) where
    both_look : Meets r.shared looking looking
    both_look = record {
      system = r;
      reached = here;
      shared = refl;
      first = first_looks;
      second = second_looks;
    }

    -- The world after the first join, and the cell that the first call marks and upgrades.
    abbrev joined_world : p.World
    joined_world = (p.join name (topic_opts cfg name) r.shared.world).0

    abbrev joined_state : Shared p
    joined_state = marked_at p cfg name r.shared joined_world

    abbrev half : TopicWrapper p
    half = record (joining_wrapper p) { state = topic_state_joined }

    abbrev swapped_state : Shared p
    swapped_state = record joined_state {
      heap = insert r.shared.fresh half joined_state.heap;
      locked = true;
    }

    abbrev set_state : Shared p
    set_state = record swapped_state {
      names = insert name r.shared.fresh joined_state.names;
      heap = insert r.shared.fresh (record half { topic = some t }) swapped_state.heap;
      locked = false;
    }

    at_name : lookup name joined_state.names ≡ some r.shared.fresh
    at_name = lookup-insert_self name r.shared.fresh r.shared.names

    first_misses : {b : Pc p} → Meets r.shared looking b → Meets r.shared missing b
    first_misses m = first_moves m (looking_new p cfg name r.shared free unknown)

    first_joins : {b : Pc p} → Meets r.shared missing b → Meets joined_state (upgrading t) b
    first_joins m =
        first_moves (first_moves m (missing_marks p cfg name r.shared free))
          (marked_joins p cfg name (marked_at p cfg name r.shared r.shared.world) t joins)

    first_swaps :
        {b : Pc p}
        → Meets joined_state (upgrading t) b
        → Meets swapped_state (setting r.shared.fresh t) b
    first_swaps m = first_moves m (
        upgrading_swaps p cfg name joined_state r.shared.fresh (joining_wrapper p) t free at_name
          (lookup-insert_self r.shared.fresh (joining_wrapper p) r.shared.heap) refl)

    first_sets :
        {b : Pc p}
        → Meets swapped_state (setting r.shared.fresh t) b
        → Meets set_state (registering t) b
    first_sets m = first_moves m (
        setting_sets p cfg name swapped_state r.shared.fresh half t
          (lookup-insert_self r.shared.fresh half joined_state.heap))

    early_look : Meets swapped_state (setting r.shared.fresh t) (finished none none)
    early_look =
        second_moves
          (second_moves
            (first_swaps (
              second_moves (first_joins (first_misses both_look))
                (looking_known p cfg name joined_state r.shared.fresh free at_name)))
            (found_settled p cfg name swapped_state r.shared.fresh half
              (lookup-insert_self r.shared.fresh half joined_state.heap) refl))
          (settled_topic p cfg name swapped_state r.shared.fresh half
            (lookup-insert_self r.shared.fresh half joined_state.heap))

    -- If two calls of tryJoin for one topic that the manager does not know begin while the lock is
    -- free, and libp2p lets the topic be joined, then some order of their steps lets the second
    -- return a nil topic and no error.
    pub early_look_nil :
        (q : System p) × Reach p cfg topic_of r q × (q.calls j ≡ finished none none)
    early_look_nil = (early_look.system, early_look.reached, early_look.second)

    module _ (x : String)
        (refused : (p.join name (topic_opts cfg name) joined_world).1 ≡ err x) where
      -- After the second call has marked the topic again, and was refused.
      abbrev stuck_state : Shared p
      stuck_state =
          marked_at p cfg name set_state (p.join name (topic_opts cfg name) joined_world).0

      late_mark : Meets stuck_state (registering t) (finished none (some x))
      late_mark =
          second_moves
            (second_moves
              (first_sets (
                first_swaps (
                  first_joins (
                    second_moves (first_misses both_look)
                      (looking_new p cfg name r.shared free unknown)))))
              (missing_marks p cfg name set_state refl))
            (marked_fails p cfg name (marked_at p cfg name set_state joined_world) x refused)

      refused_again :
          run p cfg 6 name stuck_state looking
          ≡ (stuck_state, finished none (some (already_joining name)))
      refused_again =
          rw
            (
              run-step p cfg 5 name _ _ _ _ (
                  looking_known p cfg name stuck_state set_state.fresh refl
                    (lookup-insert_self name set_state.fresh set_state.names)),
              run-step p cfg 4 name _ _ _ _ (
                  found_joining p cfg name stuck_state set_state.fresh (joining_wrapper p)
                    (lookup-insert_self set_state.fresh (joining_wrapper p) set_state.heap) refl),
            )
            (run_finished p cfg 4 name stuck_state none (some (already_joining name)))

      -- If two calls of tryJoin for one topic that the manager does not know begin while the lock
      -- is free, and libp2p lets the topic be joined once and refuses it the second time, then
      -- some order of their steps lets the first join the topic and the second return libp2p's
      -- error, after which a further call that runs alone returns "already tring to join topic"
      -- and changes nothing.
      pub late_mark_sticks :
          (q : System p) × Reach p cfg topic_of r q
          × (q.calls i ≡ registering t)
          × (q.calls j ≡ finished none (some x))
          × (run p cfg 6 name q.shared looking
              ≡ (q.shared, finished none (some (already_joining name))))
      late_mark_sticks = (
        late_mark.system,
        late_mark.reached,
        late_mark.first,
        late_mark.second,
        rw late_mark.shared refused_again,
      )
