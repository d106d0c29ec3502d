-- ===== src/Controller/Joining/Alone.antt =====
-- A call of `tryJoin` that runs alone does what the call as one step does.
use p2pmq.Base.{
  ℕ, zero, suc, true, false, String, Option, none, some, ◌≡◌, refl, sym, inl, inr, eqb, string_key,
  nat_key, Bool-cases, Option-cases, Result-cases, arith,
}
use p2pmq.Base.Dict.{lookup, insert, lookup-insert_self}
use p2pmq.Commons.Pubsub.{PubsubConfig}
use p2pmq.Controller.Libp2p.{Libp2p}
use p2pmq.Controller.Topics.{
  TopicWrapper, topic_state_joining, topic_state_joined, joining_wrapper, joining_topic,
  upgrade_topic, get_topic_wrapper,
}
use p2pmq.Controller.Pubsub.{
  Controller, topic_opts, validator_opts, already_joining, try_join, join_new, register_validator,
}
use p2pmq.Controller.Joining.{
  Shared, Pc, looking, found, missing, settled, marked, upgrading, registering, finished,
  ask_validator, move, run,
}
use p2pmq.Controller.Join.{upgrade-joining}
use p2pmq.Controller.Joining.Moves.{
  looking_new, looking_known, found_joining, found_settled, settled_topic, missing_marks,
  marked_fails, marked_joins, upgrading_swaps, setting_sets, marked_at,
}
use mathlib.Core.Path.{subst}
use p2pmq.Controller.Joining.Represents.{
  Represents, resolve, allocated-Represents, written-Represents,
}

module _ (p : Libp2p) (cfg : PubsubConfig) where
  -- A call has returned what `tryJoin` returns, and left what it leaves.
  abbrev Agrees : Shared p × Pc p → Controller p × Option p.Topic × Option String → Type 0
  Agrees (s, pc) (c, t, e) = (pc ≡ finished t e) × Represents p s c

  pub run-step :
      (n : ℕ) (name : String) (s s' : Shared p) (pc pc' : Pc p)
      → move p cfg name s pc ≡ some (s', pc')
      → run p cfg (suc n) name s pc ≡ run p cfg n name s' pc'
  unfolding run
  run-step n name s s' pc pc' e = rw (e, run)

  Represents-world :
      (s : Shared p) (c : Controller p) (w : p.World)
      → Represents p s c
      → Represents p (record s { world = w }) (record c { world = w })
  Represents-world s c w h = record {
    free = h.free;
    world = refl;
    entries = h.entries;
    present = h.present;
    below = h.below;
    apart = h.apart;
  }

  -- A controller on the same libp2p.
  abbrev view : Shared p → Controller p → Controller p
  view s c = record c { world = s.world }

  registering-Agrees :
      (name : String) (t : p.Topic) (s : Shared p) (c : Controller p)
      → Represents p s (view s c)
      → Agrees (run p cfg 1 name s (registering t)) (register_validator p cfg name t (view s c))
  unfolding run move ask_validator register_validator
  registering-Agrees name t s c h = elim (Option-cases (validator_opts cfg name)) [
    | inl e ↦ rw (e, run, register_validator) (refl, h)
    | inr (o, e) ↦ rw (e, run, register_validator) (refl, Represents-world s (view s c) _ h)
  ]

  abbrev joined : Option p.Topic → TopicWrapper p
  joined t = record (joining_wrapper p) { state = topic_state_joined; topic = t }

  module _ (name : String) (t : p.Topic) (w : p.World) (s : Shared p) where
    abbrev swapped_at : Shared p
    swapped_at = record (marked_at p cfg name s w) {
      heap = insert s.fresh (joined none) (marked_at p cfg name s w).heap;
      locked = true;
    }

    abbrev set_at : Shared p
    set_at = record (marked_at p cfg name s w) {
      names = insert name s.fresh (marked_at p cfg name s w).names;
      heap = insert s.fresh (joined (some t)) swapped_at.heap;
      locked = false;
    }

  upgrading-Agrees :
      (name : String) (t : p.Topic) (s : Shared p) (c : Controller p) (w : p.World)
      → Represents p s c
      → Agrees (run p cfg 3 name (marked_at p cfg name s w) (upgrading t)) (
          register_validator p cfg name t (record c {
            topics = (upgrade_topic p name t (joining_topic p name c.topics)).0;
            world = w;
          }))
  upgrading-Agrees name t s c w h =
      rw
        (
          run-step 2 name _ _ _ _ (
              upgrading_swaps p cfg name (marked_at p cfg name s w) s.fresh (joining_wrapper p) t
                h.free (lookup-insert_self name s.fresh s.names)
                (lookup-insert_self s.fresh (joining_wrapper p) s.heap) refl),
          run-step 1 name _ _ _ _ (
              setting_sets p cfg name (swapped_at name t w s) s.fresh (joined none) t
                (lookup-insert_self s.fresh (joined none) (marked_at p cfg name s w).heap)),
          upgrade-joining p cfg name t c.topics,
        )
        (registering-Agrees name t (set_at name t w s)
          (record c {
            topics = insert name (joined (some t)) (insert name (joining_wrapper p) c.topics);
          })
          (written-Represents p (marked_at p cfg name s w)
            (record c { topics = insert name (joining_wrapper p) c.topics; world = w })
            (Represents-world _ _ w (allocated-Represents p s c h name (joining_wrapper p))) name
            s.fresh (lookup-insert_self name s.fresh s.names) (joined none) (joined (some t))))

  pub run_finished :
      (n : ℕ) (name : String) (s : Shared p) (t : Option p.Topic) (e : Option String)
      → run p cfg n name s (finished t e) ≡ (s, finished t e)
  unfolding run move
  run_finished zero name s t e = refl
  run_finished (suc n) name s t e = refl

  new-Agrees :
      (name : String) (s : Shared p) (c : Controller p)
      → Represents p s (view s c)
      → Agrees
          (run p cfg 4 name (marked_at p cfg name s s.world) marked)
          (join_new p cfg name (view s c))
  unfolding join_new joining_topic
  new-Agrees name s c h = elim (Result-cases (p.join name (topic_opts cfg name) s.world).1) [
    | inr (x, e) ↦
        rw
          (
            run-step 3 name _ _ _ _ (marked_fails p cfg name (marked_at p cfg name s s.world) x e),
            run_finished 3 name _ none (some x),
            e,
            join_new,
          )
          (
            refl,
            Represents-world _ _ _ (allocated-Represents p s (view s c) h name (joining_wrapper p)),
          )
    | inl (t, e) ↦
        rw
          (
            run-step 3 name _ _ _ _ (marked_joins p cfg name (marked_at p cfg name s s.world) t e),
            e,
            join_new,
          )
          (upgrading-Agrees name t s (view s c) _ h)
  ]

  -- what a look at the map leads to
  view-Agrees :
      (name : String) (s : Shared p) (c : Controller p)
      → Represents p s (view s c)
      → Agrees (run p cfg 6 name s looking) (try_join p cfg name (view s c))
  unfolding try_join get_topic_wrapper resolve
  view-Agrees name s c h = elim (Option-cases (lookup name s.names)) [
    | inl e ↦
        rw
          (
            run-step 5 name s s looking missing (looking_new p cfg name s h.free e),
            run-step 4 name s _ missing marked (missing_marks p cfg name s h.free),
            fresh e,
            try_join,
          )
          (new-Agrees name s c h)
    | inr (a, e) ↦ elim (Option-cases (lookup a s.heap)) [
      | inl none_at ↦ absurd (h.present name a e none_at)
      | inr (tw, at) ↦ elim (Bool-cases (eqb tw.state topic_state_joining)) [
        | inl b ↦
            rw
              (
                run-step 5 name s s looking (found a) (looking_known p cfg name s a h.free e),
                run-step 4 name s s (found a) (finished none (some (already_joining name)))
                    (found_joining p cfg name s a tw at b),
                run_finished 4 name s none (some (already_joining name)),
                known a tw e at,
                try_join,
                b,
              )
              (refl, h)
        | inr b ↦
            rw
              (
                run-step 5 name s s looking (found a) (looking_known p cfg name s a h.free e),
                run-step 4 name s s (found a) (settled a) (found_settled p cfg name s a tw at b),
                run-step 3 name s s (settled a) (finished tw.topic none)
                    (settled_topic p cfg name s a tw at),
                run_finished 3 name s tw.topic none,
                known a tw e at,
                try_join,
                b,
              )
              (refl, h)
      ]
    ]
  ]
    where
      fresh : lookup name s.names ≡ none → lookup name c.topics ≡ none
      fresh e = ground (arith, h.entries name)

      known :
          (a : ℕ) (tw : TopicWrapper p)
          → lookup name s.names ≡ some a
          → lookup a s.heap ≡ some tw
          → lookup name c.topics ≡ some tw
      known a tw e at = ground (arith, h.entries name)

  -- A call of tryJoin that runs alone on a heap of wrappers that represents a controller, each
  -- wrapper under one name and no lock held, ends after at most six steps with the topic and the
  -- error that try_join returns on that controller, and the heap then represents the controller
  -- that try_join leaves.
  pub run-try_join :
      (name : String) (s : Shared p) (c : Controller p)
      → Represents p s c
      → ((run p cfg 6 name s looking).1
          ≡ finished (try_join p cfg name c).1 (try_join p cfg name c).2)
        × Represents p (run p cfg 6 name s looking).0 (try_join p cfg name c).0
  run-try_join name s c h =
      subst
        (λ (w : p.World).
          Agrees (run p cfg 6 name s looking) (try_join p cfg name (record c { world = w })))
        h.world
        (view-Agrees name s c
          (subst (λ (w : p.World). Represents p s (record c { world = w })) (sym h.world) h))
