-- ===== src/Controller/Joining/Owned.antt =====
-- Whose topics the wrappers and the calls hold, and that each step keeps them.
use p2pmq.Base.{
  ℕ, ◌<◌, ◌≤◌, Bool, true, false, String, Option, none, some, ◌≡◌, refl, ◌∙◌, inl, inr, eqb, ◌==◌,
  if◌then◌else◌, string_key, nat_key, Bool-cases, Option-cases, Result-cases, arith,
}
use p2pmq.Base.Dict.{lookup, insert, lookup-insert}
use p2pmq.Commons.Pubsub.{PubsubConfig}
use p2pmq.Controller.Libp2p.{Libp2p, IsNaming}
use p2pmq.Controller.Topics.{TopicWrapper, topic_state_joining, topic_state_joined, joining_wrapper}
use p2pmq.Controller.Pubsub.{topic_opts, validator_opts}
use p2pmq.Controller.Joining.{
  Shared, Pc, looking, found, missing, settled, marked, upgrading, setting, registering, finished,
  look, load_state, load_topic, mark, ask_join, swap_state, set_topic, ask_validator, move,
}

module _ (p : Libp2p) where
  -- The topic that each cell was made for.
  abbrev pub Owner : Type 0
  Owner = ℕ → String

  -- What a call holds is its own topic's.
  abbrev pub Fits : Owner → ℕ → String → Pc p → Type 0
  Fits owner fresh name (found a) = (owner a ≡ name) × (a < fresh)
  Fits owner fresh name (settled a) = (owner a ≡ name) × (a < fresh)
  Fits owner fresh name (upgrading t) = p.topic_name t ≡ name
  Fits owner fresh name (setting a t) = (owner a ≡ name) × (a < fresh) × (p.topic_name t ≡ name)
  Fits owner fresh name (registering t) = p.topic_name t ≡ name
  Fits owner fresh name (finished (some t) e) = p.topic_name t ≡ name
  Fits owner fresh name _ = Unit

  pub record IsOwned (owner : Owner) (s : Shared p) : Type 0 where
    pub named : (n : String) (a : ℕ) → lookup n s.names ≡ some a → (owner a ≡ n) × (a < s.fresh)
    pub cells :
        (a : ℕ) (tw : TopicWrapper p) (t : p.Topic)
        → lookup a s.heap ≡ some tw
        → tw.topic ≡ some t
        → p.topic_name t ≡ owner a

  -- The cells there were keep their owners.
  pub record Extends (owner owner' : Owner) (fresh fresh' : ℕ) : Type 0 where
    pub grows : fresh ≤ fresh'
    pub kept : (a : ℕ) → a < fresh → owner' a ≡ owner a

  pub Extends-Fits :
      (owner owner' : Owner) (fresh fresh' : ℕ) (name : String) (pc : Pc p)
      → Extends owner owner' fresh fresh'
      → Fits owner fresh name pc
      → Fits owner' fresh' name pc
  Extends-Fits o o' f f' name looking x h = tt
  Extends-Fits o o' f f' name missing x h = tt
  Extends-Fits o o' f f' name marked x h = tt
  Extends-Fits o o' f f' name (found a) x h = ground (arith, x.kept a)
  Extends-Fits o o' f f' name (settled a) x h = ground (arith, x.kept a)
  Extends-Fits o o' f f' name (upgrading t) x h = h
  Extends-Fits o o' f f' name (setting a t) x h = ground (arith, x.kept a)
  Extends-Fits o o' f f' name (registering t) x h = h
  Extends-Fits o o' f f' name (finished none e) x h = tt
  Extends-Fits o o' f f' name (finished (some t) e) x h = h

  -- A step's result, with the owners after it.
  pub record Keeps (owner : Owner) (name : String) (s : Shared p) (s' : Shared p) (pc' : Pc p)
      : Type 0 where
    pub owner' : Owner
    pub owned : IsOwned owner' s'
    pub fits : Fits owner' s'.fresh name pc'
    pub extends : Extends owner owner' s.fresh s'.fresh

  same_Keeps :
      (owner : Owner) (name : String) (s s' : Shared p) (pc' : Pc p)
      → s'.fresh ≡ s.fresh
      → IsOwned owner s'
      → Fits owner s.fresh name pc'
      → Keeps owner name s s' pc'
  same_Keeps owner name s s' pc' e h f = record {
    owner' = owner;
    owned = h;
    fits = rw e f;
    extends = record { grows = omega arith; kept = λ a l. refl };
  }

  -- The step is possible only where it keeps them.
  abbrev pub KeepsAfter : Owner → String → Shared p → Option (Shared p × Pc p) → Type 0
  KeepsAfter owner name s none = Unit
  KeepsAfter owner name s (some (s', pc')) = Keeps owner name s s' pc'

  module _ (cfg : PubsubConfig) (naming : IsNaming p) (name : String) (owner : Owner) (s : Shared p)
      (h : IsOwned owner s) where
    -- A step that leaves the map and the heap.
    stays :
        (w : p.World) (pc' : Pc p)
        → Fits owner s.fresh name pc'
        → Keeps owner name s (record s { world = w }) pc'
    stays w pc' f =
        same_Keeps owner name s (record s { world = w }) pc' refl
          (record { named = h.named; cells = h.cells }) f

    -- A step that waits for the lock.
    waits :
        (b : Bool) (r : Option (Shared p × Pc p))
        → KeepsAfter owner name s r
        → KeepsAfter owner name s (if b then none else r)
    waits true r k = tt
    waits false r k = k

    look-Keeps : KeepsAfter owner name s (look p cfg name s)
    unfolding look
    look-Keeps = waits s.locked _ (elim (Option-cases (lookup name s.names)) [
      | inl n ↦ rw n (stays s.world missing tt)
      | inr (a, n) ↦ rw n (stays s.world (found a) (h.named name a n))
    ])

    load_state-Keeps :
        (a : ℕ)
        → Fits owner s.fresh name (found a)
        → KeepsAfter owner name s (load_state p cfg name a s)
    unfolding load_state
    load_state-Keeps a f = elim (Option-cases (lookup a s.heap)) [
      | inl n ↦ rw (n, load_state) tt
      | inr (tw, n) ↦ elim (Bool-cases (eqb tw.state topic_state_joining)) [
        | inl b ↦ rw (n, load_state, b) (stays s.world _ tt)
        | inr b ↦ rw (n, load_state, b) (stays s.world (settled a) f)
      ]
    ]

    load_topic-Keeps :
        (a : ℕ)
        → Fits owner s.fresh name (settled a)
        → KeepsAfter owner name s (load_topic p cfg a s)
    unfolding load_topic
    load_topic-Keeps a f = elim (Option-cases (lookup a s.heap)) [
      | inl n ↦ rw (n, load_topic) tt
      | inr (tw, n) ↦ elim (Option-cases tw.topic) [
        | inl m ↦ rw (n, load_topic) (stays s.world _ (rw m tt))
        | inr (t, m) ↦ rw (n, load_topic) (stays s.world _ (rw m (h.cells a tw t n m ∙ f.0)))
      ]
    ]

    mark-Keeps : KeepsAfter owner name s (mark p cfg name s)
    unfolding mark
    mark-Keeps = waits s.locked _ (record {
      owner' = λ a. if a == s.fresh then name else owner a;
      owned = record {
        named = λ n a e.
            ground (
              arith,
              h.named n a,
              lookup-insert name n s.fresh s.names,
              string_key.same_iff name n,
            );
        cells = λ a tw t e f.
            ground (arith, h.cells a tw t, lookup-insert s.fresh a (joining_wrapper p) s.heap);
      };
      fits = tt;
      extends = record { grows = omega arith; kept = λ a l. ground arith };
    })

    ask_join-Keeps : KeepsAfter owner name s (ask_join p cfg name s)
    unfolding ask_join
    ask_join-Keeps = elim (Result-cases (p.join name (topic_opts cfg name) s.world).1) [
      | inl (t, e) ↦ rw (e, ask_join) (stays _ (upgrading t) (naming.named name _ _ t e))
      | inr (x, e) ↦ rw (e, ask_join) (stays _ _ tt)
    ]

    -- A write to a cell that keeps its topic, or sets one of its owner's.
    writes :
        (a : ℕ) (tw : TopicWrapper p) (b : Bool) (pc' : Pc p)
        → ((t : p.Topic) → tw.topic ≡ some t → p.topic_name t ≡ owner a)
        → Fits owner s.fresh name pc'
        → Keeps owner name s (record s { heap = insert a tw s.heap; locked = b }) pc'
    writes a tw b pc' k f =
        same_Keeps owner name s (record s { heap = insert a tw s.heap; locked = b }) pc' refl
          (record {
            named = h.named;
            cells =
                λ j tw' t e f'. ground (arith, k t, h.cells j tw' t, lookup-insert a j tw s.heap);
          })
          f

    swap_state-Keeps :
        (t : p.Topic)
        → Fits owner s.fresh name (upgrading t)
        → KeepsAfter owner name s (swap_state p cfg name t s)
    unfolding swap_state
    swap_state-Keeps t f = waits s.locked _ (elim (Option-cases (lookup name s.names)) [
      | inl n ↦ rw n (stays s.world (registering t) f)
      | inr (a, n) ↦ elim (Option-cases (lookup a s.heap)) [
        | inl m ↦ rw (n, m) tt
        | inr (tw, m) ↦ elim (Bool-cases (eqb tw.state topic_state_joining)) [
          | inl b ↦
              rw (n, m, b)
                (writes a (record tw { state = topic_state_joined }) true (setting a t)
                  (λ u k. h.cells a tw u m k) ((h.named name a n).0, (h.named name a n).1, f))
          | inr b ↦ rw (n, m, b) (stays s.world (registering t) f)
        ]
      ]
    ])

    set_topic-Keeps :
        (a : ℕ) (t : p.Topic)
        → Fits owner s.fresh name (setting a t)
        → KeepsAfter owner name s (set_topic p cfg name a t s)
    unfolding set_topic
    set_topic-Keeps a t f = elim (Option-cases (lookup a s.heap)) [
      | inl m ↦ rw (m, set_topic) tt
      | inr (tw, m) ↦
          rw (m, set_topic)
            (same_Keeps owner name s _ (registering t) refl
              (record {
                named = λ n b e. ground (
                  arith,
                  f,
                  h.named n b,
                  string_key.same_iff name n,
                  lookup-insert name n a s.names,
                );
                cells = λ b tw' u e k. ground (
                  arith,
                  f,
                  h.cells b tw' u,
                  lookup-insert a b (record tw { topic = some t }) s.heap,
                );
              })
              f.2)
    ]

    ask_validator-Keeps :
        (t : p.Topic)
        → Fits owner s.fresh name (registering t)
        → KeepsAfter owner name s (ask_validator p cfg name t s)
    unfolding ask_validator
    ask_validator-Keeps t f = elim (Option-cases (validator_opts cfg name)) [
      | inl e ↦ rw (e, ask_validator) (stays s.world (finished (some t) none) f)
      | inr (o, e) ↦ rw (e, ask_validator) (stays _ (finished (some t) _) f)
    ]

    pub move-Keeps :
        (pc : Pc p) → Fits owner s.fresh name pc → KeepsAfter owner name s (move p cfg name s pc)
    unfolding move
    move-Keeps looking f = look-Keeps
    move-Keeps (found a) f = load_state-Keeps a f
    move-Keeps missing f = mark-Keeps
    move-Keeps (settled a) f = load_topic-Keeps a f
    move-Keeps marked f = ask_join-Keeps
    move-Keeps (upgrading t) f = swap_state-Keeps t f
    move-Keeps (setting a t) f = set_topic-Keeps a t f
    move-Keeps (registering t) f = ask_validator-Keeps t f
    move-Keeps (finished t e) f = tt
