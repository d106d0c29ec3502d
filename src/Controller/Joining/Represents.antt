-- ===== src/Controller/Joining/Represents.antt =====
-- A heap of wrappers with the names that lead to them, and the map of wrappers that it stands for.
use p2pmq.Base.{
  ℕ, suc, ◌<◌, false, String, Option, none, some, ◌≡◌, refl, ◌≢◌, inl, inr, if◌then◌else◌, ◌==◌,
  string_key, nat_key, Option-cases, arith,
}
use p2pmq.Base.Dict.{Dict, lookup, insert, lookup-insert}
use p2pmq.Controller.Libp2p.{Libp2p}
use p2pmq.Controller.Topics.{TopicWrapper}
use p2pmq.Controller.Pubsub.{Controller}
use p2pmq.Controller.Joining.{Shared}

module _ (p : Libp2p) where
  -- The wrapper that a name leads to.
  unfoldable pub resolve :
      String → Dict String ℕ → Dict ℕ (TopicWrapper p) → Option (TopicWrapper p)
  resolve name names heap = elim (lookup name names) [ none ↦ none | some a ↦ lookup a heap ]

  -- No call is at work, and the heap holds the wrappers of the controller, each under one name.
  pub record Represents (s : Shared p) (c : Controller p) : Type 0 where
    pub free : s.locked ≡ false
    pub world : s.world ≡ c.world
    pub entries : (j : String) → lookup j c.topics ≡ resolve j s.names s.heap
    pub present : (j : String) (a : ℕ) → lookup j s.names ≡ some a → lookup a s.heap ≢ none
    pub below : (j : String) (a : ℕ) → lookup j s.names ≡ some a → a < s.fresh
    pub apart :
        (j k : String) (a : ℕ) → lookup j s.names ≡ some a → lookup k s.names ≡ some a → j ≡ k

  module _ (s : Shared p) (c : Controller p) (h : Represents s c) where
    resolve-allocate :
        (name j : String) (tw : TopicWrapper p)
        → resolve j (insert name s.fresh s.names) (insert s.fresh tw s.heap)
          ≡ (if name == j then some tw else resolve j s.names s.heap)
    unfolding resolve
    resolve-allocate name j tw = elim (Option-cases (lookup j s.names)) [
      | inl e ↦
          ground
            (arith, lookup-insert name j s.fresh s.names, lookup-insert s.fresh s.fresh tw s.heap)
      | inr (a, e) ↦ ground (
        arith,
        h.below j a,
        lookup-insert name j s.fresh s.names,
        lookup-insert s.fresh s.fresh tw s.heap,
        lookup-insert s.fresh a tw s.heap,
      )
    ]

    -- A new wrapper.
    abbrev pub allocated : String → TopicWrapper p → Shared p
    allocated name tw = record s {
      names = insert name s.fresh s.names;
      heap = insert s.fresh tw s.heap;
      fresh = suc s.fresh;
    }

    abbrev pub written : String → TopicWrapper p → Controller p
    written name tw = record c { topics = insert name tw c.topics }

    pub allocated-Represents :
        (name : String) (tw : TopicWrapper p) → Represents (allocated name tw) (written name tw)
    allocated-Represents name tw = record {
      free = h.free;
      world = h.world;
      entries = λ j.
          ground (arith, h.entries j, lookup-insert name j tw c.topics, resolve-allocate name j tw);
      present = λ j a e. ground (
        arith,
        h.present j a,
        lookup-insert name j s.fresh s.names,
        lookup-insert s.fresh a tw s.heap,
      );
      below = λ j a e. ground (arith, h.below j a, lookup-insert name j s.fresh s.names);
      apart = λ j k a e f. ground (
        arith,
        h.apart j k a,
        h.below j a,
        h.below k a,
        string_key.same_iff name j,
        string_key.same_iff name k,
        lookup-insert name j s.fresh s.names,
        lookup-insert name k s.fresh s.names,
      );
    }

    module _ (name : String) (a : ℕ) (at_a : lookup name s.names ≡ some a) where
      resolve-write :
          (j : String) (old tw : TopicWrapper p)
          → resolve j (insert name a s.names) (insert a tw (insert a old s.heap))
            ≡ (if name == j then some tw else resolve j s.names s.heap)
      unfolding resolve
      resolve-write j old tw = elim (Option-cases (lookup j s.names)) [
        | inl e ↦
            ground
              (arith, lookup-insert name j a s.names, lookup-insert a a tw (insert a old s.heap))
        | inr (b, e) ↦ ground (
          arith,
          h.apart name j a,
          string_key.same_iff name j,
          lookup-insert name j a s.names,
          lookup-insert a a tw (insert a old s.heap),
          lookup-insert a b tw (insert a old s.heap),
          lookup-insert a b old s.heap,
        )
      ]

      -- Two writes to the wrapper of a name.
      pub written-Represents :
          (old tw : TopicWrapper p)
          → Represents
              (record s {
                names = insert name a s.names;
                heap = insert a tw (insert a old s.heap);
                locked = false;
              })
              (written name tw)
      written-Represents old tw = record {
        free = refl;
        world = h.world;
        entries = λ j.
            ground (arith, h.entries j, lookup-insert name j tw c.topics, resolve-write j old tw);
        present = λ j b e. ground (
          arith,
          h.present j b,
          lookup-insert name j a s.names,
          lookup-insert a b tw (insert a old s.heap),
          lookup-insert a b old s.heap,
        );
        below =
            λ j b e. ground (arith, h.below j b, h.below name a, lookup-insert name j a s.names);
        apart = λ j k b e f. ground (
          arith,
          h.apart j k b,
          h.apart name k a,
          h.apart j name a,
          string_key.same_iff name j,
          string_key.same_iff name k,
          lookup-insert name j a s.names,
          lookup-insert name k a s.names,
        );
      }
