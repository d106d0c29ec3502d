-- ===== src/Api/Client/Verifying.antt =====
-- What a verifier sends for the messages that it receives.
use p2pmq.Base.{
  ◌≤◌, ◌<◌, ◌≡◌, refl, true, false, List, [], ◌∷◌, ◌++◌, map, none, some, Option-cases, inl, inr,
  length, length-append, arith, sym, ap, ◌∙◌,
}
use mathlib.Core.List.{append-nil, append_assoc}
use mathlib.Core.Path.{subst}
use p2pmq.Api.Client.Verifier as V

abbrev pub with_result : {M R : Type 0} → (M → R) → M → R × M
with_result validator m = (validator m, m)

-- The results of a verifier are those of its validator, for the messages that it received, in their
-- order; one received message at most waits, or was lost when the stream ended.
pub record IsVerifying {M R : Type 0} (validator : M → R) (c : V.ClientVerifier M R) : Type 0 where
  pub ahead : List M
  pub order : (c.taken ++ c.val_q) ++ ahead ≡ c.received
  pub one : length ahead ≤ 1
  pub held : (m : M) → c.held ≡ some m → ahead ≡ m ∷ []
  pub free : c.receiving ≡ true → c.held ≡ none → ahead ≡ []
  pub room : length c.val_q ≤ V.val_q_size
  pub verdicts : c.sent ≡ map (with_result validator) c.taken

module _ {M R : Type 0} (validator : M → R) where
  map-append :
      (xs : List M) (m : M)
      → map (with_result validator) (xs ++ (m ∷ []))
        ≡ map (with_result validator) xs ++ ((validator m, m) ∷ [])
  map-append [] m = refl
  map-append (x ∷ xs) m = ap (λ l. (validator x, x) ∷ l) (map-append xs m)

  received-IsVerifying :
      (m : M) (c : V.ClientVerifier M R)
      → c.held ≡ none
      → c.receiving ≡ true
      → IsVerifying validator c
      → IsVerifying validator (record c { held = some m; received = c.received ++ (m ∷ []) })
  received-IsVerifying m c no_held receiving h = record {
    ahead = m ∷ [];
    order =
        ap (λ l. l ++ (m ∷ []))
          (sym (append-nil (c.taken ++ c.val_q))
            ∙ ap (λ l. (c.taken ++ c.val_q) ++ l) (sym (h.free receiving no_held))
            ∙ h.order);
    one = omega arith;
    held = λ x e. ground arith;
    free = λ e f. absurd (ground arith);
    room = h.room;
    verdicts = h.verdicts;
  }

  enqueued-IsVerifying :
      (m : M) (c : V.ClientVerifier M R)
      → c.held ≡ some m
      → length c.val_q < V.val_q_size
      → IsVerifying validator c
      → IsVerifying validator (record c { held = none; val_q = c.val_q ++ (m ∷ []) })
  enqueued-IsVerifying m c is_held fits h = record {
    ahead = [];
    order =
        append-nil (c.taken ++ (c.val_q ++ (m ∷ [])))
        ∙ sym (append_assoc c.taken c.val_q (m ∷ []))
        ∙ ap (λ l. (c.taken ++ c.val_q) ++ l) (sym (h.held m is_held))
        ∙ h.order;
    one = omega arith;
    held = λ x e. absurd (ground arith);
    free = λ e f. refl;
    room = omega (arith, length-append c.val_q (m ∷ []));
    verdicts = h.verdicts;
  }

  closed-IsVerifying :
      (c : V.ClientVerifier M R)
      → IsVerifying validator c
      → IsVerifying validator (record c { receiving = false; held = none })
  closed-IsVerifying c h = record {
    ahead = h.ahead;
    order = h.order;
    one = h.one;
    held = λ x e. absurd (ground arith);
    free = λ e f. absurd (ground arith);
    room = h.room;
    verdicts = h.verdicts;
  }

  processed-IsVerifying :
      (m : M) (rest : List M) (c : V.ClientVerifier M R)
      → c.val_q ≡ m ∷ rest
      → IsVerifying validator c
      → IsVerifying validator (record c {
        val_q = rest;
        taken = c.taken ++ (m ∷ []);
        sent = c.sent ++ ((validator m, m) ∷ []);
      })
  processed-IsVerifying m rest c e h = record {
    ahead = h.ahead;
    order =
        ap (λ l. l ++ h.ahead) (append_assoc c.taken (m ∷ []) rest ∙ ap (λ l. c.taken ++ l) (sym e))
        ∙ h.order;
    one = h.one;
    held = h.held;
    free = h.free;
    room = ground (arith, h.room);
    verdicts = ap (λ l. l ++ ((validator m, m) ∷ [])) h.verdicts ∙ sym (map-append c.taken m);
  }

  stopped-IsVerifying :
      (c : V.ClientVerifier M R)
      → IsVerifying validator c
      → IsVerifying validator (record c { looping = false })
  stopped-IsVerifying c h = record {
    ahead = h.ahead;
    order = h.order;
    one = h.one;
    held = h.held;
    free = h.free;
    room = h.room;
    verdicts = h.verdicts;
  }

  step-IsVerifying :
      (o : V.Op M) (c d : V.ClientVerifier M R)
      → V.step validator o c ≡ some d
      → IsVerifying validator c
      → IsVerifying validator d
  unfolding V.step V.recv V.enqueue V.close V.process_next V.done
  step-IsVerifying (V.receives m) c d e h = elim (Option-cases c.held) [
    | inr (x, z) ↦ absurd (ground arith)
    | inl z ↦
        subst (IsVerifying validator) (ground arith) (received-IsVerifying m c z (ground arith) h)
  ]
  step-IsVerifying V.enqueues c d e h = elim (Option-cases c.held) [
    | inl z ↦ absurd (ground arith)
    | inr (m, z) ↦
        subst (IsVerifying validator) (ground arith) (enqueued-IsVerifying m c z (ground arith) h)
  ]
  step-IsVerifying V.closes c d e h =
      subst (IsVerifying validator) (ground arith) (closed-IsVerifying c h)
  step-IsVerifying V.processes c d e h = go c.val_q refl
    where
      go : (q : List M) → c.val_q ≡ q → IsVerifying validator d
      go [] f = subst (IsVerifying validator) (ground arith) (stopped-IsVerifying c h)
      go (m ∷ rest) f =
          subst (IsVerifying validator) (ground arith) (processed-IsVerifying m rest c f h)
  step-IsVerifying V.stops c d e h =
      subst (IsVerifying validator) (ground arith) (stopped-IsVerifying c h)

  -- In any order of steps of a verifier, the results that it sends are its validator's for the
  -- messages that its loop took, each once and in the order received; the received messages are
  -- those taken, those in the queue of one, and at most one more, which waits for room or was lost
  -- when the stream ended.
  pub verifier-IsVerifying :
      {c : V.ClientVerifier M R} → V.Reach validator V.start c → IsVerifying validator c
  unfolding V.start
  verifier-IsVerifying V.here = record {
    ahead = [];
    order = refl;
    one = omega arith;
    held = λ m e. absurd (ground arith);
    free = λ e f. refl;
    room = omega arith;
    verdicts = refl;
  }
  verifier-IsVerifying (V.next {s = s} {t = t} k o e) =
      step-IsVerifying o s t e (verifier-IsVerifying k)
