-- ===== src/Api/Answers.antt =====
-- Where the results of `PushWait` come from.
use p2pmq.Base.{
  ℕ, zero, suc, ◌≡◌, refl, String, List, [], ◌∷◌, Option, none, some, eqb, Bool-cases, Option-cases,
  ◌⊎◌, inl, inr, arith, sym, ◌∙◌, ap, string_key, nat_key,
}
use mathlib.Core.Path.{subst}
use p2pmq.Base.Dict.{lookup, insert, lookup-insert}
use p2pmq.Router.Queue.{pick}
use p2pmq.Proto.{ValidationResult, nil, accept, ignore, reject}
use p2pmq.Api.Outbox.{Message, Outbox}
use p2pmq.Api.ValRouter.{
  Verdicts, Phase, added, pushed, waiting, leaving, returned, Waiter, ValRouter, new_val_router,
  push_wait, find, resolve_to, resolve, stream, Op, pushing, enqueuing, awaiting, expiring,
  leaving_call, finding, resolving_at, taking, listening, hanging_up, sending_at, step, Reach, here,
  next, convert_result,
}
use p2pmq.Api.Moves.{result, IsMove, enqueue-IsMove, await-IsMove, expire-IsMove, leave-IsMove}
use p2pmq.Api.Linked.{mid_of, IsLinked, Reach-IsLinked, step-IsLinked, move-IsKept}

-- A receiver has read the channel of a call, to send this result.
abbrev Carries : {V : Type 0} → ℕ → V → List (Option ℕ × V) → Type 0
Carries n res [] = ⊥
Carries n res ((c, x) ∷ l) = ((c ≡ some n) × (x ≡ res)) ⊎ Carries n res l

pick-Carries :
    {V : Type 0} (n i : ℕ) (res : V) (l rest : List (Option ℕ × V)) (x : Option ℕ × V)
    → pick i l ≡ some (x, rest)
    → ((x.0 ≡ some n) × (x.1 ≡ res)) ⊎ Carries n res rest
    → Carries n res l
unfolding pick
pick-Carries n i res [] rest x e h = absurd (ground arith)
pick-Carries n zero res (y ∷ ys) rest x e h = ground arith
pick-Carries n (suc i) res (y ∷ ys) rest x e h = elim (Option-cases (pick i ys)) [
  | inl z ↦ absurd (ground arith)
  | inr ((y', ys'), z) ↦ ground (arith, pick-Carries n i res ys ys' y' z)
]

module _ (v : Verdicts) where
  -- What libp2p is to be told when a client sends this.
  abbrev pub Means : ValidationResult → v.Verdict → Type 0
  Means accept res = res ≡ v.validation_accept
  Means reject res = res ≡ v.validation_reject
  Means ignore res = res ≡ v.validation_ignore
  Means nil res = res ≡ v.validation_ignore

  convert_result-Means : (a : ValidationResult) → Means a (convert_result v a)
  unfolding convert_result
  convert_result-Means accept = refl
  convert_result-Means reject = refl
  convert_result-Means ignore = refl
  convert_result-Means nil = refl

  -- Among what clients sent is this result for this message id.
  abbrev pub Answered : String → v.Verdict → List (String × ValidationResult) → Type 0
  Answered mid res [] = ⊥
  Answered mid res ((j, a) ∷ l) = ((j ≡ mid) × Means a res) ⊎ Answered mid res l

  abbrev pub sent_in : Op v → List (String × ValidationResult) → List (String × ValidationResult)
  sent_in (finding mid a) l = (mid, a) ∷ l
  sent_in _ l = l

  -- What clients sent in a run, with the message ids.
  abbrev pub sent_by : {r s : ValRouter v} → Reach v r s → List (String × ValidationResult)
  sent_by here = []
  sent_by (next k o e) = sent_in o (sent_by k)

  pub record IsTold (answers : List (String × ValidationResult)) (r : ValRouter v) : Type 0 where
    linked : IsLinked v r
    carried :
        (n : ℕ) (res : v.Verdict)
        → Carries n res r.resolving
        → (mid : String) × (mid_of v n r ≡ some mid) × Answered mid res answers
    pub told :
        (n : ℕ) (mid : String) (res : v.Verdict)
        → mid_of v n r ≡ some mid
        → result v n r ≡ some res
        → (res ≡ v.validation_ignore) ⊎ Answered mid res answers

  move-IsTold :
      {answers : List (String × ValidationResult)} (k : ℕ) (s t : ValRouter v)
      → IsLinked v t
      → IsMove v k s t
      → IsTold answers s
      → IsTold answers t
  move-IsTold k s t l m h = record {
    linked = l;
    carried = λ n res c.
        let (mid, mine, answered) = h.carried n res (rw m.same_resolving at c) in
        (mid, (move-IsKept v k s t m).mids n ∙ mine, answered);
    told = λ n mid res mine e.
        (ground (
          arith,
          h.told n mid res,
          (move-IsKept v k s t m).mids n,
          m.allowed res,
          m.found,
          m.moved,
          lookup-insert k n (record m.waiter { phase = m.phase }) s.waiters,
        ));
  }

  stream-IsTold :
      {answers : List (String × ValidationResult)} (o : Option Outbox) (s t : ValRouter v)
      → stream v o s ≡ some t
      → IsTold answers s
      → IsTold answers t
  unfolding stream
  stream-IsTold none s t e h = absurd (ground arith)
  stream-IsTold {answers} (some o) s t e h = subst (IsTold answers) (ground arith) (told_with o)
    where
      told_with : (o : Outbox) → IsTold answers (record s { outbox = o })
      told_with o = record {
        linked = record { fresh = h.linked.fresh; linked = h.linked.linked };
        carried = h.carried;
        told = h.told;
      }

  push-IsTold :
      {answers : List (String × ValidationResult)} (m : Message) (s : ValRouter v)
      → IsLinked v (push_wait v m s)
      → IsTold answers s
      → IsTold answers (push_wait v m s)
  unfolding push_wait
  push-IsTold m s l h = record {
    linked = l;
    carried = λ n res c.
        let (mid, mine, answered) = h.carried n res c in
        (
          mid,
          ground (
            arith,
            h.linked.fresh n mid,
            lookup-insert s.calls n (record { message = m; phase = added }) s.waiters,
          ),
          answered,
        );
    told = λ n mid res mine e.
        h.told n mid res
          (ground
            (arith, lookup-insert s.calls n (record { message = m; phase = added }) s.waiters))
          (ground
            (arith, lookup-insert s.calls n (record { message = m; phase = added }) s.waiters));
  }

  heard-IsTold :
      {answers : List (String × ValidationResult)} (x : String × ValidationResult) (s : ValRouter v)
      → IsTold answers s
      → IsTold (x ∷ answers) s
  heard-IsTold x s h = record {
    linked = h.linked;
    carried = λ n res c. let (j, mine, answered) = h.carried n res c in (j, mine, inr answered);
    told = λ n j res mine e. elim (h.told n j res mine e) [
      | inl i ↦ inl i
      | inr answered ↦ inr (inr answered)
    ];
  }

  read-IsTold :
      {answers : List (String × ValidationResult)} (mid : String) (a : ValidationResult)
      (c : Option ℕ) (s : ValRouter v)
      → lookup mid s.results ≡ some c
      → IsTold answers s
      → IsTold ((mid, a) ∷ answers) (record s { resolving = (c, convert_result v a) ∷ s.resolving })
  read-IsTold mid a c s z h =
      let k = heard-IsTold (mid, a) s h in
      record {
        linked = record { fresh = h.linked.fresh; linked = h.linked.linked };
        carried = λ n res f. elim f [
          | inl (same, e) ↦ (
            mid,
            h.linked.linked mid n (z ∙ ap some same),
            inl (refl, subst (Means a) e (convert_result-Means a)),
          )
          | inr old ↦ k.carried n res old
        ];
        told = k.told;
      }

  pub find-IsTold :
      {answers : List (String × ValidationResult)} (mid : String) (a : ValidationResult)
      (s : ValRouter v)
      → IsTold answers s
      → IsTold ((mid, a) ∷ answers) (find v mid a s)
  unfolding find
  find-IsTold mid a s h = elim (Option-cases (lookup mid s.results)) [
    | inl z ↦ rw (z, find) (heard-IsTold (mid, a) s h)
    | inr (c, z) ↦ rw (z, find) (read-IsTold mid a c s z h)
  ]

  fewer-IsTold :
      {answers : List (String × ValidationResult)} (i : ℕ) (s : ValRouter v)
      (rest : List (Option ℕ × v.Verdict)) (x : Option ℕ × v.Verdict)
      → pick i s.resolving ≡ some (x, rest)
      → IsTold answers s
      → IsTold answers (record s { resolving = rest })
  fewer-IsTold i s rest x z h = record {
    linked = record { fresh = h.linked.fresh; linked = h.linked.linked };
    carried = λ n res c. h.carried n res (pick-Carries n i res s.resolving rest x z (inr c));
    told = h.told;
  }

  inform-IsTold :
      {answers : List (String × ValidationResult)} (k : ℕ) (w : Waiter v.Verdict) (res : v.Verdict)
      (s : ValRouter v)
      → lookup k s.waiters ≡ some w
      → Answered w.message.message_id res answers
      → IsTold answers s
      → IsTold answers
          (record s { waiters = insert k (record w { phase = leaving res }) s.waiters })
  inform-IsTold {answers} k w res s f answered h = record {
    linked = record {
      fresh = λ n mid mine. h.linked.fresh n mid (sym (same n) ∙ mine);
      linked = λ mid n e. same n ∙ h.linked.linked mid n e;
    };
    carried = λ n x c. let (mid, mine, sent) = h.carried n x c in (mid, same n ∙ mine, sent);
    told = λ n mid x mine e. elim (Bool-cases (eqb k n)) [
      | inr other ↦
          h.told n mid x (sym (same n) ∙ mine)
            (ground (arith, lookup-insert k n (record w { phase = leaving res }) s.waiters))
      | inl this ↦ inr (
          subst (λ j. Answered j x answers)
            (ground (arith, f, lookup-insert k n (record w { phase = leaving res }) s.waiters))
            (subst (λ y. Answered w.message.message_id y answers)
              (ground (arith, lookup-insert k n (record w { phase = leaving res }) s.waiters))
              answered))
    ];
  }
    where
      same :
          (n : ℕ)
          → mid_of v n
              (record s { waiters = insert k (record w { phase = leaving res }) s.waiters })
            ≡ mid_of v n s
      same n = ground (arith, f, lookup-insert k n (record w { phase = leaving res }) s.waiters)

  resolve_to-IsTold :
      {answers : List (String × ValidationResult)} (c : Option ℕ) (res : v.Verdict)
      (s : ValRouter v)
      → ((n : ℕ)
          → c ≡ some n
          → (mid : String) × (mid_of v n s ≡ some mid) × Answered mid res answers)
      → IsTold answers s
      → IsTold answers (resolve_to v c res s)
  unfolding resolve_to
  resolve_to-IsTold none res s a h = h
  resolve_to-IsTold {answers} (some k) res s a h = go (lookup k s.waiters) refl
    where
      go :
          (o : Option (Waiter v.Verdict))
          → lookup k s.waiters ≡ o
          → IsTold answers (resolve_to v (some k) res s)
      go none f = rw (f, resolve_to) h
      go (some w) f = at_phase w f w.phase refl
        where
          at_phase :
              (w : Waiter v.Verdict)
              → lookup k s.waiters ≡ some w
              → (p : Phase v.Verdict) → w.phase ≡ p
              → IsTold answers (resolve_to v (some k) res s)
          at_phase w f waiting p =
              let (mid, mine, answered) = a k refl in
              rw (f, resolve_to)
                (rw p (
                  inform-IsTold k w res s f
                    (subst (λ j. Answered j res answers) (ground (arith, mine, f)) answered) h))
          at_phase w f added p = rw (f, resolve_to) (rw p h)
          at_phase w f pushed p = rw (f, resolve_to) (rw p h)
          at_phase w f (leaving x) p = rw (f, resolve_to) (rw p h)
          at_phase w f (returned x) p = rw (f, resolve_to) (rw p h)

  resolve-IsTold :
      {answers : List (String × ValidationResult)} (i : ℕ) (s t : ValRouter v)
      → resolve v i s ≡ some t
      → IsTold answers s
      → IsTold answers t
  unfolding resolve
  resolve-IsTold {answers} i s t e h = elim (Option-cases (pick i s.resolving)) [
    | inl z ↦ absurd (ground arith)
    | inr (((c, res), rest), z) ↦ subst (IsTold answers) (ground arith) (
        resolve_to-IsTold c res (record s { resolving = rest })
          (λ n same.
            h.carried n res (pick-Carries n i res s.resolving rest (c, res) z (inl (same, refl))))
          (fewer-IsTold i s rest (c, res) z h))
  ]

  pub step-IsTold :
      {answers : List (String × ValidationResult)} (o : Op v) (s t : ValRouter v)
      → step v o s ≡ some t
      → IsTold answers s
      → IsTold (sent_in o answers) t
  unfolding step
  step-IsTold {answers} (pushing m) s t e h =
      subst (IsTold answers) (ground arith)
        (push-IsTold m s (step-IsLinked v (pushing m) s (push_wait v m s) refl h.linked) h)
  step-IsTold (enqueuing k) s t e h =
      move-IsTold k s t (step-IsLinked v (enqueuing k) s t e h.linked) (enqueue-IsMove v k s t e) h
  step-IsTold (awaiting k) s t e h =
      move-IsTold k s t (step-IsLinked v (awaiting k) s t e h.linked) (await-IsMove v k s t e) h
  step-IsTold (expiring k) s t e h =
      move-IsTold k s t (step-IsLinked v (expiring k) s t e h.linked) (expire-IsMove v k s t e) h
  step-IsTold (leaving_call k) s t e h =
      move-IsTold k s t (step-IsLinked v (leaving_call k) s t e h.linked) (leave-IsMove v k s t e) h
  step-IsTold {answers} (finding mid a) s t e h =
      subst (IsTold ((mid, a) ∷ answers)) (ground arith) (find-IsTold mid a s h)
  step-IsTold (resolving_at i) s t e h = resolve-IsTold i s t e h
  step-IsTold taking s t e h = stream-IsTold _ s t e h
  step-IsTold listening s t e h = stream-IsTold _ s t e h
  step-IsTold hanging_up s t e h = stream-IsTold _ s t e h
  step-IsTold (sending_at i works) s t e h = stream-IsTold _ s t e h

  pub new-IsTold : (q_size : ℕ) → IsTold [] (new_val_router v q_size)
  unfolding new_val_router lookup
  new-IsTold q_size = record {
    linked = Reach-IsLinked v q_size here;
    carried = λ n res c. absurd c;
    told = λ n mid res mine e. absurd (ground arith);
  }

  Reach-IsTold :
      (q_size : ℕ) {s : ValRouter v} (k : Reach v (new_val_router v q_size) s)
      → IsTold (sent_by k) s
  Reach-IsTold q_size here = new-IsTold q_size
  Reach-IsTold q_size (next {s = s} {t = t} k o e) = step-IsTold o s t e (Reach-IsTold q_size k)

  -- In any order of steps from a new validation router, a result of a call of PushWait is ignore,
  -- or the steps include one in which a client sends, for the message id of that call, accept,
  -- where the result is accept, or reject, where it is reject; for a client's ignore and nil the
  -- result is ignore.
  pub push_wait-Answered :
      (q_size n : ℕ) (mid : String) (res : v.Verdict) {s : ValRouter v}
      (k : Reach v (new_val_router v q_size) s)
      → mid_of v n s ≡ some mid
      → result v n s ≡ some res
      → (res ≡ v.validation_ignore) ⊎ Answered mid res (sent_by k)
  push_wait-Answered q_size n mid res k mine e = (Reach-IsTold q_size k).told n mid res mine e
