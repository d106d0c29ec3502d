-- ===== src/Api/Moves.antt =====
-- What the steps of a single call of `PushWait` change.
use p2pmq.Base.{
  ℕ, ◌≡◌, refl, Option, none, some, Option-cases, ◌⊎◌, inl, inr, arith, string_key, nat_key,
}
use p2pmq.Base.Dict.{lookup, insert}
use p2pmq.Api.Outbox.{try_send}
use p2pmq.Api.ValRouter.{
  Verdicts, Phase, added, pushed, waiting, leaving, returned, Waiter, ValRouter, enqueue, await,
  expire, cancel, leave,
}

module _ (v : Verdicts) where
  -- The result of a call that has one.
  abbrev pub result_of : Phase v.Verdict → Option v.Verdict
  result_of added = none
  result_of pushed = none
  result_of waiting = none
  result_of (leaving res) = some res
  result_of (returned res) = some res

  abbrev pub result : ℕ → ValRouter v → Option v.Verdict
  result n r = elim (lookup n r.waiters) [ none ↦ none | some w ↦ result_of w.phase ]

  -- What the steps of a single call do: it goes to a phase with no new result but ignore, and the map
  -- is left as it is or loses a channel.
  pub record IsMove (k : ℕ) (s t : ValRouter v) : Type 0 where
    pub waiter : Waiter v.Verdict
    pub phase : Phase v.Verdict
    pub found : lookup k s.waiters ≡ some waiter
    pub moved : t.waiters ≡ insert k (record waiter { phase = phase }) s.waiters
    pub allowed :
        (res : v.Verdict)
        → result_of phase ≡ some res
        → (res ≡ v.validation_ignore) ⊎ (result_of waiter.phase ≡ some res)
    pub mapped :
        (t.results ≡ s.results) ⊎ (t.results ≡ cancel v waiter.message.message_id s.results)
    pub same_resolving : t.resolving ≡ s.resolving
    pub same_calls : t.calls ≡ s.calls

  pub enqueue-IsMove : (k : ℕ) (s t : ValRouter v) → enqueue v k s ≡ some t → IsMove k s t
  unfolding enqueue
  enqueue-IsMove k s t e = elim (Option-cases (lookup k s.waiters)) [
    | inl n ↦ absurd (ground arith)
    | inr (w, f) ↦ elim (Option-cases (try_send w.message s.outbox)) [
      | inl full ↦ record {
        waiter = w;
        phase = leaving v.validation_ignore;
        found = f;
        moved = ground arith;
        allowed = λ res g. inl (ground arith);
        mapped = inl (ground arith);
        same_resolving = ground arith;
        same_calls = ground arith;
      }
      | inr (o, given) ↦ record {
        waiter = w;
        phase = pushed;
        found = f;
        moved = ground arith;
        allowed = λ res g. absurd (ground arith);
        mapped = inl (ground arith);
        same_resolving = ground arith;
        same_calls = ground arith;
      }
    ]
  ]

  pub await-IsMove : (k : ℕ) (s t : ValRouter v) → await v k s ≡ some t → IsMove k s t
  unfolding await
  await-IsMove k s t e = elim (Option-cases (lookup k s.waiters)) [
    | inl n ↦ absurd (ground arith)
    | inr (w, f) ↦ record {
      waiter = w;
      phase = waiting;
      found = f;
      moved = ground arith;
      allowed = λ res g. absurd (ground arith);
      mapped = inl (ground arith);
      same_resolving = ground arith;
      same_calls = ground arith;
    }
  ]

  pub expire-IsMove : (k : ℕ) (s t : ValRouter v) → expire v k s ≡ some t → IsMove k s t
  unfolding expire
  expire-IsMove k s t e = elim (Option-cases (lookup k s.waiters)) [
    | inl n ↦ absurd (ground arith)
    | inr (w, f) ↦ record {
      waiter = w;
      phase = leaving v.validation_ignore;
      found = f;
      moved = ground arith;
      allowed = λ res g. inl (ground arith);
      mapped = inl (ground arith);
      same_resolving = ground arith;
      same_calls = ground arith;
    }
  ]

  pub leave-IsMove : (k : ℕ) (s t : ValRouter v) → leave v k s ≡ some t → IsMove k s t
  unfolding leave
  leave-IsMove k s t e = elim (Option-cases (lookup k s.waiters)) [
    | inl n ↦ absurd (ground arith)
    | inr (w, f) ↦ go w f w.phase refl
  ]
    where
      go :
          (w : Waiter v.Verdict)
          → lookup k s.waiters ≡ some w
          → (p : Phase v.Verdict) → w.phase ≡ p
          → IsMove k s t
      go w f added p = absurd (ground arith)
      go w f pushed p = absurd (ground arith)
      go w f waiting p = absurd (ground arith)
      go w f (returned res) p = absurd (ground arith)
      go w f (leaving res) p = record {
        waiter = w;
        phase = returned res;
        found = f;
        moved = ground arith;
        allowed = λ x g. inr (ground arith);
        mapped = inr (ground arith);
        same_resolving = ground arith;
        same_calls = ground arith;
      }
