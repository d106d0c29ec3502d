-- ===== src/Api/Client/Delivered.antt =====
-- What the steps of a validation router do to the messages that it has delivered.
use p2pmq.Base.{
  ℕ, zero, suc, ◌≡◌, refl, Bool, true, false, List, [], ◌∷◌, ◌++◌, some, Option-cases, ◌⊎◌, inl,
  inr, arith, length, ltb, string_key, nat_key,
}
use mathlib.Core.Path.{subst}
use p2pmq.Base.Dict.{lookup}
use p2pmq.Router.Queue.{pick}
use p2pmq.Api.Outbox.{Message, Outbox, take_next, try_send, listen, hang_up, send_next}
use p2pmq.Api.ValRouter.{
  Verdicts, ValRouter, find, stream, push_wait, enqueue, await, expire, leave, resolve, resolve_to,
  Op, pushing, enqueuing, awaiting, expiring, leaving_call, finding, resolving_at, taking,
  listening, hanging_up, sending_at, step,
}

module _ (v : Verdicts) where
  -- What a step of the server does to what it delivered and was answered.
  abbrev pub IsGrown : Outbox → Outbox → Type 0
  IsGrown a b =
      (b.delivered ≡ a.delivered) ⊎ ((m : Message) × (b.delivered ≡ a.delivered ++ (m ∷ [])))

  IsGrown-to : (a b c : Outbox) → b ≡ c → IsGrown a b → IsGrown a c
  IsGrown-to a b c e h = subst (IsGrown a) e h

  take_next-IsGrown : (a b : Outbox) → take_next a ≡ some b → IsGrown a b
  unfolding take_next
  take_next-IsGrown a b e = go a.idle refl a.q refl
    where
      go : (n : ℕ) → a.idle ≡ n → (q : List Message) → a.q ≡ q → IsGrown a b
      go zero i q f = absurd (ground arith)
      go (suc n) i [] f = absurd (ground arith)
      go (suc n) i (m ∷ ms) f = inl (ground arith)

  try_send-IsGrown : (m : Message) (a b : Outbox) → try_send m a ≡ some b → IsGrown a b
  unfolding try_send
  try_send-IsGrown m a b e = go (ltb (length a.q) a.q_size) refl a.q refl
    where
      go :
          (fits : Bool)
          → ltb (length a.q) a.q_size ≡ fits
          → (q : List Message) → a.q ≡ q
          → IsGrown a b
      go true f q g = inl (ground arith)
      go false f (x ∷ xs) g = absurd (ground arith)
      go false f [] g =
          take_next-IsGrown (record a { q = m ∷ []; accepted = a.accepted ++ (m ∷ []) }) b
            (ground arith)

  send_next-IsGrown :
      (i : ℕ) (works : Bool) (a b : Outbox) → send_next i works a ≡ some b → IsGrown a b
  unfolding send_next
  send_next-IsGrown i works a b e = elim (Option-cases (pick i a.sending)) [
    | inl z ↦ absurd (ground arith)
    | inr ((m, others), z) ↦ sent works e m others z
  ]
    where
      sent :
          (works : Bool)
          → send_next i works a ≡ some b
          → (m : Message) (others : List Message) → pick i a.sending ≡ some (m, others)
          → IsGrown a b
      sent true e m others z = inr (m, ground arith)
      sent false e m others z = inl (ground arith)

  enqueue-IsGrown : (n : ℕ) (s t : ValRouter v) → enqueue v n s ≡ some t → IsGrown s.outbox t.outbox
  unfolding enqueue
  enqueue-IsGrown n s t e = elim (Option-cases (lookup n s.waiters)) [
    | inl z ↦ absurd (ground arith)
    | inr (w, z) ↦ elim (Option-cases (try_send w.message s.outbox)) [
      | inl full ↦ inl (ground arith)
      | inr (o, f) ↦
          IsGrown-to s.outbox o t.outbox (ground arith) (try_send-IsGrown w.message s.outbox o f)
    ]
  ]

  pub step-IsGrown :
      (o : Op v) (s t : ValRouter v) → step v o s ≡ some t → IsGrown s.outbox t.outbox
  unfolding step push_wait await expire leave find resolve resolve_to stream hang_up listen
  step-IsGrown (pushing m) s t e = inl (ground arith)
  step-IsGrown (enqueuing n) s t e = enqueue-IsGrown n s t e
  step-IsGrown (awaiting n) s t e = inl (ground arith)
  step-IsGrown (expiring n) s t e = inl (ground arith)
  step-IsGrown (leaving_call n) s t e = inl (ground arith)
  step-IsGrown (finding mid res) s t e = inl (ground arith)
  step-IsGrown (resolving_at i) s t e = inl (ground arith)
  step-IsGrown taking s t e = elim (Option-cases (take_next s.outbox)) [
    | inl z ↦ absurd (ground arith)
    | inr (b, z) ↦ IsGrown-to s.outbox b t.outbox (ground arith) (take_next-IsGrown s.outbox b z)
  ]
  step-IsGrown listening s t e = inl (ground arith)
  step-IsGrown hanging_up s t e = inl (ground arith)
  step-IsGrown (sending_at i works) s t e = elim (Option-cases (send_next i works s.outbox)) [
    | inl z ↦ absurd (ground arith)
    | inr (b, z) ↦
        IsGrown-to s.outbox b t.outbox (ground arith) (send_next-IsGrown i works s.outbox b z)
  ]
