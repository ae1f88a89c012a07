-- ===== src/Kafka/Drain.antt =====
-- What a drain returns, for every behaviour of the broker.
use ctv_attribution_pipeline.Base.{
  ℕ, zero, suc, ◌+◌, ◌≡◌, ◌≤◌, refl, ap, ◌∙◌, true, false, not, ◌&&◌, Option, some, List, [], ◌∷◌,
  ◌++◌, ◌==◌, if◌then◌else◌, mem, Result, ok, err, drain_stalled, consume_error, arith, Bool-cases,
  inl, inr,
}
use mathlib.Core.List.{append_assoc, append-nil}
use ctv_attribution_pipeline.Kafka.{
  Poll, nothing, consumer_error, partition_eof, message, DrainState, is_empty, goes_on, discard,
  on_poll, finish, drain_loop, drain_messages,
}

-- the messages and the ends of partitions in what was polled
unfoldable pub messages_of : List Poll → List ℕ
messages_of [] = []
messages_of (message m ∷ polls) = m ∷ messages_of polls
messages_of (nothing ∷ polls) = messages_of polls
messages_of (consumer_error ∷ polls) = messages_of polls
messages_of (partition_eof p ∷ polls) = messages_of polls

unfoldable pub ended : List Poll → List ℕ
ended [] = []
ended (partition_eof p ∷ polls) = p ∷ ended polls
ended (nothing ∷ polls) = ended polls
ended (consumer_error ∷ polls) = ended polls
ended (message m ∷ polls) = ended polls

-- A complete read: the messages are those of a prefix of what was polled, all of them, in order, and
-- every partition reached its end within that prefix.
pub record Complete (parts : List ℕ) (polls : List Poll) (messages : List ℕ) : Type 0 where
  pub used : List Poll
  pub left : List Poll
  pub splits : polls ≡ used ++ left
  pub all_messages : messages ≡ messages_of used
  pub all_ended : (p : ℕ) → mem p parts ≡ true → mem p (ended used) ≡ true

-- the same from the middle of a run
abbrev Rest : DrainState → List Poll → List ℕ → Type 0
Rest s polls messages =
    (used : List Poll) × (left : List Poll) × (polls ≡ used ++ left)
    × (messages ≡ s.messages ++ messages_of used)
    × ((p : ℕ) → mem p s.pending ≡ true → mem p (ended used) ≡ true)

mem-discard : (p q : ℕ) (ps : List ℕ) → mem q (discard p ps) ≡ (not (q == p) && mem q ps)
mem-discard p q [] = ground arith
mem-discard p q (r ∷ ps) = ground (arith, mem-discard p q ps)

at_end :
    (ps sm ms : List ℕ)
    → (if is_empty ps then ok sm else err drain_stalled) ≡ ok ms
    → (ms ≡ sm ++ []) × ((p : ℕ) → mem p ps ≡ true → mem p [] ≡ true)
at_end [] sm ms h = (cc (append-nil sm, h), λ p k. k)
at_end (q ∷ ps) sm ms h = absurd cc

finish-Rest :
    (s : DrainState) (polls : List Poll) (ms : List ℕ) → finish s ≡ ok ms → Rest s polls ms
unfolding messages_of ended
finish-Rest s polls ms h = let (e, f) = at_end s.pending s.messages ms h in ([], polls, refl, e, f)

-- one more poll in front of what is left
after_nothing :
    (s : DrainState) (polls : List Poll) (ms : List ℕ)
    → Rest (record s { empty = s.empty + 1 }) polls ms
    → Rest s (nothing ∷ polls) ms
unfolding messages_of ended
after_nothing s polls ms (used, left, e, m, f) =
    (nothing ∷ used, left, ap (λ l. nothing ∷ l) e, m, f)

after_eof :
    (s : DrainState) (q : ℕ) (polls : List Poll) (ms : List ℕ)
    → Rest (record s { empty = 0; pending = discard q s.pending }) polls ms
    → Rest s (partition_eof q ∷ polls) ms
unfolding messages_of ended
after_eof s q polls ms (used, left, e, m, f) = (
  partition_eof q ∷ used,
  left,
  ap (λ l. partition_eof q ∷ l) e,
  m,
  λ p k. ground (arith, f p, mem-discard q p s.pending, k),
)

after_message :
    (s : DrainState) (x : ℕ) (polls : List Poll) (ms : List ℕ)
    → Rest (record s { empty = 0; messages = s.messages ++ x ∷ [] }) polls ms
    → Rest s (message x ∷ polls) ms
unfolding messages_of ended
after_message s x polls ms (used, left, e, m, f) = (
  message x ∷ used,
  left,
  ap (λ l. message x ∷ l) e,
  m ∙ append_assoc s.messages (x ∷ []) (messages_of used),
  f,
)

some-ok : {A : Type 0} {a b : A} → Path (Option A) (some a) (some b) → a ≡ b
some-ok h = cc

drain_loop-Rest :
    (polls : List Poll) (s : DrainState) (ms : List ℕ)
    → drain_loop polls s ≡ some (ok ms)
    → Rest s polls ms
unfolding drain_loop on_poll
drain_loop-Rest [] s ms h = elim (Bool-cases (goes_on s)) [
  | inl e ↦ absurd (cc (rw e at h))
  | inr e ↦ finish-Rest s [] ms (some-ok (rw e at h))
]
drain_loop-Rest (nothing ∷ polls) s ms h = elim (Bool-cases (goes_on s)) [
  | inl e ↦ after_nothing s polls ms (drain_loop-Rest polls _ ms (rw e at h))
  | inr e ↦ finish-Rest s _ ms (some-ok (rw e at h))
]
drain_loop-Rest (partition_eof q ∷ polls) s ms h = elim (Bool-cases (goes_on s)) [
  | inl e ↦ after_eof s q polls ms (drain_loop-Rest polls _ ms (rw e at h))
  | inr e ↦ finish-Rest s _ ms (some-ok (rw e at h))
]
drain_loop-Rest (message x ∷ polls) s ms h = elim (Bool-cases (goes_on s)) [
  | inl e ↦ after_message s x polls ms (drain_loop-Rest polls _ ms (rw e at h))
  | inr e ↦ finish-Rest s _ ms (some-ok (rw e at h))
]
drain_loop-Rest (consumer_error ∷ polls) s ms h = elim (Bool-cases (goes_on s)) [
  | inl e ↦ absurd (cc (rw e at h))
  | inr e ↦ finish-Rest s _ ms (some-ok (rw e at h))
]

-- A drain that returns messages is never a truncated read: they are all the messages of a prefix of
-- what was polled, in order, and every partition reached its end within that prefix.
pub drain_messages-Complete :
    (parts : List ℕ) (polls : List Poll) (messages : List ℕ)
    → drain_messages parts polls ≡ some (ok messages)
    → Complete parts polls messages
unfolding drain_messages
drain_messages-Complete parts polls messages h =
    let (used, left, e, m, f) =
      drain_loop-Rest polls (record { messages = []; pending = parts; empty = 0 }) messages h in
    record { used = used; left = left; splits = e; all_messages = m; all_ended = f }

-- silence from the broker
unfoldable pub silence : ℕ → List Poll
silence zero = []
silence (suc n) = nothing ∷ silence n

abbrev Ends : Option (Result (List ℕ)) → Type 0
Ends o = (r : Result (List ℕ)) × (o ≡ some r)

stops : (s : DrainState) → 50 ≤ s.empty → goes_on s ≡ false
stops s h = elim (Bool-cases (is_empty s.pending)) [
  | inl e ↦ rw e refl
  | inr e ↦ rw e (ground arith)
]

silent : (n : ℕ) (s : DrainState) → 50 ≤ s.empty + n → Ends (drain_loop (silence n) s)
unfolding drain_loop on_poll silence
silent zero s h = (finish s, rw (stops s (omega (arith, h))) refl)
silent (suc n) s h = elim (Bool-cases (goes_on s)) [
  | inl e ↦ rw e (silent n (record s { empty = s.empty + 1 }) (omega (arith, h)))
  | inr e ↦ (finish s, rw e refl)
]

ends : (polls : List Poll) (s : DrainState) → Ends (drain_loop (polls ++ silence 50) s)
unfolding drain_loop on_poll
ends [] s = silent 50 s (omega arith)
ends (nothing ∷ polls) s = elim (Bool-cases (goes_on s)) [
  | inl e ↦ rw e (ends polls _)
  | inr e ↦ (finish s, rw e refl)
]
ends (partition_eof q ∷ polls) s = elim (Bool-cases (goes_on s)) [
  | inl e ↦ rw e (ends polls _)
  | inr e ↦ (finish s, rw e refl)
]
ends (message x ∷ polls) s = elim (Bool-cases (goes_on s)) [
  | inl e ↦ rw e (ends polls _)
  | inr e ↦ (finish s, rw e refl)
]
ends (consumer_error ∷ polls) s = elim (Bool-cases (goes_on s)) [
  | inl e ↦ (err consume_error, rw e refl)
  | inr e ↦ (finish s, rw e refl)
]

-- A drain ends once the broker falls silent: after any polls, fifty empty ones in a row give a result.
pub drain_messages-Ends :
    (parts : List ℕ) (polls : List Poll)
    → (r : Result (List ℕ)) × (drain_messages parts (polls ++ silence 50) ≡ some r)
unfolding drain_messages
drain_messages-Ends parts polls = ends polls _
