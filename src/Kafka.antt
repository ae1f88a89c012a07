-- ===== src/Kafka.antt =====
-- common/kafka.py: the drain of a topic from its start to its end. The broker is not code of the
-- repository: what `poll` returns, call after call, is a list, a parameter. A run that uses the whole
-- list up without ending has no result yet.
pub mod Drain
use ctv_attribution_pipeline.Base.{
  ℕ, ◌+◌, Bool, true, false, not, ◌&&◌, Option, none, some, List, [], ◌∷◌, ◌++◌, map, ◌==◌, ltb,
  if◌then◌else◌, filter, Result, ok, err, consume_error, drain_stalled, map_ok,
}

-- what `consumer.poll(0.1)` returns: nothing, the end of a partition, another error, or a message
pub data Poll : Type 0 where
  nothing consumer_error : Poll
  partition_eof : ℕ → Poll
  message : ℕ → Poll

abbrev empty_poll_limit : ℕ
empty_poll_limit = 50

-- `messages`, `pending` and `empty`
pub record DrainState : Type 0 where
  pub messages : List ℕ
  pub pending : List ℕ
  pub empty : ℕ

abbrev pub is_empty : List ℕ → Bool
is_empty [] = true
is_empty (p ∷ ps) = false

-- the condition of the loop
abbrev pub goes_on : DrainState → Bool
goes_on s = not (is_empty s.pending) && ltb s.empty empty_poll_limit

-- `pending.discard(partition)`
abbrev pub discard : ℕ → List ℕ → List ℕ
discard p = filter (λ q. not (q == p))

-- one turn of the loop
unfoldable pub on_poll : Poll → DrainState → Result DrainState
on_poll nothing s = ok (record s { empty = s.empty + 1 })
on_poll (partition_eof p) s = ok (record s { empty = 0; pending = discard p s.pending })
on_poll consumer_error s = err consume_error
on_poll (message m) s = ok (record s { empty = 0; messages = s.messages ++ m ∷ [] })

-- after the loop
abbrev pub finish : DrainState → Result (List ℕ)
finish s = if is_empty s.pending then ok s.messages else err drain_stalled

abbrev pub resume :
    Result DrainState → (DrainState → Option (Result (List ℕ))) → Option (Result (List ℕ))
resume (ok s) k = k s
resume (err e) k = some (err e)

unfoldable pub drain_loop : List Poll → DrainState → Option (Result (List ℕ))
drain_loop [] s = if goes_on s then none else some (finish s)
drain_loop (poll ∷ polls) s =
    let rest = resume (on_poll poll s) (drain_loop polls) in
    if goes_on s then rest else some (finish s)

-- `set(parts)`, then the loop
unfoldable pub drain_messages : List ℕ → List Poll → Option (Result (List ℕ))
drain_messages parts polls = drain_loop polls (record { messages = []; pending = parts; empty = 0 })

-- `drain`: the messages' values
unfoldable pub drain : (ℕ → ℕ) → List ℕ → List Poll → Option (Result (List ℕ))
drain value parts polls = elim (drain_messages parts polls) [
  | none ↦ none
  | some r ↦ some (map_ok (map value) r)
]
