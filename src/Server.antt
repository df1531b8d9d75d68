-- ===== src/Server.antt =====
-- pkg/remote/server.go: the receive loop of one gRPC stream. What the stream's Recv returns is a list,
-- the handler a function on a state of its own that also tells its error.
pub mod Guards
use actor_cluster.Prelude.{ℕ, String, List, [], ◌∷◌, Option, none, some}
use actor_cluster.Prelude.Tests.{ltb, nat_beq, if◌then◌else◌}
use actor_cluster.Prelude.Lists.{length}
use actor_cluster.Message.{
  BatchRequest, err_bad_request, err_transport_closed, err_batch_too_large, err_deadline_exceeded,
  err_internal,
}

abbrev pub default_max_batch_size : ℕ
default_max_batch_size = 256

-- The limit that NewServer keeps. A negative one is given here as 0: it is replaced likewise.
abbrev pub new_server_limit : ℕ → ℕ
new_server_limit max = if nat_beq max 0 then default_max_batch_size else max

-- The gRPC codes that the package uses.
pub data Code : Type 0 where
  canceled : Code
  invalid_argument : Code
  deadline_exceeded : Code
  internal : Code
  unavailable : Code

-- The error of a handler: one with a gRPC status, the context's two, or another.
pub data HandlerError : Type 0 where
  with_status : Code → String → HandlerError
  context_canceled : HandlerError
  context_deadline_exceeded : HandlerError
  plain : String → HandlerError

-- status.Error, or the nil of a stream that has ended.
pub data Ending : Type 0 where
  ended : Ending
  failed : Code → String → Ending

unfoldable pub normalize_handler_error : HandlerError → Ending
normalize_handler_error (with_status code msg) = failed code msg
normalize_handler_error context_canceled = failed canceled err_transport_closed
normalize_handler_error context_deadline_exceeded = failed deadline_exceeded err_deadline_exceeded
normalize_handler_error (plain _) = failed internal err_internal

-- What a call of Recv returns; `none` is a nil batch.
pub data Received : Type 0 where
  batch : Option BatchRequest → Received
  eof : Received
  recv_error : Received

-- The state of the handler, the batches that it was given, and how the stream ended: `none` while
-- the loop waits for the next batch.
pub record Served (S : Type 0) : Type 0 where
  pub state : S
  pub given : List BatchRequest
  pub ending : Option Ending

module _ {S : Type 0} (handle_batch : S → BatchRequest → S × Option HandlerError) (max : ℕ) where
  abbrev end_with : S → Ending → Served S
  end_with s e = record { state = s; given = []; ending = some e }

  abbrev given_first : BatchRequest → Served S → Served S
  given_first b v = record v { given = b ∷ v.given }

  -- The test of the handler's error: `rest` is the loop on what follows, from the handler's state.
  abbrev after_handler : BatchRequest → S × Option HandlerError → (S → Served S) → Served S
  after_handler b (s, none) rest = given_first b (rest s)
  after_handler b (s, some e) rest = given_first b (end_with s (normalize_handler_error e))

  unfoldable pub stream_messages : S → List Received → Served S
  unfolding normalize_handler_error
  stream_messages s [] = record { state = s; given = []; ending = none }
  stream_messages s (eof ∷ more) = end_with s ended
  stream_messages s (recv_error ∷ more) = end_with s (failed unavailable err_transport_closed)
  stream_messages s (batch none ∷ more) = end_with s (failed invalid_argument err_bad_request)
  stream_messages s (batch (some b) ∷ more) =
      let rest = λ (s' : S). stream_messages s' more in
      if ltb max (length b.envelopes)
      then end_with s (failed invalid_argument err_batch_too_large)
      else after_handler b (handle_batch s b) rest
