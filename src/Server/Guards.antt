-- ===== src/Server/Guards.antt =====
-- What the handler is given by the receive loop.
use actor_cluster.Prelude.{
  ℕ, ◌≤◌, ◌≡◌, refl, ap, inl, inr, List, [], ◌∷◌, ◌++◌, Option, none, some, arith,
}
use actor_cluster.Prelude.Tests.{ltb, Bool-cases}
use actor_cluster.Prelude.Lists.{length}
use actor_cluster.Message.{BatchRequest}
use actor_cluster.Server.{
  HandlerError, Received, batch, eof, recv_error, after_handler, stream_messages,
}

-- The batches of what was received.
abbrev pub batches : List Received → List BatchRequest
batches [] = []
batches (batch (some b) ∷ more) = b ∷ batches more
batches (_ ∷ more) = batches more

abbrev pub Within : ℕ → List BatchRequest → Type 0
Within max [] = Unit {0}
Within max (b ∷ bs) = (length b.envelopes ≤ max) × Within max bs

-- The batches given are a first part of those received, and none is over the limit.
abbrev pub Guarded : ℕ → List BatchRequest → List Received → Type 0
Guarded max given received =
    ((later : List BatchRequest) × (batches received ≡ given ++ later)) × Within max given

module _ {S : Type 0} (handle_batch : S → BatchRequest → S × Option HandlerError) (max : ℕ) where
  after_handler-Guarded :
      (b : BatchRequest) (r : S × Option HandlerError) (more : List Received)
      → length b.envelopes ≤ max
      → ((s : S) → Guarded max (stream_messages handle_batch max s more).given more)
      → Guarded max
          (after_handler handle_batch max b r
            (λ (s : S). stream_messages handle_batch max s more)).given
          (batch (some b) ∷ more)
  after_handler-Guarded b (s, none) more small ih =
      let ((later, split), within) = ih s in
      ((later, ap (λ (bs : List BatchRequest). b ∷ bs) split), (small, within))
  after_handler-Guarded b (s, some e) more small ih = ((batches more, refl), (small, tt))

  -- Whatever a stream brings, the handler is given the batches in the order of their arrival, from
  -- the first on and without a gap, and none that is over the limit.
  pub given-Guarded :
      (s : S) (received : List Received)
      → let given = (stream_messages handle_batch max s received).given in
        ((later : List BatchRequest) × (batches received ≡ given ++ later)) × Within max given
  unfolding stream_messages
  given-Guarded s [] = (([], refl), tt)
  given-Guarded s (eof ∷ more) = ((batches more, refl), tt)
  given-Guarded s (recv_error ∷ more) = ((batches more, refl), tt)
  given-Guarded s (batch none ∷ more) = ((batches more, refl), tt)
  given-Guarded s (batch (some b) ∷ more) = elim (Bool-cases (ltb max (length b.envelopes))) [
    | inl big ↦ rw big ((b ∷ batches more, refl), tt)
    | inr small ↦ rw small (
        after_handler-Guarded b (handle_batch s b) more (ground arith)
          (λ s'. given-Guarded s' more))
  ]
