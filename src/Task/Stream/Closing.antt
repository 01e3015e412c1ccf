-- ===== src/Task/Stream/Closing.antt =====
-- What dropping one end of a stream does to the other.
use polyengine.Base.{ℕ, true, Option, none, some, List, [], ◌∷◌, ◌++◌, ◌≡◌, ok}
use polyengine.Cabi.Float.{Floats}
use polyengine.Cabi.Value.{Host}
use polyengine.Task.Buffer.{Contexts}
use polyengine.Task.Stream.{
  CopyResult, Side, readable, writable, Notice, done, Pending, Shared, outcome, notify_ends,
  notify_dropped, drop, read, write,
}

-- The notices that an operation which is parked is owed by a drop.
pub owed : Option Pending → List Notice
owed none = []
owed (some p) = done p.side CopyResult.dropped ∷ []

-- All that a drop by `dropping` notifies.
abbrev pub told : Shared → Option Side → List Notice
told s dropping =
    owed s.pending
    ++ (notify_ends s.has_readable_end s.has_writable_end dropping ++ notify_dropped s.observers)

module _ {fl : Floats} (host : Host fl) (resource_of : ℕ → ℕ) where
  -- Every operation on `s` is told that the stream is dropped, and leaves all as it is.
  pub Closed : Shared → Type 0
  Closed s =
      (s.dropped ≡ true)
      × (s.pending ≡ none)
      × (s.observers ≡ none)
      × ((contexts : Contexts host) (a : Pending)
          → read host resource_of contexts s a
            ≡ ok (outcome host contexts s a (done readable CopyResult.dropped ∷ [])))
      × ((contexts : Contexts host) (a : Pending)
          → write host resource_of contexts s a
            ≡ ok (outcome host contexts s a (done writable CopyResult.dropped ∷ [])))
      × ((dropping : Option Side) → drop s dropping ≡ ok (s, []))
