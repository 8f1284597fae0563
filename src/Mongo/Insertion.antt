-- ===== src/Mongo/Insertion.antt =====
-- pumps/mongo.go, pumps/graph_mongo.go, pumps/mcp_mongo.go: the goroutines of `WriteData`, each of which
-- inserts a set and sends the outcome, and the loop that receives as many outcomes as there are sets.
pub mod Reported
pub mod Progress
use tyk_pump.Base.{
  ℕ, zero, suc, ◌+◌, ◌<◌, ◌≡◌, Bool, true, false, List, [], ◌∷◌, ◌++◌, map, any, Option, none, some,
  Text, length, if◌then◌else◌,
}

-- What `Insert` returns, and what is sent: nil or an error.
abbrev pub Outcome : Type 0
Outcome = Option Text

-- Where a goroutine stands.
pub data Writer : Type 0 where
  inserting : Outcome → Writer
  sending : Outcome → Writer
  sending_again : Writer
  finished : Writer

-- The loop that receives, with the rounds that are left, or what `WriteData` has returned.
pub data Reader : Type 0 where
  reading : ℕ → Reader
  returned : Outcome → Reader

pub record State : Type 0 where
  pub writers : List Writer
  pub channel : List Outcome
  pub reader : Reader

-- An error ends the loop.
unfoldable pub after_receive : ℕ → Outcome → Reader
after_receive k none = reading k
after_receive k (some e) = returned (some e)

module _ (twice : Bool) where
  -- In pumps/mongo.go the goroutine goes on after it has sent an error, and sends nil as well: `twice`. In
  -- the other two it returns.
  unfoldable pub after_send : Outcome → Writer
  after_send none = finished
  after_send (some e) = if twice then sending_again else finished

  module _ (capacity : ℕ) where
    -- One step of one goroutine, in any order. A send waits while the channel is full.
    pub data Step (s t : State) : Type 0 where
      insert :
          (ws us : List Writer) (o : Outcome)
          → s.writers ≡ ws ++ (inserting o ∷ us)
          → t ≡ record s { writers = ws ++ (sending o ∷ us) }
          → Step s t
      send :
          (ws us : List Writer) (o : Outcome)
          → s.writers ≡ ws ++ (sending o ∷ us)
          → length s.channel < capacity
          → t ≡ record s { writers = ws ++ (after_send o ∷ us); channel = s.channel ++ (o ∷ []) }
          → Step s t
      send_again :
          (ws us : List Writer)
          → s.writers ≡ ws ++ (sending_again ∷ us)
          → length s.channel < capacity
          → t ≡ record s { writers = ws ++ (finished ∷ us); channel = s.channel ++ (none ∷ []) }
          → Step s t
      receive :
          (k : ℕ) (o : Outcome) (os : List Outcome)
          → s.reader ≡ reading (suc k)
          → s.channel ≡ o ∷ os
          → t ≡ record s { channel = os; reader = after_receive k o }
          → Step s t
      finish : s.reader ≡ reading 0 → t ≡ record s { reader = returned none } → Step s t

  -- The sets are inserted with the outcomes that the store gives.
  abbrev pub start : List Outcome → State
  start outcomes = record {
    writers = map inserting outcomes;
    channel = [];
    reader = reading (length outcomes);
  }

  pub data Reach (outcomes : List Outcome) : State → Type 0 where
    here : Reach outcomes (start outcomes)
    next : {s t : State} → Reach outcomes s → Step (length outcomes) s t → Reach outcomes t
