-- ===== src/LogBuffer.antt =====
-- crates/core/src/log_buffer.rs: the ring of recent log records and its subscribers.
pub mod Ring
pub mod Ids
mod Tests
use watercontroller.Base.{
  ℕ, ◌+◌, ◌-◌, String, Bool, true, false, not, List, [], ◌∷◌, ◌++◌, ◌==◌, ltb, length, drop, retain,
  push_ring, last_of, if◌then◌else◌,
}

pub record LogRecord : Type 0 where
  pub monotonic_ms : ℕ
  pub level : ℕ
  pub target : String
  pub message : String

-- A sender with its channel: the bound, the records that the receiver has not taken, and whether the
-- receiver is still there.
pub record Subscriber : Type 0 where
  pub id : ℕ
  pub channel_capacity : ℕ
  pub queue : List LogRecord
  pub connected : Bool

-- `LogBuffer` with `Inner`.
pub record LogBuffer : Type 0 where
  pub capacity : ℕ
  pub records : List LogRecord
  pub next_subscriber_id : ℕ
  pub subscribers : List Subscriber

abbrev pub new : ℕ → LogBuffer
new capacity = record {
  capacity = capacity;
  records = [];
  next_subscriber_id = 0;
  subscribers = [];
}

-- `tx.try_send(rec)` where the receiver is there: a full channel drops the record.
abbrev pub try_send : LogRecord → Subscriber → Subscriber
try_send rec s =
    if ltb (length s.queue) s.channel_capacity then record s { queue = s.queue ++ rec ∷ [] } else s

-- The `retain` over the subscribers: those whose receiver is gone are left out.
unfoldable pub fan_out : LogRecord → List Subscriber → List Subscriber
fan_out rec [] = []
fan_out rec (s ∷ ss) =
    let rest = fan_out rec ss in if s.connected then try_send rec s ∷ rest else rest

unfoldable pub push : LogRecord → LogBuffer → LogBuffer
push rec b = record b {
  records = push_ring b.capacity rec b.records;
  subscribers = fan_out rec b.subscribers;
}

unfoldable pub snapshot : ℕ → LogBuffer → List LogRecord
snapshot n b = last_of n b.records

unfoldable pub subscribe : ℕ → LogBuffer → LogBuffer × ℕ
subscribe channel_capacity b = (
  record b {
    next_subscriber_id = b.next_subscriber_id + 1;
    subscribers =
        b.subscribers
        ++ record {
          id = b.next_subscriber_id;
          channel_capacity = channel_capacity;
          queue = [];
          connected = true;
        }
          ∷ [];
  },
  b.next_subscriber_id,
)

unfoldable pub unsubscribe : ℕ → LogBuffer → LogBuffer
unsubscribe id b = record b { subscribers = retain (λ s. not (s.id == id)) b.subscribers }

unfoldable pub push_all : List LogRecord → LogBuffer → LogBuffer
push_all [] b = b
push_all (rec ∷ recs) b = push_all recs (push rec b)
