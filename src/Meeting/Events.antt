-- ===== src/Meeting/Events.antt =====
-- src/sona/meeting/events.py: MeetingEventBroadcaster, the bounded queues of its clients and the
-- gate on revisions. An event's identity, time and content are not kept; a meeting's id is a
-- number, 0 for the empty text; a revision is a natural number, `none` where it is no integer.
mod Gate
mod Queue
mod Tests
use voice_realtime.Prelude.{
  ℕ, zero, suc, ◌+◌, Bool, true, false, not, ◌&&◌, ◌||◌, max, List, [], ◌∷◌, ◌++◌, Option, none,
  some, ◌==◌, ltb, if◌then◌else◌, length,
}

-- The event types of the contract, and any other one.
pub data EventType : Type 0 where
  meeting_state_changed transcript_reconciled speaker_updated meeting_title_updated : EventType
  minutes_state_changed health_changed transcription_gap resync_required : EventType
  meeting_snapshot other_type : EventType

pub record Payload : Type 0 where
  pub transcript_revision : Option ℕ
  pub content_revision : Option ℕ
  -- The id in its `meeting`
  pub meeting : ℕ
  pub expected_revision : Option ℕ

-- `payload` is none where it is no mapping.
pub record Event : Type 0 where
  pub type_ : EventType
  pub meeting_id : ℕ
  pub payload : Option Payload

unfoldable pub is_durable : EventType → Bool
is_durable meeting_snapshot = false
is_durable other_type = false
is_durable _ = true

unfoldable pub is_resync : EventType → Bool
is_resync resync_required = true
is_resync _ = false

pub record Cursor : Type 0 where
  pub transcript : Option ℕ
  pub content : Option ℕ

abbrev pub Cursors : Type 0
Cursors = ℕ → Cursor

pub set_cursor : ℕ → Cursor → Cursors → Cursors
set_cursor m c s k = if k == m then c else s k

pub or_else : Option ℕ → Option ℕ → Option ℕ
or_else none y = y
or_else (some x) y = some x

-- `cursor.update`, and the loop of `_seed_revision_cursor`
pub update : Cursor → Cursor → Cursor
update incoming c = record {
  transcript = or_else incoming.transcript c.transcript;
  content = or_else incoming.content c.content;
}

pub seed : ℕ → Option Payload → Cursors → Cursors
seed m none s = s
seed m (some p) s =
    let id = if m == 0 then p.meeting else m in
    if id == 0
    then s
    else set_cursor id
        (update (record { transcript = p.transcript_revision; content = p.content_revision })
          (s id))
        s

-- The revisions of an event that the gate looks at, `_REVISION_FIELDS`.
pub incoming : EventType → Payload → Option Cursor
incoming transcript_reconciled p =
    some (record { transcript = p.transcript_revision; content = p.content_revision })
incoming speaker_updated p = some (record { transcript = none; content = p.content_revision })
incoming _ p = none

pub data Verdict : Type 0 where
  fine stale : Verdict
  gap : ℕ → Verdict

-- One round of the loop over the fields.
pub judge : Option ℕ → Option ℕ → Verdict
judge none previous = fine
judge (some v) none = fine
judge (some v) (some n) = if ltb (n + 1) v then gap (n + 1) else if ltb v n then stale else fine

-- The loop stops at a gap, and a gap counts before what is stale.
pub join : Verdict → Verdict → Verdict
join (gap n) w = gap n
join fine w = w
join stale (gap n) = gap n
join stale fine = stale
join stale stale = stale

pub data Decision : Type 0 where
  pass drop : Decision
  replace : Event → Decision

-- `make_event` of a recovery event
pub resync : ℕ → Option ℕ → Event
resync m expected = record {
  type_ = resync_required;
  meeting_id = m;
  payload = some (record {
    transcript_revision = none;
    content_revision = none;
    meeting = 0;
    expected_revision = expected;
  });
}

pub decide : ℕ → Cursor → Cursors → Verdict → Decision × Cursors
decide m i s (gap n) = (replace (resync m (some n)), s)
decide m i s stale = (drop, s)
decide m i s fine = (pass, set_cursor m (update i (s m)) s)

pub gate : ℕ → Option Cursor → Cursors → Decision × Cursors
gate m none s = (pass, s)
gate m (some i) s =
    decide m i s (join (judge i.transcript (s m).transcript) (judge i.content (s m).content))

pub accept_payload : Event → Option Payload → Cursors → Decision × Cursors
accept_payload e none s = (pass, s)
accept_payload e (some p) s = gate e.meeting_id (incoming e.type_ p) s

pub is_snapshot : EventType → Bool
is_snapshot meeting_snapshot = true
is_snapshot _ = false

-- `_accept_revision_event`
pub accept : Event → Cursors → Decision × Cursors
accept e s =
    if is_snapshot e.type_
    then (pass, seed e.meeting_id e.payload s)
    else accept_payload e e.payload s

pub record Client : Type 0 where
  pub maxsize : ℕ
  pub queue : List Event
  pub closed : Bool

pub new_client : ℕ → Client
new_client queue_size = record { maxsize = max 1 queue_size; queue = []; closed = false }

pub close : Client → Client
close c = record c { closed = true; queue = [] }

-- `payload.get("transcript_revision") or payload.get("content_revision")`: 0 is no revision here.
pub truthy : Option ℕ → Option ℕ
truthy none = none
truthy (some zero) = none
truthy (some (suc n)) = some (suc n)

pub expected_of : Option Payload → Option ℕ
expected_of none = none
expected_of (some p) = or_else (truthy p.transcript_revision) p.content_revision

-- `_enqueue`
pub enqueue : Event → Client → Client
enqueue e c =
    if ltb (length c.queue) c.maxsize
    then record c { queue = c.queue ++ e ∷ [] }
    else if not (is_durable e.type_)
    then c
    else if is_resync e.type_
    then record c { queue = e ∷ [] }
    else record c { queue = resync e.meeting_id (expected_of e.payload) ∷ [] }

-- The loop of `publish` over the clients: one that is closed is let go.
pub fan_out : Event → List Client → List Client
fan_out e [] = []
fan_out e (c ∷ cs) = if c.closed then fan_out e cs else enqueue e c ∷ fan_out e cs

pub record Broadcaster : Type 0 where
  pub clients : List Client
  pub latest : Option Event
  pub cursors : Cursors

pub deliver : Event → Broadcaster → Broadcaster
deliver e b = record b {
  clients = fan_out e b.clients;
  latest = if is_resync e.type_ then b.latest else some e;
}

pub published : Event → Broadcaster → Decision × Cursors → Broadcaster
published e b (drop, s) = record b { cursors = s }
published e b (pass, s) = deliver e (record b { cursors = s })
published e b (replace f, s) = deliver f (record b { cursors = s })

pub publish : Event → Broadcaster → Broadcaster
publish e b = published e b (accept e b.cursors)

-- `add_client`: 0 stands for no queue size, and the broadcaster's own is taken.
pub add_client : ℕ → ℕ → Broadcaster → Broadcaster
add_client own_size zero b = record b { clients = new_client own_size ∷ b.clients }
add_client own_size (suc n) b = record b { clients = new_client (suc n) ∷ b.clients }

pub data Received : Type 0 where
  cancelled waiting : Received
  received : Event → Client → Received

-- `receive`: an open client with an empty queue waits.
pub receive_from : Bool → List Event → Client → Received
receive_from true [] c = cancelled
receive_from false [] c = waiting
receive_from closed (e ∷ es) c = received e (record c { queue = es })

pub receive : Client → Received
receive c = receive_from c.closed c.queue c

-- `observe_snapshot`; none is the ValueError of an event that is no snapshot.
pub observe_snapshot : Event → Broadcaster → Option Broadcaster
observe_snapshot e b =
    if is_snapshot e.type_
    then some (record b { cursors = seed e.meeting_id e.payload b.cursors })
    else none
