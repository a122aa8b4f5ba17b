-- ===== src/Captain/Analytics/Defs.antt =====
-- captain/internal/server/service/analytics_service.go: RecordUserDataUsage, RecordWebsiteAccess, the
-- loops of processUserDataBatch and processWebsiteAccessBatch, flushUserData and flushWebsiteAccess.
use subnetwork_system_torchl.Prelude.{
  ℕ, Bool, true, false, List, [], ◌∷◌, ◌++◌, Option, none, some, if◌then◌else◌, ltb, leb, length,
}
use subnetwork_system_torchl.Text.{Str, codes, str_eq}
use subnetwork_system_torchl.Manager.Models.{Uuid, UserDataUsage}

pub record WebsiteAccess : Type 0 where
  pub user_id : Uuid
  pub username : Str
  pub domain : Str
  pub subdomain : Str
  pub full_url : Str
  pub bytes_sent : ℕ
  pub bytes_received : ℕ
  pub request_method : Str
  pub status_code : ℕ
  pub content_type : Str
  pub source_ip : Str

abbrev pub channel_size : ℕ
channel_size = 10000

abbrev pub batch_size : ℕ
batch_size = 1000

-- A channel, the batch of the goroutine that reads it, and the rows of the table.
pub record Buffer (A : Type 0) : Type 0 where
  pub channel : List A
  pub batch : List A
  pub stored : List A

unfoldable pub new_buffer : {A : Type 0} → Buffer A
new_buffer = record { channel = []; batch = []; stored = [] }

-- How the database answers one flush: PrepareBatch, Append and Send.
pub record Insert (A : Type 0) : Type 0 where
  pub prepares : Bool
  pub appends : A → Bool
  pub sends : Bool

-- A select with a default: the item is dropped, with an error, if the channel is full.
unfoldable pub record_item : {A : Type 0} → Buffer A → A → Buffer A × Bool
record_item s item =
    if ltb (length s.channel) channel_size
    then (record s { channel = s.channel ++ item ∷ [] }, true)
    else (s, false)

or_zero : Str → Str
or_zero ip = if str_eq ip [] then codes "0.0.0.0" else ip

unfoldable pub with_source : UserDataUsage → UserDataUsage
unfolding or_zero
with_source item = record item { source_ip = or_zero item.source_ip }

unfoldable pub with_access_source : WebsiteAccess → WebsiteAccess
unfolding or_zero
with_access_source item = record item { source_ip = or_zero item.source_ip }

unfoldable pub record_user_data_usage :
    Buffer UserDataUsage → UserDataUsage → Buffer UserDataUsage × Bool
unfolding record_item with_source
record_user_data_usage s item = record_item s (with_source item)

unfoldable pub record_website_access :
    Buffer WebsiteAccess → WebsiteAccess → Buffer WebsiteAccess × Bool
unfolding record_item with_access_source
record_website_access s item = record_item s (with_access_source item)

-- handleTelemetryUsage and handleTelemetryAccessLog of ws_manager.go, on the decoded payload; none is
-- an error of the decoder.
unfoldable pub handle_telemetry_usage :
    Buffer UserDataUsage → Option UserDataUsage → Buffer UserDataUsage × Bool
unfolding record_user_data_usage
handle_telemetry_usage s none = (s, false)
handle_telemetry_usage s (some item) = record_user_data_usage s item

unfoldable pub handle_telemetry_access_log :
    Buffer WebsiteAccess → Option WebsiteAccess → Buffer WebsiteAccess × Bool
unfolding record_website_access
handle_telemetry_access_log s none = (s, false)
handle_telemetry_access_log s (some item) = record_website_access s item

module _ {A : Type 0} where
  -- An item whose Append fails is left out.
  unfoldable pub append_each : (A → Bool) → List A → List A
  append_each appends [] = []
  append_each appends (x ∷ xs) =
      if appends x then x ∷ append_each appends xs else append_each appends xs

  -- The rows that a flush adds.
  unfoldable pub flushed : Insert A → List A → List A
  unfolding append_each
  flushed db [] = []
  flushed db (x ∷ xs) =
      if db.prepares then (if db.sends then append_each db.appends (x ∷ xs) else []) else []

  -- A flush, and batch = batch[:0] behind it, whatever became of the flush.
  unfoldable pub flush : Insert A → Buffer A → Buffer A
  unfolding flushed
  flush db s = record s { batch = []; stored = s.stored ++ flushed db s.batch }

  unfoldable pub full : Insert A → Buffer A → Buffer A
  unfolding flush
  full db s = if leb batch_size (length s.batch) then flush db s else s

  unfoldable pub receive : Insert A → Buffer A → List A → Buffer A
  unfolding full
  receive db s [] = s
  receive db s (x ∷ xs) = full db (record s { channel = xs; batch = s.batch ++ x ∷ [] })

  -- The case of the loop that receives; it is not chosen while the channel is empty.
  unfoldable pub take_item : Insert A → Buffer A → Buffer A
  unfolding receive
  take_item db s = receive db s s.channel

  -- The case of the ticker.
  unfoldable pub tick : Insert A → Buffer A → Buffer A
  unfolding flush
  tick db s = if ltb 0 (length s.batch) then flush db s else s

-- What the handlers and the goroutine do, in the order in which they do it.
pub data Event (A : Type 0) : Type 0 where
  records : A → Event A
  takes ticks : Insert A → Event A

unfoldable pub step : {A : Type 0} → Buffer A → Event A → Buffer A
unfolding record_item take_item tick
step s (records item) = (record_item s item).0
step s (takes db) = take_item db s
step s (ticks db) = tick db s

unfoldable pub run : {A : Type 0} → Buffer A → List (Event A) → Buffer A
unfolding step
run s [] = s
run s (e ∷ es) = run (step s e) es
