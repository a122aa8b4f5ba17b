-- ===== src/Captain/Replies.antt =====
-- What Captain's services return to their handlers, and what its database answers them.
use subnetwork_system_torchl.Prelude.{ℕ, List}
use subnetwork_system_torchl.Text.{Str}
use subnetwork_system_torchl.Manager.Models.{Uuid}

-- A query: its rows, the error sql.ErrNoRows, or any other error.
pub data Answer {ℓ} (A : Type ℓ) : Type ℓ where
  rows : A → Answer A
  no_rows broken : Answer A

-- The results of a service: a value with a code and a message and no error, an error with a code and
-- a message, or a panic.
pub data Ret (A : Type 0) : Type 0 where
  done : A → ℕ → Str → Ret A
  failed : ℕ → Str → Ret A
  crashed : Ret A

-- What a service tells the workers through the websocket manager.
pub data Note : Type 0 where
  pool_change : Uuid → Note
  user_change : Str → Note

-- What a handler sends: a status with a value, or with a message in its place.
pub data Response (A : Type 0) : Type 0 where
  json : ℕ → A → Response A
  error : ℕ → Str → Response A
  aborted : Response A

abbrev pub ok_200 : ℕ
ok_200 = 200

abbrev pub created_201 : ℕ
created_201 = 201

abbrev pub bad_request_400 : ℕ
bad_request_400 = 400

abbrev pub not_found_404 : ℕ
not_found_404 = 404

abbrev pub internal_500 : ℕ
internal_500 = 500

-- RespondwithError on an error, and RespondwithJSON with a fixed status otherwise.
unfoldable pub respond : {A : Type 0} → ℕ → Ret A → Response A
respond status (done a code message) = json status a
respond status (failed code message) = error code message
respond status crashed = aborted

-- The same, for a reply that is made of the message.
unfoldable pub respond_message : {A : Type 0} → ℕ → Ret A → Response Str
respond_message status (done a code message) = json status message
respond_message status (failed code message) = error code message
respond_message status crashed = aborted

-- The same, with the code that the service has returned.
unfoldable pub respond_code : {A : Type 0} → Ret A → Response Str
respond_code (done a code message) = json code message
respond_code (failed code message) = error code message
respond_code crashed = aborted

-- The notes that come with a result.
abbrev pub Noted : Type 0 → Type 0
Noted A = Ret A × List Note
