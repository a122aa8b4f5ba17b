-- ===== src/Services/Bind.antt =====
-- worker/utils/functions.go: IoBind, with the closures that http.go and socks.go hand to it (their
-- bytesPreSec is 0, so no rate limit applies).
use subnetwork_system_torchl.Prelude.{
  ℕ, ◌+◌, ◌%◌, ◌^◌, Bool, true, false, ◌&&◌, not, List, [], ◌∷◌, ◌++◌, Option, none, some,
  if◌then◌else◌, ltb, is_some,
}
use subnetwork_system_torchl.Services.Calls.{
  Binding, Call, remove_user, decrement, throughput, usage, close_client, close_upstream,
}
use subnetwork_system_torchl.Services.Copy.{IoError, Round, moved, stop}

-- IoBind's two goroutines: the first copies from the upstream to the client.
pub data Way : Type 0 where
  to_client to_upstream : Way

-- The captured counters, whether each goroutine has ended, whether the Once has run, and the calls.
pub record Bound : Type 0 where
  pub bytes_sent : ℕ
  pub bytes_received : ℕ
  pub client_ended : Bool
  pub upstream_ended : Bool
  pub released : Bool
  pub calls : List Call

unfoldable pub new_bound : Bound
new_bound = record {
  bytes_sent = 0;
  bytes_received = 0;
  client_ended = false;
  upstream_ended = false;
  released = false;
  calls = [];
}

-- cfn(n, isDownload), where the first goroutine says `false`.
unfoldable pub add_bytes : Way → ℕ → Bound → Bound
add_bytes to_client n s = record s {
  bytes_sent = (s.bytes_sent + n) % 2 ^ 64;
  calls = s.calls ++ throughput n ∷ [];
}
add_bytes to_upstream n s = record s {
  bytes_received = (s.bytes_received + n) % 2 ^ 64;
  calls = s.calls ++ throughput n ∷ [];
}

unfoldable pub count : Way → ℕ → Bound → Bound
unfolding add_bytes
count way n s = if ltb 0 n then add_bytes way n s else s

-- fn(isSrcErr, err)
unfoldable pub release_calls : Binding → ℕ → ℕ → Option IoError → List Call
release_calls b sent received e =
    decrement (is_some e)
    ∷ usage (record {
      sent = sent;
      received = received;
      username = b.username;
      source_ip = b.source_ip;
      dest_host = b.dest_host;
      dest_port = b.dest_port;
      is_https = b.is_https;
    })
    ∷ remove_user b.username
    ∷ close_client
    ∷ close_upstream
    ∷ []

-- `if err != nil { one.Do(fn) }`
unfoldable pub once : Binding → Option IoError → Bound → Bound
unfolding release_calls
once b e s =
    if is_some e && not s.released
    then record s {
      released = true;
      calls = s.calls ++ release_calls b s.bytes_sent s.bytes_received e;
    }
    else s

abbrev pub ended : Way → Bound → Bool
ended to_client s = s.client_ended
ended to_upstream s = s.upstream_ended

abbrev pub end : Way → Bound → Bound
end to_client s = record s { client_ended = true }
end to_upstream s = record s { upstream_ended = true }

unfoldable pub finish : Binding → Way → Option (Bool × IoError) → Bound → Bound
unfolding once
finish b way none s = s
finish b way (some (src, e)) s = once b (some e) (end way s)

-- One round of one goroutine's ioCopy; a goroutine that has ended makes no more.
unfoldable pub step : Binding → Bound → Way × Round → Bound
unfolding count finish
step b s (way, r) = if ended way s then s else finish b way (stop r) (count way (moved r) s)

unfoldable pub run : Binding → Bound → List (Way × Round) → Bound
unfolding step
run b s [] = s
run b s (r ∷ rs) = run b (step b s r) rs
