-- ===== src/Lib.antt =====
-- The worker of a proxy network and what it shares with its controller, Captain.
--
-- A worker serves HTTP and SOCKS5 clients. It asks Captain over a websocket whether a user may use
-- its pool, keeps the answers in a cache, chooses one of the pool's upstream proxies by round robin
-- and keeps pools of open connections to them. All shared tables are sharded maps.
--
--   Prelude    shared names, lists and integers over the native numbers, Go's outcomes
--   Text       Go strings as lists of bytes: Split, Trim, Atoi, Itoa, SplitHostPort and their laws
--   Dict       Go's built-in map as a list of entries
--   Cmap       worker/utils/map.go: Defs has the operations, Laws their equations, Refinement the
--              map as one function from keys to values, Iter the iterators under any interleaving
--   Manager    worker/manager: Models has the structs; Upstreams is pool_upstream_manager.go
--              (Next is next, GetAddress is get_address); Users is user_manager.go (VerifyUser is
--              verify_user up to the wait and verify_done behind it, processVerifyUserResponse,
--              addConnection, removeConnection, resetConnectionCount, cleanupLoop); its Races has
--              the calls on one connection count that overlap
--              Health is health_collector.go, Worker is worker.go and websocket_manager.go
--              (NextUpstream is next_upstream, HandleEvent is handle_event)
--   Connpool   worker/utils/pool.go: netPool (Get, Put, ReleaseAll, Len, initAutoFill)
--   Tags       the tags behind a password: worker/services/socks.go, worker/utils/structs.go,
--              worker/services/service.go (convertTag is convert_tag in Accounts) and
--              captain/internal/server/functions/userFunctions.go
--   Socks      worker/services/socks.go: Wire is a client's connection, Auth has handleHandshake and
--              handlePasswordAuth, Request has handleRequest, Udp has the datagrams of handleUDP
--   Http       worker/utils/structs.go: HTTPRequest (NewHTTPRequest is new_http_request)
--   Checker    worker/utils/structs.go: Checker (IsBlocked is is_blocked, Add is add)
--   Services   worker/services: SocksServer is socks.go and HttpServer is http.go (callback and OutToTCP
--              are callback and out_to_tcp), Dial is connectUpstreamSocks of service.go; Copy and Bind
--              are ioCopy and IoBind of worker/utils/functions.go. Calls is what a handler does to the
--              world, in order, and World what it finds there. SocksAccount and HttpAccount count how
--              often a user is let in and taken out, Release what the end of a connection does, Chain
--              has one worker behind another
--   Captain    captain/internal/server/websocket: Otp is otp.go, Workers and Events are
--              ws_manager.go, Exchange has both sides of the link together
--              captain/internal/server/{service,handlers}: Replies is what a service returns and a
--              handler sends; Pools and Places are pool_service.go and pool_handler.go, Users
--              user_service.go and user_handler.go, Registration worker_service.go and
--              worker_handler.go (create_pool_handler is createPool, and so on), Analytics
--              analytics_service.go; Access is middleware/auth_midddleware.go
--   Examples   runs on concrete data
--
-- Every method that holds a lock from end to end is one step. Of those that hold none, or two in
-- turn, addConnection and removeConnection are split in Manager/Users/Races; in the manager's own
-- step, and for the test and the insertion of ServeWS, no other call comes in between. A goroutine that waits for a channel
-- is split at the wait. A handler of a client's connection is a list of calls, and every answer in
-- World is free, so that other goroutines may act between any two of them. IoBind's two goroutines and
-- those of the analytics are steps in any order. The clock, the identity of a new channel, the dials
-- of a connection pool, VerifyUser inside the SOCKS handlers, the validator of HTTP requests, the
-- queries of Captain, the answers of ClickHouse and the libraries for IP addresses, URLs, base64, JSON
-- and UUIDs are arguments, and so is the arithmetic of float32. Counters of 64 and 32 bits keep their
-- wrap-around.
--
-- Loops are recursion on the list or the number of rounds that the source loops over. The only fuel
-- is that of Itoa, which gets one more than the number it prints.
--
-- A query that changes the database is a function from its state to its answer and the next state; a
-- transaction that is not committed keeps the state. Time stamps of rows are left out.
--
-- Not modelled: sockets, TLS, rate limiting and dialling, which are calls of libraries; the sockets of
-- handleUDP, whose datagrams are a free list; the tunnel, TCP and UDP services, which are commented out; the queries of
-- Captain, which are generated, and its queries of ClickHouse, which only pass rows on; start-up.
pub mod Captain
pub mod Checker
pub mod Cmap
pub mod Connpool
pub mod Dict
pub mod Examples
pub mod Http
pub mod Manager
pub mod Prelude
pub mod Services
pub mod Socks
pub mod Tags
pub mod Text
