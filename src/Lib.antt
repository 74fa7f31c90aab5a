-- ===== src/Lib.antt =====
-- mcp-remote-go is a proxy between a local MCP client on standard input and output and a remote MCP
-- server over HTTP. This library models the parts of it that decide something: what is read from an
-- event stream, what is sent to the server and in which session, how a refusal is understood, how
-- the user logs in, what is kept on disk, how requests are retried, how a lock file is shared, and
-- how the configuration is put together.
--
-- Parts, files and source:
--   Sse            proxy/sse_reader.go: `ReadSSEEvents` is `read_sse_events`. Sse/Wire is about how
--                  a server writes events, Sse/RoundTrip about reading them back, Sse/Cancel about
--                  a context that is done during a run.
--   EventSource    proxy/eventsource.go: `Connect`, `Close`, `readEvents`. The state is the record
--                  `EventSource`. EventSource/Wire is about `readEvents`, EventSource/Connect about
--                  `Connect` and the last event id.
--   Streamable     proxy/transport_streamable.go: `Send` is `send`, with `send_request` for the
--                  request and `on_response` for the answer; `openNotificationStream` is
--                  `open_notification_stream`. Streamable/Session is about sessions, headers and
--                  errors, Streamable/Notify about the loop of `startNotificationStream`.
--   LegacySse      proxy/transport_sse.go: `Connect`, `Send`, `Close` and `getCommandURL`, with the
--                  record `SseTransport` for the state. LegacySse/Endpoint is about the endpoint
--                  event.
--   Http           proxy/auth_error.go, and requests, responses and header lines of net/http.
--   Auth           Auth/Challenge is auth/www_authenticate.go, Auth/Pkce is auth/pkce.go, and
--                  Auth/Resource is auth/resource_uri.go. Params, Print, Bearer and Best below
--                  Auth/Challenge are about the parser, Auth/Resource/Canonical about the canonical
--                  URI.
--                  Auth/Discovery is auth/discovery.go: a strategy is a computation of the monad
--                  `Search`, which keeps the list of the addresses that were requested. Order is
--                  about the strategies one after the other, Servers about whose metadata is
--                  returned, Strategies about what is requested.
--                  Auth/Store is the part of auth/auth.go on disk: a `Disk` has three files, `load`
--                  and `save` are the functions for each of them. Auth/Store/Cell relates it to
--                  three values in memory.
--                  Auth/Coordinator is the rest of auth/auth.go: `InitializeAuth`,
--                  `WaitForAuthCode` and `ExchangeCode` are computations of the monad `Flow` on the
--                  coordinator and the disk. They stand in Operations. Flow and Ready are about
--                  single steps, Binding about the URL and the token request, Clients about
--                  registration, Ports about the callback server.
--   Cli            cmd/mcp-remote-go/main.go: Cli/Args is `parseRemainingArgs`, Cli/Env is
--                  `applyEnvOverrides`, Cli/Headers is `parseHeaderLines` and the header map,
--                  Cli/Start is `main` up to the proxy that it makes.
--   Proxy          proxy/proxy.go: `connectToServer` is `connect_to_server`, with one pass for each
--                  authorization; `negotiateTransport` is `on_probe` and `plan_of`. Proxy/Connected
--                  is about a proxy that has connected, Proxy/Setup is `NewProxyWithOptions`,
--                  Proxy/Login is `handleAuthentication` with the coordinator, Proxy/Login/Retry
--                  the pass behind it.
--                  Proxy/Relay is what a connected proxy does: `processStdioInput` is
--                  `process_stdio_input`, over the interface of proxy/transport.go, which is the
--                  record `Transport` with an instance for each of the two transports. Stdin is
--                  about what the client writes, under the law `IsTransport`; Stdout about what it
--                  reads; Reconnect about `handleServerError`.
--   FileLock       internal/filelock/filelock.go; FileLock/Exclusion has several processes.
--   HttpClient     internal/httpclient/client.go: `Do` is `send` and `doSingle` is `do_single`;
--                  HttpClient/Requests has the requests of `Get`, `Post` and `PostForm`.
--   AppError       internal/errors/errors.go.
--   Text           what the program uses of the packages strings and bytes; Base: shared names,
--                  lists and results; Tests: runs on concrete inputs.
--
-- How the parts interact: the proxy probes the server and connects with one of the two transports.
-- The two transports read streams with Sse or EventSource, and both turn a 401 into an
-- `UnauthorizedError` with the header that Auth/Challenge chooses. Its address of resource metadata
-- starts the login: the coordinator discovers a server, registers a client, and stores the tokens
-- that later requests carry; it sends its requests with HttpClient and locks the file of the tokens
-- with FileLock. Callbacks are the list of their calls, in order. What a server, the operating
-- system, a context, the environment or a random source answers is an argument of the operations; a
-- loop that waits takes one answer for each round, and where these are used up its result says that
-- it is still running.
--
-- Texts are lists of bytes. The state of an operation is its argument and part of its result;
-- errors are values, and a run-time panic of the challenge parser is a `Fault`.
--
-- Bounds and fuel: the loops of `ParseWWWAuthenticate` and `parseAuthParams` run on fuel, one more
-- than the length of the text. Each round consumes at least one byte, so the loop ends before the
-- fuel does; a search that ran out of fuel would give a `Fault` of its own. All other loops are
-- recursion on the list that they read. HTTP statuses and sizes are natural numbers; no arithmetic of
-- the modelled code comes near the bound of an `int`.
--
-- The loop over the ports of the callback server has 100 rounds, as in the source.
--
-- Parameters: `strings.ToLower`, `url.Parse`, `URL.String`, `URL.ResolveReference`,
-- `Values.Encode`, `fmt.Sscanf`, `%d` of `fmt.Sprintf`, `encoding/json`, SHA-256 and base64url are
-- arguments. Hypotheses are what `strings.ToLower` documents for ASCII, and what `encoding/json` does:
-- it gives texts of valid UTF-8 and numbers that fit into 64 bits, and reads such values back as they
-- were written (Auth/Store/Json says which ones). Tests/Codecs has functions that satisfy the latter.
--
-- Not modelled: the package flag, the hash of the server's URL, signals and logging; the setters of
-- callbacks and those for tests; the goroutines themselves and the mutexes, since what runs
-- concurrently is run one after the other; errors of writing to standard output, which are only
-- logged.
pub mod Base
pub mod Text
pub mod Sse
pub mod Auth
pub mod Http
pub mod EventSource
pub mod Streamable
pub mod LegacySse
pub mod Cli
pub mod FileLock
pub mod HttpClient
pub mod AppError
pub mod Proxy
pub mod Tests
