-- ===== src/Lib.antt =====
-- dusty, an HTTP client and server, and the C libraries that it is built with.
--
-- The parts of the program. src/websocket.zig is an established WebSocket connection, which the
-- server's upgrade and the client's connect hand out: frames go out by writeFrame under a lock,
-- come in by readFrame, and receive turns them into messages, answering pings and close frames.
-- HTTP/1 messages are parsed by src/llhttp: a generated machine reads the bytes, and hand-written
-- code decides how a body goes on, whether the connection is kept, and when parsing pauses. HTTP/2
-- stands on src/nghttp2/lib: a session there packs every outgoing frame into a chain of buffers
-- (nghttp2_bufs) and unpacks incoming frames from bytes. For each request the server asks
-- src/router.zig for a route, runs its middlewares and its action by the executor of
-- src/middleware.zig, and writes the response of src/response.zig, whose fields are the header map
-- of src/http.zig; cookies come and go by src/cookie.zig, and src/middleware/Session.zig keeps a
-- signed session in one. src/client.zig sends requests, follows redirects and keeps idle
-- connections in a pool.
--
-- The files. Base has what all share: tests on numbers, lists with native lengths, bytes and masks.
-- WebSocket is src/websocket.zig: WebSocket.Reader is readFrame, WebSocket.Codec is writeFrame,
-- writeFrameLocked, writeClose, send and ping, WebSocket.Receive is receive. The reader's unread
-- bytes and the writer's bytes are lists in the connection; the writer, the flush, the generator of
-- masking keys and the check of UTF-8 are parameters (the record World). The message arena is not
-- modelled, and memory does not run out there. The lock makes each call of writeFrame and
-- writeClose one step. The other files under WebSocket hold proofs: Wire gives the bytes of a
-- frame, Trip and FrameTrip read them back, Stepwise, Ends, Growth, Lasting and Closing carry
-- invariants through chains of steps, Fragments, Exchange and Handshake state what the two ends do
-- together. Llhttp is src/llhttp: the state of llhttp.h, Llhttp.Http is http.c, Llhttp.Api is api.c
-- with llhttp__internal_init of llhttp.c, whose start state is a parameter; a callback is a
-- function on the parser's state. Llhttp.Callbacks has the settings and the wrappers llhttp__on_.
-- Llhttp.Framing sets http.c against RFC 7230 (Llhttp.Bodies); Control, Lenient and Spans there
-- state what the calls of api.c do. A conditional of C on flags is a Boolean test, a pointer is a
-- number. Nghttp2 is src/nghttp2/lib: Nghttp2.Wire is nghttp2_put_uint16be and its kin of
-- nghttp2_helper.c, Nghttp2.Buf and Nghttp2.Bufs are nghttp2_buf.h and nghttp2_buf.c, Nghttp2.Frame
-- has the frames of includes/nghttp2/nghttp2.h and the init functions of nghttp2_frame.c,
-- Nghttp2.Frame.Pack and Nghttp2.Frame.Unpack the functions nghttp2_frame_pack_ and
-- nghttp2_frame_unpack_ of that file. Nghttp2.Ratelim is nghttp2_ratelim.c, with its proofs in
-- Nghttp2.Ratelim.Bounds. Nghttp2.Weight is nghttp2_priority_spec.c, Nghttp2.Downcase is
-- nghttp2_downcase of nghttp2_helper.c and Nghttp2.Extpri is nghttp2_extpri.c. C integers are
-- natural numbers below the power of two of their width, a signed one by its bit pattern. The
-- allocator is a parameter (the record Mem), and a write or a read out of bounds or a failed assert
-- is the outcome fault, so that a result other than it says that none happens.
--
-- Router is src/router.zig: Router has insertRoute, Router.Register the calls that register routes,
-- Router.Match matchRecursive and matchIn, Router.Query parseQueryString and Router.Find
-- findHandler. A tree is a value with its children inside, a handler and a middleware are numbers,
-- and the hash maps of names are lists that have each name once. Router.Table, Router.Resolve and
-- Router.Refine say what a router is to do with no trees, Router.Tidy what the trees keep to,
-- Router.Answers and Router.Bounds hold the theorems, Router.QueryTrip that on queries. Request is
-- urlUnescape of src/request.zig, with the texts it reads in Request.Escape. Headers is the header
-- map of src/http.zig, its arrays one list of slots; Headers.Multimap and Headers.Calls set it
-- against a list without hashes. Response is src/response.zig: Response.Head has header and
-- writeHeader, Response.Body the body writers, write and resetBody. The connection's writer takes a
-- number of bytes or any number, and then fails; its buffer is not modelled, so a flush hands on
-- nothing. Names of statuses and std.fmt.parseInt are parameters. Response.Chunks is a reader of
-- chunked bodies, Response.Streaming, Response.Session and Response.Framing follow a streamed body.
-- Middleware is the Executor of src/middleware.zig: a middleware is a tree of what it does to the
-- response and of its calls of next; Middleware.Nesting sets the executor against middlewares that
-- hold one another, without an index. Cookie is src/cookie.zig,
-- with a user agent in Cookie.Stored. Session is SessionData of src/middleware/Session.zig, its
-- array of slots one list; Session.Sign is signSession and load, Session.Execute is execute, on the
-- response of Response and with setCookie in Response.Cookies. The HMAC and the base64 code are the
-- record Primitives, and IsLawful says what is relied on: a mac of 32 bytes, url-safe letters, and
-- a code that is decoded again. A time is a number of nanoseconds, and a cast that fails is none or
-- panicked. Session.Map and Session.Calls set the entries against a map, Session.Sign.Trip,
-- Session.Sign.Accepted and Session.Execute.Return follow a cookie. Client is src/client.zig:
-- Client.Pool is the ConnectionPool, its list from the last to the first, each critical section one
-- step; Client.KeepAlive is Connection.release and parseKeepAliveHeader of src/parser.zig, with
-- std.fmt.parseInt as a parameter; Client.Exchange is what becomes of a connection in
-- fetchInternal, Client.Redirect is what it does where it follows a redirect, and
-- isDomainOrSubdomain; Client.Write is writeRequest. A URI is the parts that are used of it.
-- Client.Pool.Recent, Client.Pool.Steps and Client.Pool.Sound, Client.KeepAlive.Limit,
-- Client.Redirect.Domain, Client.Redirect.Secret, Client.Write.Sent and Client.Write.Plain hold
-- proofs.
--
-- The bounds. next of the executor runs on fuel, one for each middleware, which is enough since the
-- index grows with every call. receive_loop runs on fuel, one round more than there are unread
-- bytes, which is enough since each frame takes two bytes. bufs_add_loop runs on fuel too, and the
-- theorem on it says that it ends.
--
-- What is not modelled: the I/O, the tasks, the TLS and the clocks; computeAcceptKey, which is
-- SHA-1 and Base64 of the standard library; the rest of llhttp.c, which is generated; the getters
-- and the tables of names in api.c; of nghttp2 the header frames, the compression and the session;
-- of the Zig sources the server's loop, the client's connecting, TLS, response reader and drain of
-- a redirect, the parser's callbacks, CORS, request bodies and multipart forms, content types,
-- event streams, the iterator of cookies, and everything that only prints JSON.
pub mod Base
pub mod Client
pub mod Cookie
pub mod Headers
pub mod Llhttp
pub mod Middleware
pub mod Nghttp2
pub mod Request
pub mod Response
pub mod Router
pub mod Session
pub mod WebSocket
