-- ===== src/Lib.antt =====
-- go9p: a 9P2000 library in Go. This library models the core of it and proves what holds of it.
--
-- Prelude passes on the libraries' names and has what the parts share: Boolean tests, lists by native
-- numbers (Prelude/Lists), bits and words (Prelude/Bits, Prelude/Below), integers (Prelude/Int), the outcomes
-- of functions on a state (Prelude/Run), lists of distinct pointers (Prelude/Distinct), and doubly linked
-- lists on a heap, for any struct with two links (Prelude/Links), which the file tree and the client use.
--
-- Package p (p/p9.go, p/packt.go, p/packr.go, p/unpack.go; p/log.go) turns messages into bytes and back.
--   Wire/Result    a call's outcome: a value, an Error, or a run-time panic
--   Wire/Types     the constants and the structs Qid, Dir and Fcall
--   Wire/Ints      gint8 to gstr, pint8 to pstr, and copy; Wire/Ints/Laws proves the codecs
--   Wire/Stat      gqid, gstat, pqid, pstat, statsz, PackDir, UnpackDir; proofs in its children
--   Wire/Pack      packCommon, SetTag, NewFcall; Wire/PackT and Wire/PackR are the Pack functions
--   Wire/Unpack    Unpack, one function for each case of its switch; Wire/Unpack/Size its bounds
--   Wire/Message   the abstract message, its bytes as the protocol has them, and in the children the
--                  proofs that Pack writes and Unpack reads those bytes, and where Unpack does not
--   Logger         the logger's ring of entries; Logger/Ring reads it as a list
-- A byte slice or a string is the list of its bytes; a nil slice is `none` where nil can occur. An
-- integer is a natural number, with its wrap-around written out; the struct fields of the proofs are
-- bounded by their types' widths. `fc.Pkt` is a view of `fc.Buf`; the model keeps both and writes both.
-- Slices of a buffer that are handed to the caller are copies here: what the caller does with the
-- memory of `fc.Data` afterwards is not modelled, except by SetRreadCount. No function of package p
-- needs fuel but the filter of the logger: the loops run over lists or over a count.
--
-- Package srv (p/srv/srv.go, p/srv/fcall.go, p/srv/respond.go) serves one connection.
--   Srv/State      Conn, Fid and Req on an explicit heap, the file server's interfaces, the monad
--   Srv/Fids       IncRef, DecRef, FidGet, FidNew; proofs in Fids/Laws and Fids/Table
--   Srv/Post       PostProcess and the Post handlers; Post/Frame says what they cannot change,
--                  Post/Runs where they return
--   Srv/Respond    Respond with the tag groups and the flushes, RespondError, the RespondR functions
--                  and Flush; Respond/Quiet and Respond/Once count the answers, and
--                  Respond/Alone shows where it returns
--   Srv/Handlers   the handlers, in Handlers/Session (version, auth, attach, flush) and
--                  Handlers/Files (walk to wstat); Handlers/Guards, Handlers/Limits and
--                  Handlers/Faults are about what they refuse and what they do not
--   Srv/Recv       (*Conn).recv: the buffer, its growth, and the cutting of its bytes into messages;
--                  Recv/Chunks has a reference that cuts the whole input at once, Recv/Buffer and
--                  Recv/Stream compare recv with it, Recv/Delivery is about whole messages
--   Srv/Process    Process and process; Process/Guards is about unknown fids
--   Srv/Frame      relations that every run of a function keeps
--   Srv/Examples   runs on a small connection, of the handlers in Examples/Handlers
-- A pointer is the number of a cell; the file server's methods, the users and the errors' texts are the
-- record Ops, a parameter. The methods of ReqOps answer later: a call of one is recorded. What is sent
-- and what is handed to a goroutine is recorded too, in order. Locks are left out: a function runs
-- without interleaving. Respond answers the flushes that wait by calls of Respond: the model counts
-- these calls, and the walks along chains of requests, with fuel, and a run that uses it up is
-- `stuck`, which is neither a value nor a panic. Where no request of the same tag and no flush waits,
-- two units are enough (Respond/Alone).
--
-- The connection of recv is the list of its bytes and, for each Read, how many of them are ready; the
-- inner loop's fuel is the number of bytes in the buffer plus one, and each round uses up seven at least.
--
-- The in-memory file server of package srv (p/srv/file.go) stands on a state of its own: the cells of the
-- files with their links, the Aux of the fids, their open modes, and the answers in order.
--   Srv/Tree       the struct File, Add, Remove, Rename, Find, CheckPerm; Tree/Siblings, Tree/Grow and
--                  Tree/Add and Tree/Shrink read the links as the list of the children, Tree/Perms
--                  is on CheckPerm
--   Srv/Fsrv       the methods Attach to FidDestroy; Fsrv/Listing is on reading a directory, Fsrv/Walks
--                  and Fsrv/Opens on what Walk and Open do not do
-- The methods of the files (FStatOp to FDestroyOp), the users and the time are parameters. The loops over
-- the children take fuel: one unit more than there are children is enough (Tree/Siblings).
--
-- Package clnt (p/clnt/pool.go, and p/chan9/pool.go; p/clnt/clnt.go, close.go, walk.go, remove.go, stat.go,
-- open.go, read.go, write.go, tag.go; Unmount of mount.go)
--   Clnt/Pool      the pool of ids: getId, putId, and the putId of p/chan9; Pool/Get and Pool/Return
--                  prove them, Pool/Bits has the facts on bytes
--   Clnt/Rpc       Rpcnb, and the parts of recv that a response and the end of the connection set off, on
--                  a heap of requests; Rpc/Pending reads the links as the list of the requests that
--                  wait, Rpc/Answers and Rpc/Closing are on recv, Rpc/Steps and Rpc/Balance on all runs
--   Clnt/Calls     Rpc, NewFcall, FreeFcall, FidAlloc, Clunk and Walk; Calls/Io has Open, Create, Read,
--                  Write and the methods of File, Calls/Files FWalk, Remove, Stat and what stands on
--                  them; Calls/Runs is on Rpc, Calls/Sizes on Open and Write, Calls/Transfer and
--                  Calls/Stores on Writen, Calls/Fill and Calls/Loads on Readn, Calls/Batches and
--                  Calls/Places on the loop of FWalk
--   Clnt/Tags      the calls with a tag of their own, and reqproc; Tags/Walks compares its Walk with that
--                  of Clnt/Calls
--   Clnt/Readdir   Readdir of a File; Readdir/Reads and Readdir/Entries are on all of its reads
--   Clnt/Connect   Connect, from the request for a version on
-- A caller of getId that waits on the channel is an outcome of Clnt/Pool, as is the id that putId sends
-- there; in Clnt/Calls it is `stuck`. In Clnt/Rpc what is sent on a channel is recorded in order; at the
-- end of recv a receiver may free its request, as Rpc does, before the loop goes on from it, and a parameter
-- says which do; what the holders of other requests do to them is a step of its own. In Clnt/Calls and Clnt/Tags the
-- way of a request from Rpcnb to `<-r.Done` is a parameter with a state of its own, and a theorem says what
-- it asks of it: mostly that a request comes back with a response or an error, and for Writen, Readn,
-- Readdir and the loop of FWalk what the server does with a Twrite, a Tread and a Twalk. recv's walks along the
-- requests take one unit of fuel more than there are requests, Readn and Writen one more than there are
-- bytes, FWalk one more than there are names, Readdir one more than there are entries.
--
-- Package chan9 (p/chan9/nselem.go)
--   Chan9/Names    ParseName, String and PathJoin; Names/Split compares ParseName with a reference,
--                  Names/Clean is on the shape of what it leaves, Names/Join on PathJoin
-- A path is the list of its bytes, which ParseName reads one by one.
--
-- Not modelled: ParseNetName, the printing of messages, the system users, sockets and
-- goroutines, how recv queues its requests; of p/clnt the buffer of recv, send, Auth and Attach; of p/chan9 the
-- calls and the mount table.
pub mod Prelude
pub mod Wire
pub mod Srv
pub mod Clnt
pub mod Chan9
pub mod Logger
