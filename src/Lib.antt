-- ===== src/Lib.antt =====
-- dcos-log serves the logs of a DC/OS node over HTTP: the entries of journald, and the files in the
-- sandboxes of Mesos tasks, which it reads from the files API of the Mesos agent.
--
-- A request comes through the middleware, which takes its token and asks the agent whether it may
-- see the sandbox, to a handler of one of the two versions of the API. The handler reads the
-- parameters, opens a reader of the journal or of the files API with options made from them, and
-- copies the reader to the response once (io.Copy), or again and again for an event stream.
--
-- Files and parts:
--
-- Base: what the code uses of Go's own language and libraries. Strings are lists of bytes
--   (Base.ByteStrings, Base.Split), an int is an integer that wraps around at 64 bits (Base.Int);
--   the rest are the calls of strconv, net/url, path and io.Copy that the code makes.
-- Mesos: dcos-log/mesos/files/reader. Mesos.Types has its types, the reader's state ReadManager
--   among them; Mesos.Client the requests (do, fileLen, read, BrowseSandbox, Download),
--   Mesos.Options option.go, Mesos.Format format.go, Mesos.Setup NewLineReader and calcOffset,
--   Mesos.Reading Prepend, Pop and Read, Mesos.Text the function reverse, and Mesos.FileTime mTime,
--   with its laws. The modules Chunks, Follow, Queue, Delivery, CopyOut, Resume, Losses, Totality,
--   SeekBack, Upward, Tail, LastLines and WholeFile are about them; Window, WindowRead and
--   WindowCopy about skips and limits, with the lines that a reader is supplied with in Supply and
--   Start, and Events about server-sent events.
-- Journal: dcos-log/journal/reader. Journal.Types has the reader's state, Journal.Cursor
--   validateCursor, Journal.Options the seeks, the options of config.go and NewReader,
--   Journal.Format formatters.go, and Journal.Reading Read, Close and Follow. The modules
--   CursorLaws, Delivery, Entries, Idle, Limit, Rotation and Settings are about them; Limit has the
--   calls of a client as a step relation. Stream, StreamCopy and StreamFollow are about a journal
--   that grows while it is followed, and Turns has what is to be sent of it at one time.
-- Api: dcos-log/api. Api.Types has requests, contexts and replies, Api.Middleware auth.go, mesos.go
--   and download.go of dcos-log/api/middleware. Api.V1.Params and Api.V1.Journal are
--   dcos-log/api/v1/handlers.go, and Api.V2.Params, Api.V2.Redirect, Api.V2.Files and
--   Api.V2.Component dcos-log/api/v2/handlers.go; what the two share is in Api.JournalPage.
--   Api.V1.Routes and Api.V2.Routes are InitRoutes of dcos-log/api/v1/routes.go and
--   dcos-log/api/v2/routes.go over the types of Api.Routing, Api.Router is dcos-log/api/routes.go,
--   and Api.Server dcos-log/api/server.go. Api.Access, Api.Requests, Api.TaskRoutes,
--   Api.JournalStream, Pages, CursorPages, StreamPages and Resuming under Api.V1, and Resume,
--   Streaming, Places, Asking, Sessions, Pages, StartPages, TailPages, EventPages, JournalSettings,
--   JournalPages and JournalStreams under Api.V2 are about them; Sessions has the condition that a
--   request makes a reader of a file.
-- Config: dcos-log/config/config.go, with its schema in Config.Schema.
-- Main: dcos-log/dcos-log.go, and Main.Guarded about it.
-- Tests: the definitions at concrete inputs.
--
-- Parameters. The HTTP client and encoding/json are the record Externals, the package sdjournal is
--   the record Sdjournal, with the journal's own state as a type of its own, the printing of times
--   and of JSON objects is the record Encoders, dcos-go is the records NodeInfo and Dcos, and the
--   flags, files and the validation of the configuration are the record Loader. The transport, the
--   HTTP client and the sockets of the server are the record Platform, and what the handlers use
--   besides the request is the record Surroundings. The clock is an argument. A files API that has
--   a file is the predicate Serves of Mesos.Follow: it answers a request for a range with the bytes
--   of the file in that range. A journal that does not grow is the record IsLog of Journal.Delivery,
--   and one that grows the record IsGrowing of Journal.Stream. What
--   lies behind such a record is fixed for one call of a handler's loop: an event stream is given a
--   client, or a state of the system, for each tick.
--
-- Fuel. Read of the files API jumps back to its start once for each line that it skips: read_fuel
--   is the number of lines left to skip. calcOffset and io.Copy take their fuel as an argument, and
--   the error out_of_fuel says that it did not suffice: no error of the code is that one.
--
-- Not modelled: the matching of paths by gorilla/mux, the serving of a socket, logging, timeouts
--   and the closing of bodies, the texts of error replies, whose codes are kept, and the escaping
--   of a query, which is kept as its fields.
pub mod Base
pub mod Mesos
pub mod Journal
pub mod Api
pub mod Config
pub mod Main
mod Tests
