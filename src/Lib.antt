-- ===== src/Lib.antt =====
-- TableX, a web client for MySQL, PostgreSQL and SQLite databases: the parts of it that decide who
-- may do what, and that take SQL texts apart.
--
-- A request passes the session manager, which finds its session by the cookie; the login rate
-- limiter, for a login; restricted mode, which refuses by route and by database; and the host
-- checks, which decide what server a login may dial and whose address a request counts under. A
-- CSV export writes rows that an import reads back; a dump writes the objects of a database in
-- dependency order, rewrites the sequence references of
-- their DDL, and marks what an import must know; an import and the console split scripts and
-- classify statements; the SQLite driver reads CREATE TABLE texts where the catalog has no answer.
--
-- Files, with the code they are about (paths from the repository's root):
--   Common, Text       shared names and lemmas; Go's functions on strings
--   Session            internal/session/session.go: Session, SSO, Envelope (SetSSO, ConsumeSSOHandshake,
--                      close, Adopt)
--   Session/Handshake  single use of the handshake and of the close hook
--   Session/Store      internal/session/store.go: memStore (Get, Len, Save, Replace, Delete, Reap), with its
--                      invariant, the eviction and each operation in the children; Contract is
--                      the interface Store as calls, replies and the table that it stands for,
--                      and Views, Kept, Swept and Refines show that memStore answers as it says
--   Session/Manager    internal/session/session.go: Manager (Load, Start, Authenticate, Destroy,
--                      Shutdown, one tick of reaper); Manager/Login and Manager/Load have
--                      the theorems
--   Limiter            internal/auth/ratelimit.go: RateLimiter; Cap and Exact have the theorems
--   Group              internal/driver/group.go: Grouper, with Group/Rows; NestedGrouper and StringSet in
--                      Group/Nested, with Nested/Streams
--   Graph              internal/driver/dump.go: TopoOrder, HasSelfEdge; Marks, Walk and Order
--   SeqRefs            internal/driver/seqrewrite.go: RewriteSequenceRefs; Quoting, Rewrite and Hit
--   SeqRefs/Nextval    internal/driver/seqrewrite.go: NextvalTextRefs; Nextval/LateBound
--   Ddl, Ddl/Columns   internal/driver/sqlite/ddlparse.go: the scanners; Ddl/Pieces says how a text is
--                      written out of pieces, Ddl/Options, Ddl/Items and Ddl/Region what
--                      the scanners make of it
--   Csv                internal/dump/csv.go and internal/server/handlers/importer.go: a cell of an
--                      export and what an import binds for it; Csv/Table is the header and the rows,
--                      Csv/Comments the lines in front; Cells and Rows have the proofs
--   Host               internal/auth/host.go: CheckHost, DialControl and ClientIP, and CanonicalHost of
--                      internal/config/config.go; Embedded and Proxies
--   Policy             internal/server/restrict.go: the policy and databaseOf; Decision and Segments
--   Marker             internal/driver/marker.go: the marker lines; Marker/Hex and Marker/Collation
--   Marker/Delimiter   internal/driver/marker.go: ChooseFrameDelimiter; Number, Search and Fresh
--   Script             internal/sqlscript/sqlscript.go: the lexer's skips, internal/driver/lexer.go: the
--                      profile; Script/Query is IsQuery with its helpers, Script/Frame is
--                      consumeFrame; Skips, Total, Frame/Verbatim and Frame/Total
--   Script/Scan        internal/sqlscript/sqlscript.go: one round of scanCapped; Scan/Loop is its loop,
--                      with ScanLimit, Scan, SplitLimit, Split and EventBudget; Returns, Moves, Progress, Cap,
--                      Limits, Frames and Restored have the proofs
--   Script/Restore     internal/sqlscript/restore.go: SplitRestoreSections, ParseConnectLine; Quoted, Names,
--                      Rounds and Switch have the proofs
--   Script/Restore/Header  internal/driver/postgres/postgres.go, connection.go: the \connect line
--   Script/Restore/Preflight  internal/server/handlers/importer.go: the checks of runRestoreScript
--   Text/Runes         Go's conversions between strings and runes
--   Script/Scan/Dumped internal/dump/sql.go: the opaque frame of writeDumpScript
--   */Tests            each theorem at a concrete input
--
-- A string is the list of its bytes; an index into a text is the suffix that begins there, and what
-- a scanner looks back at is the text read, last byte first. What Go answers from the Unicode
-- tables, outside ASCII, is the parameter Tables of Text. A pointer to a session is a number into a
-- heap; an operation that holds a lock throughout is one step. A function value (a test, a close
-- hook, an admission) is a function, a number or an answer that the caller gives. Clock readings
-- and random ids are arguments.
--
-- A loop that Go writes with an index is structural recursion where its step is, and else recursion
-- on fuel: the length of the text for the scanners, one more for the loops over comments and over
-- the parts of a name, the number of names for the depth of TopoOrder's calls, one more than the
-- bytes for scanCapped, SplitRestoreSections and skipLeadingCSVComments, and one more than the
-- taken numbers for ChooseFrameDelimiter. none stands for fuel that ran out; the results below say
-- where none cannot be.
--
-- Not modelled: database connections, HTTP, templates, logging and configuration files, which are
-- I/O; the durable session store and the resolver of dump cycles; ddlHasInlinePKDesc, which is one
-- regular expression; the text of CSV files, which encoding/csv reads and writes (it reads a
-- carriage return and a newline inside a quoted field as the newline alone).
pub mod Common
pub mod Graph
pub mod Limiter
pub mod Session
pub mod Text
pub mod SeqRefs
pub mod Ddl
pub mod Policy
pub mod Marker
pub mod Script
pub mod Group
pub mod Host
pub mod Csv
