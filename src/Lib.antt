-- ===== src/Lib.antt =====
-- A verification library for Couchbase Lite for iOS: the revision IDs and the revision trees that
-- its SQLite storage keeps, its local documents, the replications of the API with their settings,
-- the map of pending sequences that a replication takes its checkpoints from, queries and their
-- rows, the differences of two arrays, the parser of dates, and the objects of documents and
-- revisions of the API.
--
-- A document is a tree of revisions. A revision ID is a generation number, a hyphen and a digest
-- (Source/CBL_RevID.m). The storage engine (Source/CBL_SQLiteStorage.m) keeps a row per document
-- in the table docs and a row per revision in the table revs, which is collated by the comparison
-- of revision IDs. It inserts revisions of the application (addDocID:) and of a replication
-- (forceInsert:), finds the winning revision among the current ones, and prunes old revisions.
--
--   Base and the modules below it: the library's names that the other modules share, Boolean
--     tests, lists and integers over the native numbers, byte strings with memchr and memcmp,
--     results with an error status, and my_map.
--   RevId: Source/CBL_RevID.m, with CBLAppendDecimal and CBLAppendHex of Source/CBLMisc.m.
--     collate_rev_ids is CBLCollateRevIDs; generation, suffix, as_string, rev_id_for_json,
--     make_revision_history_dict and parse_revision_history_dict are the methods of these names.
--     Below it are the proofs on digits, on the comparison (Collate, Order), on the IDs that the
--     program writes (Canonical, Next), and on the dictionaries (History).
--   Storage.Table: the schema and the forms of SQL statement. A Store is the state of the
--     database.
--   Storage.Docs: the numeric IDs of documents and their cache.
--   Storage.Queries: the methods that read a revision tree, and winnerWithDocID:.
--   Storage.Prune: pruneDocument: and purgeSequences:. Storage.Purge: purgeRevisions:.
--   Storage.Insert: transactions, insertRevision: and forceInsert:. Storage.Put: addDocID:.
--   Storage.WellFormed: the invariant of the table revs, and the statements that keep it; Steps,
--     Preserved and PutPreserved carry it through forceInsert: and addDocID:.
--   Storage.Documents and Storage.Changes: the methods that read documents through their string
--     IDs, the changes feed and findMissingRevisions:.
--   Storage.Local: local documents and the table info. A Database is a Store with these two
--     tables.
--   Storage.Protocol: the protocol CBL_Storage of Source/CBL_Storage.h as a record StorageApi of
--     operations. Storage.Sqlite is the class CBL_SQLiteStorage as such a record, and
--     Storage.Contract the laws.
--   Storage.PurgeLists, PurgeScan and PurgeLeaves: the proofs on what purgeRevisions: deletes and
--     what it keeps.
--   Storage.Rows, Winning, NewWinner, Pruning, Purging, Conflicts, Missing, Ancestors, LocalRows,
--     LocalReads and LocalConflicts: the other proofs. Storage.Divergences compares the code with
--     the comments of the protocol.
--   Replication.Settings: Source/CBL_ReplicatorSettings.h and CBL_ReplicatorSettings.m, with the
--     proofs in Replication.Equality and Replication.Transform.
--   Replication.Front: the object CBLReplication of Source/API/CBLReplication.h and
--     CBLReplication.m on the main thread. Replication.Machine adds the replicator on the server's
--     thread and the queues of tasks between the two: a System is changed by steps, each a call on
--     the main thread, the next task of a queue, or a report of the replicator.
--     Replication.Reached is about all the states that are reached, Replication.Restart about
--     restart and the list of channels.
--   SequenceMap: Source/CBLSequenceMap.m, with its proofs in SequenceMap.Checkpoints. The fields
--     are the instance variables, an index set is the list of its members.
--   Status: Source/CBLStatus.h and Source/CBLStatus.m, with the proofs in Status.Laws. code is the
--     number of a status; to_http_status, to_ns_error and from_ns_error are the functions of these
--     names.
--   Query: the parameters of a query (Source/API/CBLQuery.h and CBLQuery.m) and the options that
--     the storage gets (Source/CBL_StorageTypes.h, Source/API/CBLView.m), with the proofs in
--     Query.Copies. Query.Row is a row of the result (Source/API/CBLQueryRow.m) and the enumerator
--     (Source/API/CBLQueryEnumerator.m), whose public methods are a record in Query.Enumerator;
--     Query.SameRow compares isEqual: and compareForArrayDiff:.
--   Manager: the names of databases and the databases that a manager has opened
--     (Source/API/CBLManager.h and CBLManager.m), with what Source/CBL_Shared.m keeps of them;
--     Manager.Opened and Manager.Names have the proofs. RevId.Interface is the class CBL_RevID of
--     Source/CBL_RevID.h as a record, and its implementation.
--   Revision: Source/CBL_Revision.h and Source/CBL_Revision.m, a revision and the list of
--     revisions, with the proof on removeAndReturnRev: in Revision.Removal. Revision.Interface has
--     the methods of the header as records.
--   Differ: Source/Differ.cc with the types of Source/Differ.hh. A BaseDiffer is the C++ object,
--     with its table kept in stripes; setup, compute, distance, all_changes (for `changes`) and
--     add_change are its methods, and compute is a recursion on both positions. Differ.Table,
--     Setup, Steps and Compute are about the table, Script says what a list of changes does to an
--     array, Loop, Walk, Moves, Distance and Shortest are about the results.
--   ParseDate: Source/CBLParseDate.c. parse_iso8601_date is CBLParseISO8601Date, and the static
--     functions keep their names. Days counts the days from January 1st of the year 0. Calendar
--     compares the day numbers with the calendar, Parsed and Accepted say what is accepted and
--     what it denotes, Digits and Printed are about texts that are dates.
--   Batcher: Source/CBLBatcher.h and CBLBatcher.m, a queue whose objects are processed in groups;
--     Batcher.Delivery is about all the states that are reached.
--   ByteBuffer: Source/CBLByteBuffer.h and CBLByteBuffer.m, a queue of bytes in one array, with
--     the proofs in ByteBuffer.Contents.
--   Cache: Source/CBLCache.h and CBLCache.m, with the proofs in Cache.Recents. collect is what the
--     runtime does to the table of weak references.
--   Document: the objects of the API. Document.Properties has the dictionaries of
--     Source/CBL_Body.m and the user's properties of Source/API/CBLRevision.m, Document.Change
--     Source/CBLDatabaseChange.m, Document.Access the objects of Source/API/CBLDocument.m and the
--     current revision that a document caches, Document.Revisions the other methods of
--     CBLRevision.m that read, Document.Saving those of both files that write. Document.Interface
--     and Document.Methods are the headers CBLRevision.h and CBLDocument.h as records, with their
--     implementations. Document.Body is the class CBL_Body of Source/CBL_Body.h, with JSON for a
--     parameter, Document.Attachment the metadata of an attachment (Source/CBL_Attachment.h and
--     CBL_Attachment.m), and Document.Internal the categories of Source/CBLInternal.h. The proofs
--     are in Document.Properties.User, Document.Saving.Update, Document.Attachment.Stub and
--     Document.Body.
--   DatabaseApi: parts of Source/API/CBLDatabase.h and CBLDatabase.m. Documents is the cache of
--     document objects, Local the local documents above those of the storage, Validation the named
--     blocks and what Source/CBLDatabase+Insertion.m does with those that validate. The proofs are
--     in Instances and Verdict.
--   Tests: runs of the definitions, and the theorems at concrete inputs.
--
-- A method that changes the database is a function from a Store to a Store with its result. The
-- block of a transaction is a Result, an early return of a status is err, and in_transaction
-- restores the tables when the status is an error. addDocID: is modelled as it runs when no
-- transaction is open.
--
-- The loop of CBLAppendDecimal has room for 20 digits, and a number of type unsigned needs 10 at
-- most: append_decimal_total shows that the room is enough. The walk from a leaf in pruneDocument:
-- takes _maxRevTreeDepth steps at most, as in the source. The other loops are recursions on a
-- list.
--
-- In Differ the loop of `changes` has as much fuel as both arrays have items, and addChange, which
-- calls itself, as much as the list has changes and one more; both are shown to be enough. Arrays
-- have less than 2 ^ 24 items, so that a distance fits into its bit-field. The test itemsEqual,
-- which is pure virtual, is a parameter.
--
-- In ParseDate the Julian day is an integer, since it is one in the source up to a factor, and the
-- seconds are in the arithmetic of the parameter Doubles, of which nothing is assumed. The local
-- variable of the parser that is not initialized is an argument.
--
-- In Batcher the times are of the type of the parameter Times, and the processor is a block that
-- may change the batcher; the proofs are about one that writes a log. The loop of flushAll ends
-- when the processor leaves the inbox empty: for such a processor one unit of fuel is enough,
-- which flush_all-inbox proves. In ByteBuffer the search of NSData is a parameter. In Document the
-- casts of objects are the parameters PropertyTypes and EntryTypes, CBLJSON and the generator of
-- YAJL are in BodyTypes, the store of blobs is in Blobs, and the methods of a database are the
-- record DocumentDatabase; the loop of update: runs on fuel, and two units are enough when nobody
-- else writes to the database, which is the hypothesis IsQuiet of Document.Saving.Quiet. In
-- DatabaseApi.Validation the equality of objects is a parameter, and the current revision is given
-- with its body.
--
-- In Manager the methods of strings on paths, the keys of encryption and the opening of a
-- database's files are parameters.
--
-- In Status the error codes, domains and texts of Foundation, and the dictionary of an error, are
-- the parameter Foundation, of which nothing is assumed.
--
-- In Query the keys, blocks, predicates, sort descriptors, views and rectangles are of the types
-- of the parameter QueryTypes, which the code only passes on. The JSON of a row is of the types of
-- RowTypes. Running a query and refreshing a live query are not modelled.
--
-- In Storage.Local the properties of a document and the encoder of JSON are the parameter
-- JsonTypes. In Replication the URLs, numbers, dictionaries, authenticators and errors of the
-- system, and the digest SHA-1, are the parameters SettingsTypes and FrontTypes; that the digest
-- tells the settings at hand apart, and that names without a comma are joined by commas and
-- separated again, are hypotheses. Cookies, credentials, certificates, the user agent, the
-- dictionary of properties and pendingDocumentIDs are not modelled.
--
-- The digest MD5, the encoder of canonical JSON, the unique IDs of new documents, the validation
-- block and the order in which an NSSet enumerates its members are parameters. my_map belongs to
-- MYUtilities, a git submodule, and is a parameter with its documented behaviour. Proofs on IDs
-- assume that the digest has 16 bytes, proofs on pruning that the enumeration is complete. A
-- statement does not fail but for the constraint UNIQUE (doc_id, revid); failures of the disk,
-- busy databases and their retries, logging and notifications are not modelled, nor are the other
-- storage engine, views, the replicator behind a replication, networking and the parts of the API
-- that are left: model classes, the store of attachments, and the opening of a database.
pub mod Base
pub mod Status
pub mod Query
pub mod Manager
pub mod Batcher
pub mod ByteBuffer
pub mod Cache
pub mod Document
pub mod DatabaseApi
pub mod Replication
pub mod RevId
pub mod Revision
pub mod Storage
pub mod SequenceMap
pub mod Differ
pub mod ParseDate
pub mod Tests
