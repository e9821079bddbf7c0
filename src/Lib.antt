-- ===== src/Lib.antt =====
-- dbmysqlpool: a pool of MySQL connections in C++, with a queue of SQL texts and threads that run
-- them. This library models the program's core and states what it does.
--
-- The parts and how they interact. A connection object (DbMySQLPool/DbMySQLConnection.cpp) owns one
-- handle of the MySQL client library and at most one prepared statement; it connects when it is
-- first used, and again when the server has gone. A pool (DbMySQLPool/DbMySQLPool.cpp) keeps
-- objects that stand by and those in use, and its own statement methods borrow one for a call
-- (SipPlatform/AutoRelease.h). A queue (DbMySQLPool/DbMySQLQueue.cpp) takes SQL texts with their
-- arguments, and threads (DbMySQLPool/DbMySQLThread.cpp), each with a connection of its own, run
-- them. Helpers read numbers, texts and rows (SipPlatform/StringUtility.cpp,
-- DbMySQLPool/DbSetData.cpp), test for the characters of an SQL injection
-- (DbMySQLPool/DbCheckSqlInjection.cpp), and keep texts by key (SipPlatform/StringMap.cpp). The
-- applications read their setup from XML, with a parser and a tree of elements
-- (XmlParser/XmlElement.cpp) and searches through it (XmlParser/XmlSearch.cpp). One of them keeps
-- the slowest SQL texts of a server (MySQLQueryMonitor/QueryTimeList.cpp), another restarts a
-- stopped replication slave (MySQLSlaveOverWatcher/MySQLSlaveOverWatcher.cpp); both use a
-- connection object of their own. Two command-line tools run the texts of a general log
-- (MySQLLogExecute/MySQLLogExecute.cpp) and one statement for each table of a database
-- (MySQLAlterTable/MySQLAlterTable.cpp). The platform's log (SipPlatform/Log.cpp) writes messages
-- to a file for each day, a new one where a file is full, and deletes the oldest files when its
-- folder is; it uses SipPlatform/Directory.cpp and SipPlatform/FileUtility.cpp.
-- SipPlatform/SipTcp.cpp sends and receives on TCP sockets.
--
-- The files. Base passes on the library's names, with Boolean tests, lists measured by native
-- numbers, signed integers and C texts. Number models strtoul, atoll and atoi as C defines them
-- where `unsigned long` has 64 bits, and GetUInt32 and GetUInt64. Text/Find models
-- std::string::find, SearchString and SearchValue, and Text/Replace ReplaceString. Injection,
-- SetData and StringMap model the files of the same names. Mysql holds the types of the client
-- library's calls. Connection/State has the members, the constructor and the setters;
-- Connection/Link has Connect, Close, PrepareClose and Query; Connection/Prepared has Prepare, Bind
-- and PrepareExecute; Connection/Results has Execute, Insert, the Query with a callback, and
-- QueryOne; Connection/Lookup has QueryOne with an argument, IsExistTable, GetAffectedRow and
-- GetError. Connection/Protocol says which state of the handle, of the statement and of a result
-- that was taken a call of the client library needs, and does not follow a result that nobody
-- takes, Connection/Invariant what a well-formed object is, Connection/History what sequences of
-- public calls there are, and Connection/Effects what a sequence of library calls tells of the
-- server: the texts sent, and those whose call reported success. Pool/State has the pool and its
-- methods and Pool/Calls its statement methods; Pool/Ownership, Pool/Lifecycle and Pool/Borrow hold
-- their laws. Queue has the queue's methods, Queue/Order the runs of its sections, Queue/Waiting
-- the threads that wait. Thread/Defs has the threads, Thread/Laws their laws. Xml/Attributes and
-- Xml/Element have the members of an element, Xml/Parse Parse and Xml/Print ToString; Xml/Select
-- has what is read of an element and Xml/Build what puts one together; Xml/Search has
-- XmlSearch.cpp. Xml/Progress is about the end of Parse; Xml/Runs, Xml/Steps, Xml/AttributeRuns,
-- Xml/TagRuns and Xml/ContentRuns follow it through a printed element, Xml/Writable says which
-- ones, and Xml/RoundTrip puts these together. Xml/Matches, Xml/Children, Xml/Updates,
-- Xml/AttributeLaws and Xml/Numbers hold the laws of the other operations. Decimal models snprintf
-- with %d and %lld, and Shown what it cuts off. Monitor has the list of slow texts and what a round
-- of MySQLQueryMonitor/MySQLQueryThread.cpp does, with its laws in Monitor/Times, Monitor/Order and
-- Monitor/Round; Monitor/Control has the starting and stopping of its thread as steps on its two
-- flags. Watcher has CheckSlave and the count of the seconds between two checks, with its laws in
-- Watcher/Repairs and Watcher/Timer. Setup has MySQLQueryMonitor/MySQLQueryMonitorSetup.cpp, with
-- its laws in Setup/Values, and Setup/Watching
-- MySQLSlaveOverWatcher/MySQLSlaveOverWatcherSetup.cpp. Tools has what the two command-line tools
-- share, Tools/LogFile how a general log is read, Tools/Lines and Tools/Entries what is read of its
-- lines and entries, Tools/LogExecute and Tools/AlterTable the two programs. Log has the state of
-- the log and its settings, with their law in Log/Settings; Log/Names has the names of its files
-- and LogFileCompare, with its laws in Log/Order and Log/Sorted; Log/Disk has what is called of the
-- file system, Log/Folder FileList and DeleteOldFile, with its law in Log/Deletion; Log/Print has
-- Print, with its laws in Log/Rotation and Log/Bounds. Directory has CDirectory::Create, with its
-- law in Directory/Creation, and Directory/Paths the functions that take a path apart. Time models
-- SipPlatform/TimeString.cpp and SipPlatform/TimeUtility.cpp, with its laws in Time/Texts and
-- Time/Differences, and MonitorString SipPlatform/MonitorString.cpp. Socket has TcpSend, TcpRecv
-- and TcpRecvSize, with their laws in Socket/Transfer. Tests holds runs at concrete inputs.
--
-- The state. A method of a connection is a function from a session, the object with the calls that
-- it has made so far, to its result and the next session. What the client library and malloc answer
-- is an argument, a function of the calls so far, so that a law holds for any server and any
-- failure. A pool's world has the pool, a session for each object, named by the order of
-- allocation, and the objects that were deleted; m_clsUseMap, which maps each connection to itself,
-- is the list of its keys. Code between acquire and release of a mutex is one step; `others` is
-- what other threads do while this one sleeps. An XML element is a name, a text, an association
-- list in the order of the keys and a list of elements; a pointer to a child is its place in that
-- list, and an operation that changes a stored text gives the element as it is then. Texts are C
-- texts, without a zero byte. The file system that the log and Create use, and a socket, are
-- records of functions over an unknown state, with what the C library says of them in IsOrderly,
-- IsTree and IsWire; the open file of the log is known by its name, and a file of the general log
-- is the text that it holds.
--
-- The fuel. The loop over the rows of a result, the waiting loop of Pool.Select, the loop of a
-- thread and that of ReplaceString take fuel, as does that of CheckSlave, and give `none` when it
-- runs out; the loops of two rounds in Query and Prepare, and that of 500 rounds in Destroy, are
-- their own bounds. OPEN_FILE takes fuel for a round on each index up to one whose file is not
-- full, and TcpSend and TcpRecvSize take it for a round on each byte. Parse takes fuel for a round
-- on each byte and one more call for each child: twice the length of the text and one is enough.
--
-- The bounds. The `int` counters of loops and sizes are numbers without overflow: they count
-- connections, arguments and queue entries of one process. Numbers read from texts wrap or saturate
-- as in C, and the product of SetMaxFolderSize wraps. A general log is read with a buffer of 8192
-- bytes and statements of the table tool are cut to 1023, as the arrays of the source are.
--
-- What is not modelled. The result of a text that no call takes, for which the client library
-- refuses the text after it; what the connection and the pool log; `new` that fails; the plug-in
-- directory is used as in a build with USE_PLUGIN_DIR. The unlocked read of m_bDestroy in a round
-- of Select is taken together with the section behind it, and what a thread's round reads of
-- gbStopThread is an argument. Of the XML parser the variants for a double, WriteFile and ToString
-- into a buffer are left out, and of the searches SelectAttribute for an int and a bool, which trim
-- the text they find. Of the applications, the sleeps, and the watcher's start and its change of
-- the setup are left out, and so are the monitor's windows, and what the tools print on the screen.
-- Of the platform, SetDirectory and Release of the log, its near copy in SipPlatform/FileLog.cpp,
-- the making of sockets, GetSize and Delete of a directory, the mutex classes, and mysql/, which is
-- the client library, are left out. What localtime_r and gettimeofday give is an argument. The
-- calls of readdir, stat, mkdir, unlink, fopen, fprintf, send, recv and poll are parameters.
pub mod Base
pub mod Number
pub mod Decimal
pub mod Shown
pub mod Text
pub mod Injection
pub mod SetData
pub mod StringMap
pub mod Mysql
pub mod Connection
pub mod Pool
pub mod Queue
pub mod Thread
pub mod Xml
pub mod Monitor
pub mod Watcher
pub mod Setup
pub mod Tools
pub mod Log
pub mod Directory
pub mod Socket
pub mod Time
pub mod MonitorString
pub mod Tests
