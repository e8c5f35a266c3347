-- ===== src/Lib.antt =====
-- The native core of the ASP.NET Core module for IIS, version 2 of it
-- (src/AspNetCoreModuleV2). The module holds one application manager, which maps configuration
-- paths to applications and keeps them in a hash table; an application out of process has a process
-- manager, which hands out the server processes behind it to the requests. Both stand on the helper
-- library IISLib. A file names the code that it is about in its first lines.
--
--   Base64 and its children model IISLib/base64.cpp: Base64Encode as `encode`, Base64Decode as
--   `decode`, each with its buffer's size, its status code, the size that it reports and what it
--   writes. A buffer that is NULL is a parameter of its own.
--   Prime models IISLib/prime.h: PRIME::IsPrime as `is_prime`, PRIME::GetPrime as `get_prime`.
--   HashTable models IISLib/hashtable.h: the record HashTable is HASH_TABLE with its bucket array,
--   `insert_record`, `find_key`, `delete_key`, `delete_if`, `apply`, `clear` and `initialize` are its
--   methods, the record Virtuals is what a table asks of the class that derives from it. A
--   client fills that record.
--   ProcessManager models RequestHandler/outofprocess/processmanager.cxx and processmanager.h:
--   `get_process` is GetProcess in its three locked parts `ensure_list`, `route` and `replace`.
--   ApplicationManager models AspNetCore/src/applicationmanager.cxx with Inc/applicationmanager.h
--   and Inc/applicationinfo.h: `get_or_create_application_info` in its parts `find_info`,
--   `check_hosting_model` and `create_info`, `recycle_application_from_manager` and `shut_down`.
--   ForwardingHandler models RequestHandler/outofprocess/forwardinghandler.cpp and .h, one request on
--   its way to the server process and back. The record Handler is FORWARDING_HANDLER; its child Start
--   has the constructor, OnExecuteRequestHandler and CreateWinHttpRequest, Pump the functions that move the
--   data, Chunk the chunk header of a request body, Events the entry points OnAsyncCompletion
--   (`on_async_completion`), OnWinHttpCompletionInternal (`on_winhttp_completion`) and TerminateRequest.
--   Steps puts them together: a step relation with the events of WinHTTP, IIS and the client in any
--   order. Effect, PumpEffect, Running, Closing, Callbacks, Notices, Liveness, Replies and Started are the
--   lemmas behind Life, by the phase of a request; Framing and Behaviour are about single operations.
--   ServerProcess models RequestHandler/outofprocess/serverprocess.cxx and serverprocess.h: the record
--   Server is SERVER_PROCESS, `start_server` StartProcess, each attempt as a chain of stages that reach the
--   next one or go to its label Failure. Its children follow the order of a start: Command (SetupCommandLine,
--   SetupJobObject, SetupStdHandles), Variables and Environment (the table of variables of
--   CommonLib/environmentvariablehash.h and RequestHandler/environmentvariablehelpers.h, and
--   OutputEnvironmentVariables), Port (CheckIfServerIsUp, GetRandomPort, SetupListenPort), Jobs (the
--   processes of the job), Check (PostStartCheck) and Launch (StartProcess). Signal has SendSignal and the
--   thread that it starts. Draw, Listen, Fits, Watch, Ready, Stages, Attempt, Waiting, Once, Names and Merged
--   are the lemmas behind Started and about single operations; so is Kept. The records of answers hold what
--   the calls out of a function return.
--   DisconnectContext models RequestHandler/disconnectcontext.h, the callback of a lost client, with
--   NotifyDisconnect and ResetHandler in their two atomic steps.
--   FxVer models the versions of CommonLib/fx_ver.cxx: `compare` and the operators, in its child Parse
--   `parse` and `as_str`, and FindHighestDotNetVersion of CommonLib/utility.cxx.
--   Prelude holds the Boolean tests, lists, bit operations and status codes that they share.
--
-- Numbers are natural numbers; a DWORD's wrap is written out as `% 2 ^ 32`. A fault of the code, such
-- as a division by zero, a read outside an array or through NULL, or a lock that the thread holds
-- already, is the value `none` of an Option (`out_of_bounds` of a Run for the check of a server
-- process), so that a theorem which gives a value excludes it.
-- Status codes are data types with one constructor for each code. What Windows, the C library or a
-- component that is not modelled returns is a field of the records named System.
--
-- Bounds: the trial division of `is_prime` runs for as many rounds as the square root that it
-- computes, and every round adds two; the search of `get_prime` has 2^31 rounds, half of the
-- DWORDs, as many as there are odd candidates. GetRandomPort and the wait of
-- PostStartCheck run on fuel: one draw for each port is enough, as the port 0 that is excluded is never drawn,
-- and the wait needs as many rounds as it takes until the time limit is over and no debugger is attached. The
-- loop over GetExtendedTcpTable follows its answers, which are finitely many. All other loops follow a list.
--
-- An operation of HashTable is one atomic step: the retry of InsertRecord, when another insertion
-- comes between under the shared lock, is not modelled. ApplicationManager takes its table as the
-- list of the records. To ProcessManager, a server process is what
-- the manager reads of it, its port and whether it is ready; a start is a parameter there. In ServerProcess, the
-- thread of a shutdown runs to its end or does nothing, and the deletion of an empty log file is left out. A request runs under its lock, so that an entry point is one atomic step; handles are
-- closed with success, a call of WinHTTP on a closed handle fails, and WinHTTP reports the closing of a
-- handle after all else. What SetStatusAndHeaders and GetHeaders leave is a parameter, and so is
-- what the methods of WEBSOCKET_HANDLER return; a disconnect during the start is not modelled, nor are
-- the references to a handler but for the disconnect context's. Not modelled are web sockets, the
-- configuration, the string classes (but for StartsWith, as the application
-- manager uses it), tracing, the entry points of the module, version 1 of the module, which is
-- largely the same code, the managed server, the tests, and the copy of gtest under test.
mod Prelude
pub mod Base64
pub mod Prime
pub mod HashTable
pub mod ProcessManager
pub mod ServerProcess
pub mod ApplicationManager
pub mod ForwardingHandler
pub mod DisconnectContext
pub mod FxVer
