-- ===== src/Lib.antt =====
-- EyeDebugger is a debugger for agents and humans: a daemon keeps debug sessions, each a debug
-- adapter that runs a program, and several clients (agents on a command line, humans in an editor)
-- share a session. This library models what a session keeps for its clients and what decides
-- between them. The adapter, the processes, the file system and the network are outside: where the
-- code asks them, the answer is a parameter.
--
-- The parts. A session (Session.antt, for internal/session/session.go) has a lease, which decides
-- what client controls it; a log of events, which every client reads by a cursor; its clients'
-- editor connections; its breakpoints and exception modes. Every operation of the lease and of the
-- connections appends to the log. A session's mutex makes each locked part of a function one step;
-- where a function lets go of the mutex, its parts are separate steps and the theorems are on any
-- interleaving of them.
--
-- Api.antt: the records of internal/api (client.go, lease.go, session.go, events.go). Api/Int.antt:
-- the integers of a query's limit.
--
-- EventLog.antt: internal/session/events.go. `append`, `trim` (trimLocked), `query` (queryLocked
-- with `held_after`, `select` for its parts), `query_watch`, `output_since`, `output_until`;
-- EventLog/Waiting.antt: `wait`, over a schedule of the appends that come meanwhile.
-- EventLog/History.antt and Query.antt state the log against the plain list of all events.
--
-- Lease.antt: internal/session/lease.go. `allows`, `take_lease`, `release_lease`, `grant_lease`,
-- `set_lease_policy`, `request_lease`, `acquire` (acquireLocked), `drop_request`, `set_holder`,
-- each with the code's guards in their order. Lease/ClientName.antt: ParseClient of
-- internal/api/client.go.
--
-- Presence.antt: internal/session/presence.go and clients.go, and the locked parts of
-- breakpoints.go and exceptions.go that a cleanup runs. `connect`, `exceptions_set`, `decrement`,
-- `finish_leave`, `take_out` and `log_removed` (removeBreakpoints), `commit_mode`
-- (setExceptionMode); Presence/World.antt: a session with all its handles, and what can happen to
-- it.
--
-- Frame.antt: internal/dap/frame.go. A stream is its bytes and what it reports after them; a read
-- gives its result and the bytes it left.
--
-- Calls.antt: internal/dap/client.go. `start` and `outcome` (Do), `unregister`, `deliver`,
-- `dispatch`, `end_reading` (the end of readLoop), `respond`; a send or a close that would block or
-- panic is `none`.
--
-- StopFilter.antt: internal/session/emulate.go, the part that decides. `plan` (planLocked), `held`,
-- `to_evaluate`, `decide`, `attribution`, `needs_filter`. What a condition evaluates to in the
-- stopped frame is a parameter, and so is the matcher of a breakpoint's file. Hit counts and
-- messages come parsed there.
--
-- Stops.antt: how a reported stop is applied, published or continued past, of the same file and of
-- session.go; `filter_stop` is filterStop with nothing in between.
--
-- StopFilter/Messages.antt and Messages/Hits.antt: the parsers of the same file, parseLog and
-- parseHit, on code points.
--
-- Execution.antt: the part of internal/session/session.go on a program's execution: `on_exited`
-- (onExitedLocked), `on_terminated`, `append_output` (appendOutputLocked), `end_session`
-- (endLocked), `ask_terminate`, `mark_stopping` and `shut_down` (the locked parts of Terminate,
-- terminate and shutdownAdapter), and `finish_run` of internal/session/testrun.go.
-- Execution/Requests.antt: `admit`, and `begin_send` and `end_send` (the locked parts of send).
-- Execution/Steps.antt: all of these in any order, with the stops of Stops.antt and the calls of
-- the lease.
--
-- Breakpoints.antt: internal/session/breakpoints.go, the parts under the session's mutex.
-- `add_breakpoint` (addBreakpointLocked), `add_new` (addNewLocked), `place_target`,
-- `remove_breakpoint`; Breakpoints/Replace.antt: `refuse`, `match_items`, `match_locked` of
-- internal/session/replace.go, where the file's breakpoints carry their part in the request in
-- place of the code's list of pointers. Breakpoints/Steps.antt: any order of these.
--
-- Manager.antt: the registry of internal/session/manager.go: `get`, `only`, `add`, `remove`,
-- `remove_session`, `new_id`, over what each session says of itself.
--
-- Present.antt: internal/present/events.go, the cuts of events and text to a size;
-- Present/Budget.antt: `fit_vars`, the Fit of internal/present/budget.go, with the result as a list
-- of the variables kept, each with its parent's place. Anchor.antt: lcs of
-- internal/session/anchor.go, its two rows as lists. PathMap.antt: `to_local` and `to_remote` of
-- internal/session/pathmap.go, over the segments of paths.
--
-- Guard.antt: drivers/generic/guard.go, which tells whether an expression may change the program.
-- `check`, `step`, `identifier`, `call`, `skip_string`, `assignment`, on code points;
-- Guard/Language.antt describes what is harmless as a grammar of tokens.
--
-- Names.antt: internal/container/validate.go and CheckGroup of internal/api/container.go, the
-- checks of the names that reach the container engine, on bytes. `validate_spec`, `valid_ref`,
-- `valid_host`, `valid_context`, `valid_service`, `valid_group`.
--
-- Captures.antt: the captures of internal/session/session.go (`begin_capture` and `end_capture` are
-- the locked parts of capture, `changes` of the same name) and `mark_stale` of
-- internal/session/evalset.go; Present/Difference.antt: `diff`, the Diff of
-- internal/present/diff.go.
--
-- VarPath.antt: `split_path` and `join_path` of internal/session/inspect.go, and
-- `check_assignable`, `is_identifier` and `is_index_literal` of internal/session/evalset.go.
--
-- Slots.antt: internal/session/slots.go. Group.antt: the merge and the cursor of
-- internal/session/group.go. Claims.antt: internal/session/claims.go, the keys' texts taken apart.
--
-- Prelude.antt, with Prelude/Tests.antt and Prelude/Lists.antt: Boolean tests, lists and their
-- lemmas.
--
-- Conventions. A Go int is a natural number where the code never lets it be negative (counts, seqs,
-- generations, bytes, lines); none of them comes near the bound of its type. A time is a natural
-- number. A map is an association list. A nil pointer is `none`. An error is a value of a result
-- type, without its text. A loop that the code bounds is recursion on the list it runs over;
-- `decimal` and `natural_text` have fuel, and a number has fewer digits than its successor;
-- `parse_from`, `scan` and `split_from` have the text's length and each turn takes a code point;
-- `fit_queue` has one more than the variables, and a level is queued once for each at most; `merge`
-- runs as many turns as events are left, as the code's loop condition says. The wait loop runs over
-- the appends of its schedule and ends with it.
--
-- Not modelled: the round trips to the adapter, the text of messages and hints, JSON, logging of
-- the daemon itself, and the parts of the program that start processes, read files or serve sockets
-- (the daemon, the command line, the facade of an editor, adapters, and of drivers and containers
-- all but the checks named above).
mod Prelude
pub mod Api
pub mod EventLog
pub mod Session
pub mod Lease
pub mod Presence
pub mod Frame
pub mod StopFilter
pub mod Slots
pub mod Group
pub mod Claims
pub mod Stops
pub mod Anchor
pub mod Present
pub mod Breakpoints
pub mod Manager
pub mod Calls
pub mod PathMap
pub mod Guard
pub mod Names
pub mod Captures
pub mod VarPath
pub mod Execution
