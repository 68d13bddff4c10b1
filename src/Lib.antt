-- ===== src/Lib.antt =====
-- The core of ft_irc, an IRC server for one thread and one epoll loop. A connection sends bytes;
-- the loop cuts them into lines, a parser makes a message of each, and a table of handlers
-- answers it by queueing lines for this and other connections and by changing the server's state:
-- its clients, its channels and what its extensions keep. The state is passed explicitly, and a
-- function of the source that returns early is a nest of conditionals with the same tests in the
-- same order.
--
-- Files and the code that they model:
--
--   Limits: the constants of include/Replies.hpp.
--   Libcpp: the submodule vendor/libcpp as two interfaces, StrLib for the functions of
--     libcpp::str and SocketLib for libcpp98::BufferedSocket, with the laws that the theorems
--     rely on. They are instance arguments of everything that uses them.
--   Client, Client.Sanitize: src/Client.cpp. Profile is what is known of a client, Client adds
--     the buffered socket; Sanitize is extractMessages with stripNul and splitOnCr.
--   Channel, Channel.Names: src/Channel.cpp. A Client* is the descriptor of its client, so that a
--     pointer that dangles is a descriptor that no client has. Names is the loop of
--     getNamesChunks.
--   Message, Grammar.MatchResult: what the handlers and the parser read of a match
--     (src/Message.cpp and src/grammar/MatchResult.cpp).
--   Parsing: how handleMessage makes a message of a line, and how initGrammar binds the grammar's
--     rules to the commands (src/Server.cpp).
--   Grammar.Chars, Grammar.Rules, Grammar.Embedded: src/grammar/AbnfChars.cpp, the tables of
--     src/grammar/Grammar.cpp and the embedded grammar.
--   Grammar.Lines, Grammar.Result, Grammar.Tables, Grammar.Builder, Grammar.Validator,
--     Grammar.Compile: how a grammar's text becomes tables (AbnfLineReader.cpp,
--     GrammarBuilder.cpp and GrammarValidator.cpp of src/grammar). Tables has the functions that
--     add to the tables, Builder the recursive descent, Compile parseRule and compile.
--   Grammar.Derivation: what a grammar says of a line, as inductive relations and with no order
--     of search.
--   Grammar.Walk, Grammar.Tree: src/grammar/interpreted/TreeMatcher.cpp. Tree.Follow says what a
--     continuation stands for, and Tree.Sound goes through the calls.
--   Grammar.Program, Grammar.Emit, Grammar.Machine: src/grammar/compiled. Program is what a rule
--     is compiled to, Emit the compiler (ProgramCompiler.cpp) and Machine the machine that runs
--     it (ProgramMatcher.cpp).
--   Server, Server.Store, Server.Channels: the fields of include/Server.hpp, the lookups and
--     replies of src/Server.cpp, and the channel table.
--   Lifecycle: teardownClientState, finalizeDisconnect, disconnectClient and disconnectClientNow
--     of src/Server.cpp.
--   Validation: the tests on names of src/Server.cpp, src/CommandOperator.cpp and
--     src/CommandRegistration.cpp.
--   Commands.Registration, Commands.Channels, Commands.Operator, Commands.Modes,
--     Commands.UserModes, Commands.ModeLines, Commands.Messaging, Commands.Query: the handlers of
--     the src/Command*.cpp files; cmdJoin is cmd_join, and so on.
--   Bot, FileTransfer, Extensions: src/Bot.cpp, src/bonus/FileTransferExt.cpp and the loops over
--     the extensions of include/ext/IServerExtension.hpp.
--   Dispatch: kCommands, findCommand and dispatchCommand of src/Server.cpp.
--   EventLoop, EventLoop.Iteration: the loop of Server::run, from acceptClient to
--     updateEpollInterest.
--
-- Membership, Invariant, Isolation, Authority and Reachable hold the proofs. Membership says when
-- the channel table is well-formed and that each handler keeps it so; Invariant adds the clients
-- and their nicknames; Isolation shows that a handler leaves the other clients alone; Authority
-- says who may change a channel; Reachable puts the loop together. A file called Quiet shows that
-- an operation only queues lines, Packing, Reading, Clean, Outgoing, Delivery, Bounds, Valid,
-- Sound, Derived, Binding, Targets, Inside, Ends, Gate and Disconnected stand beside the code
-- that they are about, and Examples runs a session of two clients over concrete libraries.
--
-- Numbers are the native naturals. A time is the value of std::time(NULL), which does not go
-- back; the sizes of the source do not come near 2^32, since a client's input is cut to lines,
-- its output to 64 KiB and a transfer to 50 MiB. A std::map is an ordered association list. The
-- loop of splitOnCr has the length of the line and one more as its fuel, and extractMessages the
-- number of the buffered bytes and one more.
--
-- The pointer to a client that a handler holds is the descriptor by which its profile is read;
-- what is read when there is no such client is the profile `blank`, which no theorem relies on.
-- In an iteration the kernel's answers are given as a list of events with the times at which they
-- are handled; the theorems on reachable states ask of it what epoll_wait(2) and accept(2)
-- promise: a descriptor is reported once, as readable only under a mask that asks for input, and
-- a new connection has a descriptor that is not open.
--
-- The depth to which matchNode nests is counted down from kMaxDepth, so that the matcher recurs
-- on it. The parser of a grammar nests at most as deep as the rest of the text is long, and its
-- loops have that length as their fuel. The octets of a node are computed with the number of
-- nodes as their depth: a node that is asked for while it is being asked for is no single octet.
-- The walks of the validator have the product of the numbers of rules and nodes, for a path
-- enters a rule once. Of a number in a grammar the model covers what an int holds; the result
-- `overflow` stands for what lies beyond. The compiler of a rule nests as the validator does,
-- since it inlines a rule once on a path; only its hasCapture may not end, on a recursive rule. A
-- thread is followed with the length of the program and one more as its fuel, for an instruction
-- is followed once in a round; the generation by which the source marks it, an int that grows
-- over all matches, is a list that starts anew with each round. The caches of both matchers are
-- not modelled, since they hold what is computed anew.
--
-- Not modelled: the log, the trace and the file of the audit log, which are output; sockets,
-- signals and the start of the program; allocation failures. The theorems on the server hold for
-- every parser, an argument of handle_message; the one of the source is `parse`. The file as a
-- source of the grammar and the choices that initGrammar makes by the environment are left out.
pub mod Prelude
pub mod Limits
pub mod Libcpp
pub mod Client
pub mod Channel
pub mod Grammar
pub mod Message
pub mod Server
pub mod Bot
pub mod FileTransfer
pub mod Extensions
pub mod Lifecycle
pub mod Validation
pub mod Commands
pub mod Dispatch
pub mod EventLoop
pub mod Parsing
pub mod Membership
pub mod Invariant
pub mod Isolation
pub mod Reachable
pub mod Authority
mod Examples
