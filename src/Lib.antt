-- ===== src/Lib.antt =====
-- zdaq is a data acquisition framework: data sources push buffers to event builders over ZeroMQ, the
-- event builders assemble events and hand them to plugins, and every process is driven by a state
-- machine that a web server exposes; a job control on each computer starts and kills the processes.
--
-- The parts of the program, and the files that model them:
--
-- Buffer.antt (include/zmBuffer.hh): `zdaq::buffer`, a block of bytes with 20 bytes of header, the
--   flag of a compressed payload, `compress` and `uncompress`. Buffer/Fields reads a buffer as a record;
--   Buffer/Compression is about the two calls of zlib, which is the interface of Zlib.antt.
-- Wire.antt: the text in front of every message, as src/zmPusher.cc and src/zmSender.cc print it and
--   src/zmPuller.cc and src/zmMerger.cc scan it; Wire/RoundTrip relates the two.
-- Source.antt (src/zmPusher.cc, src/zmSender.cc): the two kinds of data sources, `publish` and
--   `collectorRegister`. Source/Frames and Source/Ready follow a buffer from a source to a merger,
--   Source/Routing the socket it goes to; Source/Discovery is `autoDiscover`.
-- Puller.antt (src/zmPuller.cc): what one ready socket does to the polling loop.
-- Router.antt (src/zmRouter.cc): what the sources of one computer publish, forwarded. The source for it is
--   Source/Publisher (src/zmPublisher.cc), and Router/Listed relates the two.
-- Processor.antt (include/zmMerger.hh, `zmprocessor`): the plugins, as an interface.
-- Merger.antt (src/zmMerger.cc): the event builder. Merger/Data is `processData`, Merger/Processors is
--   `processEvent`; Merger/Contract, Merger/Kept, Merger/Invariant and Merger/Runs prove what they promise.
-- Writer.antt (src/pluggins/binarywriter.cc) and Writer/Dummy (src/pluggins/dummywriter.cc): the two
--   plugins; Writer/Plugin makes the first one a `Processor`, Writer/Records has a reader of its files.
-- Fsm.antt (src/fsm.cc, src/fsmmessage.cc): the state machines and their messages. jsoncpp is the
--   interface of Json.antt. Fsm/Invariants is the rule by which invariants of machines are proved.
-- Job.antt (src/fsmjob.cc): the job control, its handlers, requests and transition table. Job/Thrown is what
--   its calls leave behind where they throw; Job/Reach is about whole runs, with such calls in them.
-- Caller.antt (src/fsmwebCaller.cc): the client of the web servers; Caller/Encoding has its URL encoding,
--   Caller/Queries what it asks and keeps.
-- Monitor.antt (src/zPublisher.cc, src/zSubscriber.cc): the status of the hardware, published and kept;
--   Monitor/RoundTrip relates the two, Monitor/Streams is about a round of `poll`.
-- Web.antt (src/fsmweb.cc): the server of a machine, its routes and handlers; mongoose is a library, and a
--   request is its parameters. Configs.antt has what the readers of configurations share.
-- Application.antt (src/baseApplication.cc): what every application has. Application/Parameters is about the
--   search for the parameters of a process, Application/Apps is `findApps`.
-- Collector.antt (builder/src/localCollector.cc): the application that drives a merger, its machine and its
--   requests; Merger/Status and Merger/Running are about the merger it reports on and starts.
-- Builder.antt (example/src/exBuilder.cxx): the event builder of the example, which shares the handlers of a
--   collector; Builder/Machine is its constructor.
-- Trigger.antt (example/src/softTrigger.cxx): the trigger of the example; Trigger/Halted is about one that is
--   halted and runs again.
-- Tail.antt (src/fileTailer.cc): the last lines of a log, through an array that is reused from its start.
--   Tail/Steps and Tail/Bounds show where it writes; Tail/Slots, Tail/Chars, Tail/Lines and Tail/Last what it
--   prints.
-- Monitoring.antt (monitoring/daemon/src/lsc.cxx, monitoring/src/zmonSupervisor.cxx): the daemon and the
--   application that read hardware in rounds. Monitoring/Lsc and Monitoring/Supervisor are their handlers,
--   Monitoring/Machines their machines, Monitoring/Rounds, Monitoring/Defaults, Monitoring/LscRuns and
--   Monitoring/SupervisorRuns what they do over time. Plugins (include/zmonPlugin.hh) and stores
--   (include/zmonStore.hh) are interfaces.
-- EndToEnd.antt puts a source and a merger together. Base.antt and its children hold bytes, texts, ordered
-- maps and results; Examples.antt and its children hold concrete runs.
--
-- How the code is modelled. An object is a record and each method a function from the record to the next
-- one. What C++ leaves undefined is a value: `overrun` where a copy leaves its array, `indeterminate`
-- where a variable is read that was not written, `crash` for a division by zero, `thrown` for an exception
-- that leaves the call; what the call did before is kept where runs are about it (Job/Thrown). Unsigned integers are natural numbers with their wrap-around written out; signed
-- ones are bit patterns. A `std::map` is the list of its entries in the order of the keys. Memory is a list
-- of bytes, words are little endian. No definition runs on fuel but `digits` of Base/Text, which is given
-- one round more than the number, and each round divides it by ten.
--
-- What is given. ZeroMQ decides which parts of a message arrive (`Delivery`, `Arrival`), and nullifies a
-- message that was sent (`Zmq`). zlib expands what it compressed, within the bound that it documents
-- (`Zlib`). jsoncpp reads what it wrote (`Json`). Files, pages, processes and the network of the job control
-- are `World`, and the pages of a web client its `page`; files, pages and variables of an application are
-- its `Environment`; what dlopen finds is a function of the name; the descriptors that a writer gets are
-- its `opening`. The clock during a round of monitoring, and what becomes of the memory that ZeroMQ is lent
-- for the texts of its messages, are `Turns`. Zlib.storing, Puller.emptying and Json.Packed.packed meet
-- these assumptions.
--
-- Not modelled: logging and printing; threads, as a merger's polling loop and the calls of the application
-- are steps in some order, each of them whole; the child's side of
-- `startProcess` and `jsonInfo` in src/fsmjob.cc; `sendCommand` with parameters as JSON in
-- src/fsmwebCaller.cc; the application of one monitor (include/monitorApplication.hh);
-- example/src/exServer.cxx, example/src/exRunControl.cxx, and the search of the trigger for its servers.
pub mod Base
pub mod Zlib
pub mod Buffer
pub mod Wire
pub mod Source
pub mod Puller
pub mod Router
pub mod Processor
pub mod Merger
pub mod Monitor
pub mod EndToEnd
pub mod Json
pub mod Fsm
pub mod Web
pub mod Writer
pub mod Configs
pub mod Application
pub mod Collector
pub mod Builder
pub mod Trigger
pub mod Tail
pub mod Monitoring
pub mod Job
pub mod Caller
pub mod Examples
