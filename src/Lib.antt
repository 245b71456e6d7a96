-- ===== src/Lib.antt =====
-- SPARCS: the uPMU gateway that takes synchrophasor data over the protocol of IEEE C37118,
-- packs it into buffers of one second, and archives them
-- (NetBeansProject_uPMU_prod/upmu-gateway, in the folder of the protocol at the root of the
-- repository).
--
-- Bytes come from a socket to the data channel (`Phasor.Channel`, for
-- serviceDataDiscovery_C37/C37_DataChannel.cpp), which stores them in its receive buffer
-- (`Phasor.Buffer`, C37_Buffer.cpp), takes whole frames out of it, hands data frames to the
-- reformatter (`Phasor.Reformat`, C37_Reformat.cpp) and configuration frames to the parser
-- (`Phasor.Cfg`, C37_CfgDescriptor.cpp). The reformatter synchronises to the second, collects
-- the frames of a second, and posts them as one buffer. The archiver (`Archiver`,
-- serviceDataArchiver/serviceDataArchiver.cpp) queues what is posted and decodes it for
-- Cassandra.
--
-- Each operation is a function of the state it is called on, named as in the source in snake
-- case: `examine_buffer` is C37_Buffer::examineBuffer, `process_c37_event` is
-- C37_Reformat::processC37event, `read_handler` is C37_DataChannel::read_handler,
-- `data_buffer_offer` and `loop_step` are serviceDataArchiver::dataBufferOffer and one turn of
-- its thread function. Arrays are lists of bytes; `unsigned int`, `uint32_t` and `uint16_t`
-- sums wrap; 64-bit counters are unbounded. Boost.Asio runs one handler at a time, so handlers
-- are steps: the bytes that a read delivered are an argument, the next operation is a result,
-- and what is posted is returned beside the state.
--
-- `Phasor.Buffer.Inv` has the invariant of the receive buffer, `Phasor.Buffer.Reach` its step
-- relation, `Phasor.Buffer.Shift` the copying loops, and `Phasor.Buffer.Examine`,
-- `Phasor.Buffer.Remove` and `Phasor.Buffer.Receive` the operations. `Phasor.Channel.Stream`
-- states the channel's contract apart from any buffer, as the frames of a stream of bytes and
-- what each does to the counters and the reformatter; `Phasor.Channel.Drain` and
-- `Phasor.Channel.Deliver` refine it, and `Phasor.Channel.Stuck` treats frames whose size field
-- is 0. The loop of the read handler runs on fuel: each round removes a frame of at least four
-- bytes, so the 1024 bytes of the buffer bound the rounds. `Phasor.Reformat.Sync`,
-- `Phasor.Reformat.Counted`, `Phasor.Reformat.Fill` and `Phasor.Reformat.Block` treat the two
-- states of the reformatter and the layout of a block; `Phasor.Cfg.Refuse` the tests of the
-- parser; `Archiver.Queue`, `Archiver.Loop` and `Archiver.Decode` the archiver.
-- `Phasor.Command` is the command frame of C37_DataChannel::sendCommand. `Gateway.CommandQueue`
-- is the queue of commands of the services (uPMUgateway/serviceCommandQueueTemplate.h):
-- `Gateway.CommandQueue.State` and `Gateway.CommandQueue.History` for one thread,
-- `Gateway.CommandQueue.Race` for several producers, a step relation in which the test of the
-- size and the locked part of Enqueue interleave. `Gateway.Registry` has the table of services
-- (serviceInstanceList.cpp and the part of main.cpp, both in uPMUgateway, that fills it and
-- starts the threads), `Gateway.Startup` the rest of main.cpp up to that start, with the mutex
-- of dbConnection.cpp in `Gateway.Startup.Locked` and the page of the uPMU in
-- `Gateway.Startup.Serial`, and `Gateway.Sharing` the buffers that services hold together
-- (serviceDataBuffer.h, and the offers of C37_Reformat::postProcessUPMUdata):
-- `Gateway.Sharing.Counts` for the counts, as a step relation over all threads, and
-- `Gateway.Sharing.Queues` for the way from the reformatter to the queues of the archivers.
-- `Ftp.DataDir` has the hourly data directories of serviceDataDiscovery_C37/upmuFtpAccess.cpp,
-- as dates in `Ftp.DataDir.Hours` and as names in `Ftp.DataDir.Name`. `Ftp.FileList` is the
-- list of files that getDataFileList makes of a transfer, with its filter in
-- `Ftp.FileList.Filter` and its lines in `Ftp.FileList.Lines`. `Ftp.Transfer` has the single
-- transfers, which are libcurl's but for the channel kept open.
--
-- The gateway over FTP, in the folder ftp, fetches files instead. `Ftp.FileTime` has
-- `_mkgmtime` of ftp/uPMUgateway/uPMUgmtime.cpp and the times read from names. `Ftp.Swap` and
-- `Ftp.Discovery` are ftp/serviceDataDiscovery/serviceDataDiscovery.cpp: the byte order of a
-- file, the passes of the service (`process_upmu_data`) and its start (`Ftp.Discovery.Start`);
-- what the uPMU, the database and the clock answer is an argument, and what a pass does to the
-- outside is a list of effects. The fuel of the search for a directory is a number of hours,
-- and more than the hours to the present are enough.
--
-- `Ftp.Archiver` is ftp/serviceDataArchiver/serviceDataArchiver.cpp: the turns of its loop over
-- the records of the buffers that it is offered; `Ftp.Archiver.Refine` has the simple machine
-- that it refines, and `Ftp.Archiver.Drained` counts its turns. `Ftp.Voltage` is the search for
-- voltage events, `Ftp.Voltage.Report` the report of those found, and `Ftp.Annotations` the
-- messages for the hours and events of a second, of
-- ftp/serviceDataArchiverRabbitMQ/serviceDataArchiverRabbitMQ.cpp; its fuel is a number of
-- rounds, of which twice the samples and three are enough.
--
-- `Reader` is readCassandrafast/cassspeed/main.cpp: `Reader.Compress` has the compressors,
-- whose loops have at most one round for each sample, `Reader.Response` the answer for a
-- device, `Reader.Request` the request, read back from what the client sends in
-- `Reader.Request.RoundTrip`, with the days of its query in `Reader.Request.Days`, and
-- `Reader.Server` the handler with its codes. `Reader.Client` is
-- readCassandrafast/cassspeedclient/main.cpp: the options, `Reader.Client.Plan` with the checks
-- and the length of a chunk, and `Reader.Client.Loop` with the loop over the chunks, whose fuel
-- is a number of rounds; as many as milliseconds, and one more, are enough if each answer
-- advances. `Prelude` has what they share.
--
-- Parameters: Boost's CRC and `isprint` (`Platform`), the float operations of the decoder
-- (`Floats`), `gmtime` (`Clock`), and whether Cassandra is connected and memory is there. Not
-- modelled: the services' threads, start-up and statistics, database drivers and logging,
-- libcurl, the content of the messages of the RabbitMQ archivers, the sockets and files of the
-- readers, the connections of the main programs and the main program over FTP, generated and
-- vendored code.
pub mod Prelude
pub mod Phasor
pub mod Archiver
pub mod Gateway
pub mod Ftp
pub mod Reader
