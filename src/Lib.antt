-- ===== src/Lib.antt =====
-- Bodies and records of the body-image workspace: crates body-image, barc,
-- body-image-futio and barc-cli.
--
-- The program keeps HTTP bodies in RAM or in temporary files, and writes and reads recorded HTTP
-- dialogs in BARC files. A body is collected in a `BodySink`, which `prepare` turns into a
-- `BodyImage`; a BARC record is a head of 54 bytes followed by its header blocks and bodies. A
-- response body arrives in pieces at an asynchronous sink over a `BodySink`, and a request body
-- leaves through an asynchronous stream over a `BodyImage`; both ask an arbiter before a blocking
-- operation. The tool `barc` lists and copies the records of BARC files.
--
-- Common    numbers, lists, Boolean tests, and `Outcome`, how a call ends: a value, an error, a
--           panic, or `hang` where the fuel of a loop runs out. `Common/Exec` is a call on a
--           state, and `Common/Post` what holds after it.
-- Io        what the program takes of std::io and std::fs: one call of `read` or `write_all`, a
--           file with the faults that its coming calls meet, `read_exact` and `copy`. `Io/Laws`
--           has what a reader promises: it serves its bytes in pieces of any size, may be
--           interrupted a bounded number of times, and then is at its end.
-- Storage   the crates tempfile, memmap, olio and bytes: a record that the definitions take as
--           an instance argument. `MakesFiles` and `BufferLaws` are the behaviour relied on.
-- Http      the crates http and httparse: a record that the definitions take as an instance
--           argument. `HttpLaws` in `Barc/Convert/Laws` is the behaviour relied on.
-- Image     body-image/src/lib.rs: `Image/Sink` is BodySink, `Image/State` is BodyImage with
--           `prepare`, `Image/ReadFrom` is BodyImage::read_from and read_to_body_fs, `Image/Tune`
--           is Tunables and Tuner, `Image/Recording` is Dialog. `Image/Content` and
--           `Image/Prepared` relate sinks and images to the bytes that they hold, `Image/Emitted`
--           and `Image/Gathered` are what write_to and gather do with them; `Image/ReadFrom/Steps`, `Fill` and `Whole` follow
--           the loops.
-- Barc      barc/src/lib.rs and barc/src/compress.rs: `Barc/Types` the heads and their flags,
--           `Barc/Format` the line of a head and its parser, `Barc/Head` its reader and writer;
--           `Barc/Recorded` the record; `Barc/Convert` the conversions from and to a dialog;
--           `Barc/Compress` the strategies, `Barc/Codec` the wrappers of the codecs, which are a
--           parameter; `Barc/Write` is BarcWriter::write with write_record, `Barc/Read` is
--           BarcReader::read. `Barc/Write/Blocks`, `Bodies`, `Payload`, `Heads` and `Whole`
--           follow a record into the file, `Barc/Read/Blocks` and `Barc/Read/Reserved` out of it.
-- Futio     body-image-futio/src: `Futio/Arbiter` is blocking.rs, `Futio/Tune` tune.rs;
--           `Futio/Sink` is AsyncBodySink, `Futio/Permit` and `Futio/Dispatch` the sinks around
--           it; `Futio/Buf` is mem_map_buf.rs and uni_body_buf.rs, `Futio/Stream` is
--           AsyncBodyImage, `Futio/PermitStream` and `Futio/DispatchStream` the streams around it,
--           and `Futio/Polls` any of them over many polls; `Futio/Decode` is decode.rs,
--           `Futio/Fetch` the choice of a sink in fetch.rs. `Futio/Crates` is what is taken of std::task and blocking_permit.
--           `Futio/Contract` is the contract of the three sinks, over any sequence of calls of a
--           client; `Futio/Sink/Direct`, `Futio/Permit/Fulfils` and `Futio/Dispatch/Fulfils` fill
--           it, and `Futio/Forward` draws the consequences.
-- Cli       barc-cli/src/main.rs: `Cli/Flags` the flags, `Cli` the sub-commands cat and cp,
--           `Cli/Window` which records they handle.
-- Examples  a reader that cuts its bytes as a script says, a file system without faults, and the
--           theorems at concrete inputs.
--
-- A method keeps its name. `&mut self` is a state that goes in and comes out beside the result,
-- also where the result is an error. A Rust panic is the value `panic`, never a missing case.
-- Sums of u64 and usize are written out modulo 2 ^ 64; the product that estimates the length of a
-- decoded body is written out for builds with and without overflow checks. A poll is a call on
-- the state of the sink or stream; its `Poll<Result<A, E>>` is an outcome, whose values are
-- `ready` or `pending`. When a future is ready is up to the parameter that stands for its crate.
-- Assertions of debug builds are made.
--
-- Loops that read take fuel, one unit for each call of `read`. A reader that serves n bytes and
-- is interrupted at most k times answers at most n + k + 2 calls before it is at its end, and the
-- theorems on these loops ask for no more than that. The loops of cat and cp take one unit for
-- each record and one for the end of the file.
--
-- Not modelled: log output, Display and Debug texts, traits that only pass a field on, locks and
-- the opening of files by path, SplitBodyImage and YieldBodyImage, the timeouts of
-- request_dialog and the recording of requests in body-image-futio, wakers, the option texts of
-- barc-cli, and the logger piccolog.
pub mod Common
pub mod Io
pub mod Http
pub mod Storage
pub mod Image
pub mod Barc
pub mod Futio
pub mod Cli
pub mod Examples
