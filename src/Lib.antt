-- ===== src/Lib.antt =====
-- Verification of bell, a library of streams, audio codecs and audio sinks for embedded players.
--
-- The parts. A player decodes audio from a byte stream and hands samples to a sink. Between the two
-- stands the byte ring of main/io/CircularBuffer.cpp, and on boards with an ES8311 or an AC101 the sink
-- sets its codec up over I2C, by the drivers in main/audio-sinks/esp.
--
-- The decoders take their input from the containers of main/audio-containers, which find the frames of an
-- encoded stream; main/io/BufferedStream.cpp reads such a stream ahead.
--
-- main/io/HTTPClient.cpp speaks HTTP over main/io/SocketStream.cpp, which buffers a socket, and takes URLs
-- apart by main/io/include/URLParser.h.
--
-- main/io/BellHTTPServer.cpp answers requests that civetweb receives by the handlers of their routes.
--
-- main/utilities/include/Queue.h carries values from thread to thread.
--
-- For TLS, main/io/X509Bundle.cpp looks the issuer of a certificate up in a bundle of trusted roots.
--
-- Beside this path, main/io/BellTar.cpp writes and unpacks tar archives, and BinaryStream and BinaryReader
-- of main/io read and write integers.
--
-- The files.
-- - Prelude: numbers with Boolean tests, lists over the native numbers, bit operations split at a bit.
-- - CircularBuffer models main/io/CircularBuffer.cpp and its header: `Ring` is the object, `write`,
--   `read`, `empty_buffer` and `empty_except` are the methods. A `size_t` wraps at 2^64. Inv has the
--   representation invariant, Fifo what one call does, Refine the queue that it implements.
-- - X509Bundle models main/io/X509Bundle.cpp: X509Bundle.antt the state, `init` and the callback, Search
--   its binary search. Inside treats what `init` accepts, Safety what the callback may conclude; Generated
--   and Names treat a bundle as the generator writes it, and Lookup the callback on such a bundle.
-- - AudioContainers models main/audio-containers: AudioContainers.antt the guess of the container, Buffer
--   what the two containers share, Adts and Mp3 the rest of each. Pending has the bytes that are still to
--   be delivered, Frames and Guess what is delivered, Resync the search for the next frame.
-- - BufferedStream models main/io/BufferedStream.cpp: BufferedStream.antt the object, its methods and the
--   inner loop of the task, each as it is when the other thread does nothing meanwhile. Rounds shows each
--   round to be a call of a CircularBuffer, Filling has the inner loop.
-- - CentralAudioBuffer models main/audio-dsp/include/CentralAudioBuffer.h over CircularBuffer:
--   CentralAudioBuffer.antt the object and its methods, Chunk the packed struct. Queue shows the ring to be
--   a queue of whole chunks, Pcm and Write that no PCM data is lost on the way into it.
-- - I2c is what the drivers use of the I2C master of ESP-IDF, a record of functions. I2c/Chip states the
--   documented behaviour of a codec with registers of 8 bits, I2c/Simulator has one in software.
-- - Es8311 models main/audio-sinks/esp/es8311.c: Es8311.antt the bus accesses, the clock and mute, Table
--   the clock coefficients, Setup the start-up sequence, Controls the functions a player calls. Fields,
--   Registers, Clock, Levels and Startup have the proofs.
-- - Ac101 models main/audio-sinks/esp/ac101.c: Map has the register addresses, Ac101.antt the functions,
--   Registers a codec with registers of 16 bits, Volume and Outputs the proofs.
-- - Text and Stream are what the library functions that BellTar, UrlParser and HttpClient call do: strings
--   that end at a NUL, numbers printed and scanned, and `std::istream` over a seekable file.
-- - BellTar models main/io/BellTar.cpp and its header: BellTar.antt the header block and the writer,
--   Reader the reader. Header, Fill, Entry and Reading have the lemmas on the fields, the padding and one
--   entry, Checksum the checksum; Archive and Extract treat whole archives.
-- - Queue models main/utilities/include/Queue.h: Queue.antt the object, and the methods as steps that threads
--   take in any order; a call of one thread may stand between two steps of another. Order treats the order
--   of the elements, Calm and Races the reads of an empty queue.
-- - Router models the routes of main/io/BellHTTPServer.cpp as a tree: Laws has what an inserted route is
--   found by, Literal treats trees of routes without parameters and wildcards, Longer a route that hides
--   another.
-- - HttpServer models the rest of main/io/BellHTTPServer.cpp over Router; civetweb and the handlers are
--   parameters. Serving has what a request is answered with after any registrations.
-- - SocketStream models main/io/SocketStream.cpp, with its header, over an abstract `Socket`: SocketStream.antt
--   the buffer and its virtual functions. Documented states what a connection does; Writes and Output
--   treat what is written, Input what is read, Run any sequence of calls, Reopen a second `open`; Wire is
--   a socket in software.
-- - HttpClient models main/io/HTTPClient.cpp over SocketStream and UrlParser: HttpClient.antt the data and
--   the texts of a request, Iostream the C++ stream, Exchange the methods. Sending and Request have the
--   proofs on what is sent; Lines, Heads and Reply on what is read; Stuck on the end of a connection.
-- - Spdif models main/audio-sinks/esp/SPDIFAudioSink.cpp: Spdif.antt the buffer and `feedPCMFrames`, Table
--   its table; Biphase sets the words against an encoder for biphase mark code, Blocks has the blocks that
--   are handed on.
-- - UrlParser models main/io/include/URLParser.h; a character is a byte. UrlParser.antt has `urlEncode` and
--   `urlDecode`, Parse the function `parse` with the expression of main/io/URLParser.cpp; Printed and
--   ParsePrint read a printed URL back.
-- - BinaryStream models main/io/BinaryStream.cpp: integers of 2, 4 and 8 bytes in a chosen byte order.
-- - BinaryReader models main/io/BinaryReader.cpp over an abstract `ByteStream`, a record of functions.
--
-- Bounds. The capacity of a ring is below 2^63, which no object exceeds, so that no sum of two indices
-- wraps. The loops of BellTar run on fuel: `fill` has 512, the most it can put; `seek_to_next_header` one
-- more than the stream has bytes; the loops over an archive take their fuel as an argument, and the
-- theorems say how much is enough; so does the loop of `resyncADTS`, which need not end. The binary
-- search has 17 rounds, enough for the 65535 records that a bundle can name. The loop of `spdif_buf_init`
-- has 383 rounds, one for every second index. The loops of the drivers are over
-- lists or count down. The loops of SocketStream and HttpClient take their fuel as an argument.
--
-- Not modelled: the libraries under external, main/io/picohttpparser.c and main/utilities/aes.c, which
-- are copies of other projects; the floating-point filters of main/audio-dsp; the wrappers around
-- decoders, sockets, mDNS, threads and logging; the interleaving of
-- the two threads of BufferedStream, which share its counters and pointers without a lock; of main/io, the stream,
-- HTTP and MQTT classes other than those above; the other audio sinks. Of the codec drivers and the S/PDIF
-- sink, the calls that set up the I2C and I2S drivers of ESP-IDF are left out.
pub mod Prelude
pub mod Ac101
pub mod AudioContainers
pub mod BellTar
pub mod BinaryReader
pub mod BinaryStream
pub mod BufferedStream
pub mod CentralAudioBuffer
pub mod CircularBuffer
pub mod Es8311
pub mod HttpClient
pub mod HttpServer
pub mod I2c
pub mod Queue
pub mod Router
pub mod SocketStream
pub mod Spdif
pub mod Stream
pub mod Text
pub mod UrlParser
pub mod X509Bundle
