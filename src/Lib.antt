-- ===== src/Lib.antt =====
-- p2p-file-distribution: a BitTorrent client in Go. A .torrent file (internal/metainfo, written in
-- bencode, internal/bencode) says which pieces a file has; connections to peers (internal/peer)
-- carry messages; the coordinator (internal/download) decides which piece is asked of which peer,
-- and which peers are served; internal/piece computes where pieces and blocks lie and tests their
-- hashes, internal/storage keeps them in a file, and Download (internal/download/download.go)
-- starts all of this and takes the pieces that arrive.
--
-- What models what:
-- - Base: lists, options and outcomes; Base/Int has int64 with its wrap-around; Base/Bytes has
--   big-endian words and io.ReadFull; Base/Dict has maps from addresses. A result is `ok`, `err`
--   for a returned error, or `panic`. An address is a number.
-- - Bencode: internal/bencode. Value.antt is value.go and errors.go; Decimal.antt is what fmt and
--   strconv do with decimal numbers; Encode.antt is encode.go (Encode, encodeList,
--   encodeDictionary with its sorting) into a buffer; Decode.antt is decode.go (decodeValue and
--   what it calls, DecodeStrict, DecodeWithSpans). The nesting limit is the argument on which
--   `decode_value` recurses; the loops over the items of a list and the entries of a dictionary
--   have one more unit of fuel than there are bytes left, which is enough since each round consumes
--   a byte.
-- - Metainfo: internal/metainfo/parse.go (Parse, parseInfo, parsePieces, validate, validateName,
--   crossCheckInfoHash), torrent.go and infohash.go. SHA-1 is the parameter `sha1`.
-- - Piece: internal/piece/geometry.go (Length, Range, BlockCount, BlockBounds) and, in Verify.antt,
--   verify.go, with SHA-1 as a parameter.
-- - Storage: internal/storage/file.go (Create, WritePiece, ReadPiece, ReadBlock) on a file that is
--   a list of bytes. Storage/Resume is resume.go (VerifyExisting): its goroutines are the order in
--   which they finish.
-- - Tracker: internal/tracker/response.go (ParseAnnounceResponse and what it calls) and tiers.go
--   (AnnounceAll, flattenTiers); netip.ParseAddr, net/url and the request are parameters.
-- - Peer: internal/peer/message.go (ReadMessage, Serialize), payload.go and the payloads of
--   send.go, handshake.go, and bitfield.go. A bitfield is its bytes; its index is signed, as in the
--   code. Peer/Conn is the state of conn.go; Peer/Connect has Dial, handshakeOver (dial.go) and
--   Accept (listen.go) over a socket that is the outcome of each call on it; Peer/Listener has the
--   accept loop Serve of listen.go with admit, release and remoteIP.
-- - Download/Coordinator: internal/download/coordinator.go, selection.go, endgame.go,
--   availability.go and choke.go. The state is a record and each handler a function on it; `handle`
--   dispatches an event, `tick`, `recalc_choke` and `rotate_optimistic` are the timers. The order
--   in which Go meets the keys of a map, the clock, the random draws and the sorting by rate are
--   arguments (Env, ChokeEnv), which stand for any choice. Tasks/Reach has the loop as a step
--   relation. Download/Command is internal/download/events.go with the buffered channel of a
--   connection, Download/Rates is internal/download/rates.go with a rate as a fraction where the
--   code has a float64.
-- - Download/Serve: internal/download/serve.go (serveRequest). Download/Session: handleMessage and
--   applyCommand of internal/download/worker.go, and the bitfield slice that a connection shares
--   with the coordinator. Download/Worker: worker, serveIncoming and runConnection of
--   internal/download/worker.go, with Piece of piece.go; its loop (Worker/Loop) is a machine that
--   takes one turn for each thing that a select takes, and logs what others see of it.
--   Download/Assembly: downloadBlocks of internal/download/piece.go, run on
--   the list of the messages and commands that arrive before the deadline; the inner loop that
--   sends requests has the backlog limit as fuel, since each round adds an outstanding request.
-- - Download/Have is HaveBitfield of internal/download/download.go. Download/Progress is
--   internal/download/progress.go: counters that only grow are numbers without a bound, a float64
--   is the fraction that it approximates; Progress/Peak has PeerConnected as the atomic steps of
--   goroutines that interleave in any order.
-- - Download/Main: Download of internal/download/download.go. Its local variables are one record;
--   Main/Announce is the closure `announce` with the workers it starts, Main/Resume what precedes
--   the loop, and Main/Loop the select loop, whose events come in any order, each with the clock,
--   the tracker's answer and the outcome of Sync as they are then. The loop ends with the list of
--   its events. The WaitGroup counts the workers that run and the goroutines of the coordinator and
--   the listener; wg.Wait is an outcome of its own (`waiting`), in which only their ends matter.
--   That a goroutine ends once the context is cancelled is not shown: its end is an event.
-- - Download/System: the coordinator and all connections as one step relation, with the channels of
--   commands, events and results between them. There may be several connections to one address, as
--   in the code; what they report leaves one event after another, between those of others, and the
--   write to the bitfield that a connection shares with the coordinator is a step of its own. Where
--   two connections have one address, either may take a command, which is more than the code allows.
--
-- How they meet: validate of internal/metainfo tests the numbers of a torrent, on which the
-- geometry of pieces, the storage and the serving of blocks rest; the coordinator sends the lengths
-- of internal/piece to the connections; a session turns messages into the events that `handle`
-- takes; Main/Resume takes the pieces that Storage/Resume finds, tells them to a new coordinator and
-- to the bitfield, and Main/Loop writes with Storage what the coordinator delivers. System joins the
-- connections to the coordinator, and System/Whole joins these to Main/Loop.
--
-- Not modelled: the sockets and files themselves, readLoop and the deadlines of
-- internal/download/worker.go (their effects are turns that come in any order), the requests to a
-- tracker (internal/tracker/request.go and client.go: net/url, HTTP), the text that Render puts
-- around its bar, and the command line (cmd/p2pget), which are I/O or left for later. Log lines are
-- left out.
pub mod Base
pub mod Bencode
pub mod Metainfo
pub mod Piece
pub mod Storage
pub mod Tracker
pub mod Peer
pub mod Download
