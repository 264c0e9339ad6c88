-- ===== src/Lib.antt =====
-- AlloyVNC: a VNC server. This library models the parts of it that decide, and leaves out the
-- parts that only move bytes between a socket, a screen and a compressor.
--
-- The parts and how they interact. A session reads bytes from a client and has
-- crates/alloyvnc-proto cut them into messages; it keeps the damage that the client has not seen
-- yet as a region of crates/alloyvnc-region; and crates/alloyvnc/src/flow.rs tells it when the
-- next update may go out. The encoders of crates/alloyvnc-encode turn the pixels of a region into
-- the payload of an update.
--
-- Between these stands crates/alloyvnc/src/session.rs: it folds frames into that region, answers
-- the client's messages, and builds an update out of what is pending.
--
-- The files:
-- Base, Base/Lists, Base/Words: numbers, tests, lists and machine words. An `i32` is its value
-- plus 2 ^ 31, so that the order of two `i32` is the order of the numbers. The sums of `i32` and
-- `u64` wrap, as in a release build.
-- Flow: crates/alloyvnc/src/flow.rs. `Congestion` has the fields of the struct, and each method is
-- a function of the same name from a state to a state; a time is a number of nanoseconds.
-- Region/Rect, Region/Spans, Region/Bands: crates/alloyvnc-region/src/lib.rs. `Region` is its list
-- of rectangles; `op` is `shortcut` (the early returns) and `band_walk` (the loop over the edges,
-- with `band_step` as its body), and Region/Bands/Rows is `from_rows`. Loops over indices are
-- recursions on the rest of a list.
-- Proto/PixelFormat, Proto/Encoding, Proto/Handshake, Proto/Error: the files of these names under
-- crates/alloyvnc-proto/src.
-- Proto/Message, Proto/Message/Write, Proto/Clipboard, Proto/ClientType, Proto/Cursor:
-- crates/alloyvnc-proto/src/msg.rs. `parse_client` runs one parser per kind of message over a
-- cursor; each parser ends with a value, with a request for more bytes, or with an error, as the
-- macro `need!` and `?` do in the source. A writer gives the bytes that the source appends.
-- Proto/Text, Proto/Wire: what these use of UTF-8, Latin-1 and big-endian numbers. A text is a
-- list of code points.
-- Proto/Server: the server message writers of crates/alloyvnc-proto/src/msg.rs, and the desktop
-- size rectangle.
--
-- Encode/Framebuffer, Encode/Convert, Encode/Cursor: framebuffer.rs, convert.rs (with raw.rs and
-- copyrect.rs) and cursor.rs of crates/alloyvnc-encode/src. Encode/Lengths and Encode/Cursor/Mask
-- count bytes.
-- Encode/Blocks: `fill`, `blit` and `copy_within` of framebuffer.rs; Encode/Blocks/Stretches,
-- Encode/Blocks/Copies, Encode/Blocks/Moves and Encode/Blocks/Fills say where each byte ends.
-- Encode/Compare: crates/alloyvnc-encode/src/compare.rs. Encode/Compare/Detect is `detect` and
-- Encode/Compare/Tighten `tighten`; its loops over the cells of a rectangle are `each_rect` with a
-- body. Encode/Compare/Cells, Encode/Compare/Marking, Encode/Compare/Loops and
-- Encode/Compare/Passes follow the tables through the loops, Encode/Compare/Spans,
-- Encode/Compare/Regions and Encode/Compare/Snapshot turn them into regions and rows, and
-- Encode/Compare/Covers, Encode/Compare/Reported, Encode/Compare/Shifts and Encode/Compare/Found
-- put these together.
-- Encode/Hextile: crates/alloyvnc-encode/src/hextile.rs. `encode` is `tiles_down` over
-- `tiles_across`, and `tile` is `choose` with a definition for each of its outcomes;
-- Encode/Hextile/Places, Encode/Hextile/Runs, Encode/Hextile/Lengths and Encode/Hextile/Read are
-- about its runs and its lengths.
-- Encode/Decode: crates/alloyvnc-encode/src/decode.rs as far as `hextile`; Encode/Decode/Place is
-- about the place in the payload.
-- Session: crates/alloyvnc/src/session.rs and what it reads of crates/alloyvnc/src/shared.rs.
-- `Session` has the fields of the struct, less its channels; what is done to the desk and what is
-- handed to the writer are two lists. Session/Frames is `absorb` and what is due, Session/Handle
-- is `handle` with an operation for each arm, Session/Clipboard the clipboard, Session/Update and
-- Session/Send `build_update` and `send_next`. An outcome is a session or the reason why it stops.
-- Session/Picture: a picture is a function from points to pixels, a client carries out copies and
-- paints rectangles, and `Knows` is what a session believes of its client. Session/Picture/Carried
-- has `Carries`, what the bytes of an update tell a client, rectangle by rectangle, and
-- Session/Picture/Steps has `Step`, the arms of `serve_loop` together with what they mean for the
-- screen, and `Watches`, what a client makes of the bytes that the writer was given.
-- Session/Faults, Session/Echo, Session/Reader: which messages end a session, the clipboard that
-- comes back, and the reader that a fence pauses.
--
-- Bounds and fuel. No definition runs on fuel: every loop is a recursion on a list or on a number
-- of rounds that the source fixes (the 24 format bits of a provide, the 32 bits of a word).
--
-- What is a parameter. The zlib decoder and encoder of the extended clipboard are arguments; that
-- one undoes the other is a hypothesis where it is needed. The encoders that keep a stream are the
-- record `Encoders` of Session, of which no more is assumed than `IsCut`, where it is named: the
-- pieces of a rectangle have its points and no others. The hash of the damage comparison is an
-- argument, of which nothing is assumed either, and so is the shift that wins its vote, since a
-- `HashMap` has no order.
--
-- What is not modelled. The areas of rectangles and regions; the encoders of
-- crates/alloyvnc-encode that keep a stream or compress (zrle, tight) and their decoders; the
-- login of a session and the counters that it publishes; the threads around it and the program;
-- VNC authentication; the screens, which call X11 and Windows; the random challenge and everything
-- that only reads or writes a socket.
pub mod Base
pub mod Flow
pub mod Region
pub mod Proto
pub mod Encode
pub mod Session
