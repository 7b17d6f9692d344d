-- ===== src/Lib.antt =====
-- The host client of the Open Embedded Probe: a library that talks to a debug probe over a serial
-- port, USB or TCP, and a virtual endpoint that answers in the place of one. Paths are from the
-- repository's root.
--
-- A host puts each operation into a request, which has a corr (a number that goes round from 1 to
-- 65535), a function, an operation, a session id and a payload; the probe answers with a result of the
-- same corr. On a serial port both travel in COBS frames with a CRC. On a byte stream that loses
-- nothing a message follows its length instead. One session at a time holds the
-- probe's lock, under a lease that its requests restart. A probe keeps the requests of the session last
-- opened with their answers, so that a request sent again is not run again; a host keeps its corrs less
-- than half the space ahead of the session's last one, so that a new request is not taken for an old
-- one. A host finds the functions of a probe by name: it asks for the list of interfaces, and for the
-- describe of each, which declares operations, channels and limits in TLVs. The virtual bench triggers
-- a capture where an expression comes true: stages of conditions on the tracks, with counts, time
-- limits and aborts, judged at the times of the samples.
--
-- Which file models what:
--   Message        src/oep_client/message.py: Header (Request and Result, pack and unpack), Tlv (tlv,
--                  split_tlvs, named_extensions), Reader (the Reader of payloads), Serial (serial_diff,
--                  serials_lost, serial_page_start).
--   Cobs           src/oep_client/cobs.py: crc16, encode, decode, frame, unframe, frame_max.
--   VirtualCore    src/oep_client/virtual_core.py: State (Core, tick, release), Tail (the TLVs of a
--                  request), Record (the requests kept with their answers), Operations (the eight
--                  operations of fn 0), Handle (Core.handle).
--   Endpoint       src/oep_client/endpoint.py: Take (the class Take; the dict that `tail` returns is its field
--                  `got`) and push_due.
--   Frames         src/oep_client/frames.py: send_many and recv of LengthFrames, the stream as a list of
--                  what each read returns.
--   Catalog        src/oep_client/catalog.py: SortedSet (sorted(set(...)), a set as the ascending list of
--                  its members), Bitmap (pack_ops, unpack_ops, channels_to_bitmap, bitmap_to_channels,
--                  role_channels), Describe (first_value, first_fixed, decode_description), Entries
--                  (the request and the result of list; decoding UTF-8 is a parameter), Writers
--                  (channel_group, u8, u16, u32, text).
--   Names          src/oep_client/names.py: validate, kind and matches.
--   Settings       src/oep_client/settings.py: split_values and values_from.
--   Trigger        src/oep_client/virtual_bench_trigger.py: Cond (the conditions and the stages), Truth
--                  (Evaluator._truth, _pulse, _serial), Args and Parse (_args, caps_of, parse), Grid
--                  (_grid, _next_ns), Evaluator (_step, _enter, _advance, run); the tracks and the
--                  external input are the record World.
--   KeptSession    src/oep_client/kept_session.py: the session id and the corr kept for the next run.
--   Host           src/oep_client/host.py: next_corr, _session_room, _session_for, and what request
--                  and pipeline send with them.
--   HostSession    src/oep_client/host.py and core.py: State (the fields of the class Host), Answers
--                  (payloads sent and read), Asking and Request (request, and the subscribe, describe,
--                  keepalive and confirm that it may send first), Lock (open, end, end_previous,
--                  lock_state, unsubscribe), Pipeline, Clock, Find (list_entries, find, describe's
--                  readers, request_restart), Refusal (rejection and the readers of its payload), Run
--                  (any sequence of methods); Outside is what a host takes from outside: the
--                  transport, the random id, the clock, UTF-8. Agreement, Opens and Exchanged put a host and a
--                  virtual core at the two ends of the link.
--   CaptureBlocks  src/oep_client/capture_blocks.py: Logic (read_logic_blocks and the sizes), Analog
--                  (read_analog_blocks and the sizes) and Timed
--                  (read_state_timed, state_timed_length).
--   Registry       the constants of src/oep_client/registry.py that the others use.
--   Prelude, Try, Bytes, Bits
--                  shared: lists and numbers, functions that may raise, byte strings and the fields of
--                  Python's struct module, laws of bit operations.
-- The modules below these hold the theorems, and each Examples holds runs on concrete inputs.
--
-- State is passed on explicitly: an operation takes the record of the object's fields and returns it.
-- A method of the host's session goes from the host and the link's state to an outcome and both after
-- it, which are kept when it raises. An exception is a value of Try, a refusal of the endpoint core a
-- value of Verdict. Numbers are not negative, and where Python's would be, or are cut with a mask, the
-- model writes the remainder out: `& 0xFFFF` is `% 65536`, and a difference of corrs adds 65536 first.
-- A loop over the bytes from a position on takes the list from there.
--
-- Loops that are not structural run on fuel: split_tlvs on the number of bytes (a TLV takes 3 at the
-- least), encode on the number of bytes and one, decode on the number of bytes, the endpoint core's
-- tail and Take's on the number of bytes, read_logic_blocks and read_analog_blocks on the number of
-- samples (a block has one at the least), read_state_timed and state_timed_length on the number of
-- bytes and one (an entry takes 4 at the least), the trigger's run on the nanoseconds that are left
-- (each round takes the time on by one at the least). The error loop_bound stands for fuel that ran
-- out.
-- A host's request sends others before it, which may need others again: request runs on a depth of 4, and
-- the pages of a describe and of a list on 0x10001 rounds, since each page takes the number of the
-- first row on and that number fits 16 bits; out_of_fuel stands for a depth or rounds that ran out.
--
-- Not modelled: texts for people; whether bytes are UTF-8, which is a parameter of the endpoint core;
-- the endpoint core's extension hook; threads, clocks (a request is given the times it begins and ends
-- at), files and streams; of the trigger, input times below a tick and the order of tracks of one
-- rate; the rule for a frame that stalls; of the host, take and restart_probe, which wait by the clock,
-- the hooks before_request, on_limits and expecting, and an exchange with several requests on the way;
-- of before_open, the file system, which gives the file of a unit that has a name; the numpy reading of
-- format 1.
pub mod Prelude
pub mod Try
pub mod Bytes
pub mod Bits
pub mod Registry
pub mod Message
pub mod Cobs
pub mod VirtualCore
pub mod CaptureBlocks
pub mod KeptSession
pub mod Host
pub mod Frames
pub mod Trigger
pub mod Catalog
pub mod Endpoint
pub mod Names
pub mod Settings
pub mod HostSession
