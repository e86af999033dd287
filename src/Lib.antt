-- ===== src/Lib.antt =====
-- mts-utils reads, writes and reports on MPEG Transport Streams (TS), Program Streams and the
-- elementary streams in them. The programs at the top are mains around functions that stand in
-- the headers of include/. This library models the part of them that turns elementary stream
-- data and program tables into TS packets, and back.
--
-- How the parts interact. A PES packet is a header (PES_header in include/ts.h, whose
-- timestamps encode_pts_dts in include/pes.h makes) and data. write_some_TS_PES_packet cuts it
-- into TS packets of 188 bytes, each with the next continuity count of its PID, and hands them
-- to tswrite_write, which for UDP puts them into a circular buffer that a child process
-- empties. A reader takes a packet apart with split_TS_packet and finds the timestamps with
-- find_PTS_DTS_in_PES. The program tables, PAT and PMT, are sections with a CRC (crc32_block in
-- include/misc.h), which are kept as a list of PID and program pairs or a table of streams
-- (include/pidint.h).
--
-- Which file models what:
-- - Base: names, lists, tests, and Outcome, the result of a call: a value, the error that the
--   code reports, or a fault, a read outside an array.
-- - Bits: the operators &, |, ^, << and >> as arithmetic.
-- - Timestamp: decode_pts_dts and encode_pts_dts of include/pes.h.
-- - Pes: PES_header of include/ts.h; find_PTS_in_PES, find_DTS_in_PES, find_PTS_DTS_in_PES and
--   PES_packet_has_PTS of include/pes.h.
-- - Crc: make_crc_table and crc32_block of include/misc.h.
-- - Arrays: the loops that include/pidint.h repeats for each of its arrays.
-- - PidintList: struct pidint_list of include/pidint_defns.h and its functions in
--   include/pidint.h.
-- - Pmt: struct _pmt of include/pidint_defns.h and its functions in include/pidint.h.
-- - Ts: Read is split_TS_packet and get_PCR_from_adaptation_field, Write is
--   write_some_TS_PES_packet and what it calls, Es is write_ES_as_TS_PES_packet with its
--   variants and write_PES_as_TS_PES_packet, all of include/ts.h. In Laws, the receiver that
--   joins payloads is a specification, Timing says where a PCR stands, and Wraps what happens
--   where a length wraps round.
-- - Psi: Write is write_pat, write_pmt and what goes with them, Read is build_psi_data,
--   extract_prog_list_from_pat and extract_pmt, Find is find_pat, all of include/ts.h.
-- - Es: reading the units of a bare elementary stream, find_next_ES_unit of include/es.h and
--   what it calls. Codes and All state what units a file has on the bytes of the file alone.
-- - Circular: the circular buffer of include/tswrite.h and the two processes at it. Steps is
--   their step relation, Refine the queue that they come to.
-- - PesReader: putting PES packets together from the payloads of TS packets,
--   start_new_PES_packet, continue_PES_packet and check_for_EOF_packet of include/pes.h. The
--   calls change the list of packets in progress, which Laws speaks of as a map from PIDs to
--   packets.
-- - BitData: reading bits and Exp-Golomb codes, include/bitdata.h. Stream states which bits a
--   reader has before it, Encode the codes of H.264.
-- - Nal: NAL units of H.264, include/nalunit.h. Params is the dictionaries of parameter sets,
--   Slice, Sets and Read what is read of a unit, First whether a unit starts a picture, Next
--   the next unit of a stream.
-- - AccessUnit: access units and frames of H.264, include/accessunit.h. What the calls of
--   find_next_NAL_unit still to come return is a list. Takes, Cases, Loop and Next say what one
--   call does, Stream what all do; Frames and Whole are of frames made of fields, Write, Sends
--   and Written of writing.
-- - Modules named Runs hold tests and examples.
--
-- How state and operations correspond. A function that changes a structure through a pointer
-- returns the new structure; a null pointer is `none`, and -1 for "not there" is `none`. A byte
-- array is the list of its bytes, a pointer into one is what it leads to. The static array
-- continuity_counter and the writer are the record Output. A name is that of the C function in
-- lower case. Unsigned arithmetic that can wrap round is written with its remainder.
--
-- Bounds and fuel. reduce_loop is given a round for each time the largest value fits,
-- write_some_TS_PES_packet one more than the bytes of data, as each packet takes one at least;
-- the loop over the streams of a PMT as many as there are bytes left. wait_if_buffer_full has
-- the 1001 looks after which it gives up. The loop of get_next_non_empty_access_unit has two
-- calls more than there are reads to come, as each call takes one at least until nothing is
-- left. Other loops recurse on the number of their rounds.
--
-- What stands outside. tswrite_write, with the sockets behind it, is a parameter, and a log in
-- the theorems on what is sent. Memory is taken to suffice, which leaves out units beyond 2
-- GiB, where the int newsize of find_next_ES_unit is negative. The array packet of the buffered
-- writer, which notes the PCR of each packet, is left out; its bound is kept where the options
-- are read. Messages are left out, as is the freeing of memory. Not modelled: Program Streams,
-- elementary streams inside PES packets, pictures of H.262, audio frames, filters, capture
-- files, and the mains.
pub mod Base
pub mod BitData
pub mod Bits
pub mod Timestamp
pub mod Pes
pub mod Crc
pub mod Es
pub mod Nal
pub mod AccessUnit
pub mod Circular
pub mod PesReader
pub mod Arrays
pub mod PidintList
pub mod Pmt
pub mod Ts
pub mod Psi
