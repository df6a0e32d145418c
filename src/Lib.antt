-- ===== src/Lib.antt =====
-- ALACRITY, a store for arrays of floating point numbers that also indexes them. An array is cut
-- into partitions. Within a partition the elements are split into their high-order bits, which select
-- one of some bins, and their low-order bytes, which are stored bin by bin; an index says which row
-- each stored element came from. A configuration is made first (src/ALConfigure.c), the encoder turns
-- an array into a partition in memory (src/ALEncode.c), the serialiser writes a partition through a
-- memory stream and reads it back (src/ALSerialization.c, src/memstream/memstream.c), and the decoder
-- gives the array back (src/ALDecode.c). A query for an interval of values first searches the bins
-- that the interval meets (src/uniquery/findbinrange.templates.cc).
--
-- Prelude and its children hold what the rest shares: lists over the native numbers, Boolean tests,
-- the casts to fixed widths, the Option monad, words and divisions. Memory has the little-endian bytes
-- of integers and arrays. Types models src/include/alacrity-types.h and src/ALUtil.c. Memstream models
-- src/memstream/memstream.c: memstreamAppend is `append`, memstreamReadArray `read_array`, and the
-- functions that a macro makes for each integer type are `append_int` and `read_int` by width; its
-- children say what runs of appends and reads do. Config models src/ALConfigure.c and
-- src/ALDatatype.c. Datum models the macros of src/include/alacrity-util.h that split and join an
-- element. Serialization models src/ALSerialization.c function by function (ALSerializeBinLayout is
-- `serialize_bin_layout`, ALGetMetadataSize `get_metadata_size`); Serialization/Format states the
-- byte format apart from that code. Encode models src/ALEncode.c: determineBinLayout is
-- `determine_bin_layout`, with its scans `count_data` and `scan_values`, encodeWithInvertedIndex
-- `encode_with_inverted_index`. Its children follow the proof: Tables and Order on counts and on the
-- order of the bin values, Counting and Scanning on the two scans, Binning on the layout, Scatter and
-- Fresh on the pass that distributes elements over the bins, Inverting on the encoder as a whole.
-- Decode models src/ALDecode.c, with Elements and Rows on its loops and Compressed on its form for
-- compressed indexes. Pipeline puts the parts together.
-- Uniquery/BinRange models findBinRange1C, its four loops as `find_start_neg`, `find_start_pos`,
-- `find_end_neg` and `find_end_pos`; Signs is on the conversions between one's and two's complement,
-- Search on the loops and Range on the range they give.
--
-- The rest of Uniquery models how a partition is queried: ReadReconst expands the low-order bytes of the
-- touched bins into elements in the buffer that they were read to (readAndReconstituteData; its child
-- InPlace is on the loop over one bin, Reading on a range of bins, EndBins on the first and the last of
-- them, Elements on bins of elements that the encoder split), TrimBins takes the values of the end bins that are outside the interval out (trimQueryResults;
-- Loops is on its loops, Trimmed on the result), FloatOrder has the comparisons of floats on their bits,
-- and Query has the part of ALQueryNextResult between opening and closing a partition as
-- `partition_result`, with the functions of src/io/ALStorePOSIX.c that read the data and the index of
-- some bins. Of the children of Query, Places and Matching are on what cutting the low-order bits off
-- does to the order, Bounds and Searched on the bounds and on the search that they are given to,
-- Sublists on parts of a list of bins, Segments on the bins before, in and behind the range that is
-- found, Selecting on the rows that are left, Touched on what is read, and Answer on the query as a
-- whole.
--
-- RidCompress models the compression of row ids in ridcompress. A list of ids is cut into batches of
-- 128, and a batch is stored as a frame of reference, the differences of neighbours packed in a fixed
-- number of bits, and the larger ones as exceptions. FixedLength models the packers of
-- gen_fixedlengthcode.cpp as one function of the number of bits, Exceptions, Header, Params and Batch
-- model patchedframeofreference.cpp (PatchedFrameOfReference::encode is `encode`, optimal_param
-- `optimal_param`, highest_set_bit `highest_set_bit`, decode_new `decode_new`), and Interface models
-- encode_rids, update_rids and decode_rids of pfordelta-c-interface.cpp, which ALCompressRIDs,
-- ALTranslateCompressedRIDs and ALDecompressRIDs of src/ALRIDCompression.c wrap; its child Fuel is on
-- the loop over lists. Convert models
-- src/ALConvert.c, which turns an inverted index into a compressed one and back, and Convert/Translate
-- src/ALRIDTranslate.c, which adds an offset to the row ids of an index.
--
-- Arrays are lists, of bytes where the code works with untyped memory and of numbers where it works
-- with a typed array. Integers are natural numbers with their wrap-around written out: 32 bits for
-- row ids, offsets and bin ids, 64 for sizes. An access outside a buffer, a failed assert and abort are
-- `none`. What malloc returns is an argument of the encoder, as buffers of any content. Loops are
-- structural: over the input, over the bins, over the batches and over the values of
-- FOR_BIN_VALUE_IN_1C_ORDER; the one loop on fuel, over the lists in a buffer of compressed ids, takes
-- at least four bytes in each turn, so that the length of the buffer is enough.
-- What concerns the encoder as a whole, the decoder and their joint runs is stated for elements of 2, 4
-- or 8 bytes and for 1 to 31 significant bits, as ALEncoderConfigure asserts, and for fewer than 2^32 - 1
-- elements. What concerns single steps and the serialiser is stated for whatever the step itself allows;
-- for more significant bits than an element has, which no configuration gives, `insig_bytes_ceil` is
-- not meant for the program. Where offsets in bytes are products of 32 bits, as in the output of the
-- decoder and of the queries, 4 GB bound the elements; the README limits a partition to 2 GB.
--
-- Not modelled: big-endian hosts; the hybrid, expansion and run-length variants of the row id
-- compression, of which the conversion takes the three that it calls as arguments, and the decoders of
-- row ids into bitmaps and selection boxes; src/ALMerge.c; of src/uniquery/uniquery.c the loop over
-- the partitions of a store and its cache of metadata; the stores of src/ALStore.c, src/ALFileStore.c and
-- src/io but for the reading of bins, which are mostly calls of the operating system and of ADIOS; the
-- legacy reader, the timer, the tools and the tests.
pub mod Config
pub mod Convert
pub mod Datum
pub mod Decode
pub mod Encode
pub mod Memory
pub mod Memstream
pub mod Pipeline
pub mod Prelude
pub mod RidCompress
pub mod Serialization
pub mod Types
pub mod Uniquery
