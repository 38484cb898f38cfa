-- ===== src/Lib.antt =====
-- Verification of the SunSpec test tool: the data model, the wire format, the decoding of model
-- data, the reading of a device over Modbus, the texts of values in both directions, and the helper
-- library for lists, buffers and strings.
--
-- A SunSpec device holds blocks of 16-bit registers behind a signature. Each block starts with the
-- number of a model (its "did") and a length. The tool knows models: blocks of typed points, the
-- last block possibly repeating. It scans the device, decodes each block of a known model into a
-- dataset of values, resolves scale factors, and attaches the dataset to a logical device. Values
-- are printed in several formats, and read from texts in the model language.
--
-- Files, from the bottom up:
--   Types    the point types and their tables (src/suns_model.h, src/suns_model.c:
--            suns_type_string, suns_type_from_name, suns_type_size, the tests on types)
--   Value    suns_value_t, suns_type_pair_t, the accessors suns_value_set_* (in Value/Set),
--            suns_check_not_implemented (src/suns_model.c)
--   Wire     suns_value_to_buf, suns_buf_to_value, suns_type_pair_size, and in Wire/ToBuffer
--            suns_value_to_buffer (src/suns_model.c)
--   Model    suns_model_t and its parts: suns_model_fill_offsets, the searches by name,
--            suns_check_scale_factors, suns_model_check_consistency, suns_model_resolve_defines,
--            suns_find_did (src/suns_model.c)
--   Decode   suns_decode_dp_block, suns_decode_data, suns_resolve_scale_factors
--            (src/suns_model.c)
--   Device   suns_device_t, suns_device_add_dataset, suns_model_get_did_index
--            (src/suns_model.c), and their use in suns_app_read_device (src/suns_app.c)
--   Modbus   suns_app_read_registers, suns_app_swap_registers (src/suns_app.c)
--   Scan     suns_app_read_device (src/suns_app.c)
--   Output   suns_snprintf_int_sf, suns_snprintf_uint_sf and their inner functions, here without the
--            leading underscore (src/suns_output.c)
--   Number   string_decompose_decimal (lib/trx/string.c)
--   Escape   string_escape and its macros, string_escape_xml, string_trim_quotes,
--            string_set_any_length (lib/trx/string.c, lib/trx/string.h)
--   StringValue  suns_string_to_value, suns_value_new (src/suns_model.c)
--   Display  suns_snprintf_value, its tables of functions for each format (the functions themselves
--            in Display/Writers), suns_snprintf_type_pair (src/suns_output.c)
--   Buffer   buffer_t and its functions (lib/trx/buffer.c, lib/trx/buffer.h)
--   Chain    the doubly linked lists of lib/trx/list.c and lib/trx/list.h, on a store of nodes,
--            with the insertion sort in Chain/Sorted
--   Prelude  shared names, lists, integers, bytes and C strings
--   Tests    test data and the theorems at concrete inputs
-- A module's children hold its proofs and are named for what they prove. Each function has the name
-- of the C function; a loop in it is a function of its own.
--
-- State: a struct is a record, a linked list is a List, a pointer that may be null is an Option.
-- The union of a value is one 64-bit number, of which the smaller members are the low bits, or the
-- object that the string pointer refers to. A buffer is the list of its bytes from the pointer on;
-- access outside an object, a null pointer or a division by zero is the result `fault`. Messages
-- that a theorem speaks of are values (Notice); other messages are left out. The host is
-- little-endian, assertions are compiled out, and memory allocation succeeds.
--
-- Modbus: libmodbus is not part of the repository. The record `Modbus` is the one function used of
-- it, on a state that each request changes. `IsHonest` says that a successful request returns the
-- registers asked for, `IsReliable` moreover that every request for 1 to 125 registers succeeds, which
-- is what the specification of Modbus allows; both are hypotheses where used.
--
-- Fuel: `read_chunks` gets as many rounds as registers are asked for, and each round reads at least
-- one if the request size is not 0. `scan_models` gets a number of rounds from its caller, and one
-- more than the blocks of the device is enough. The retry loops recurse on the tries left, and
-- the list loops of Chain get as many rounds as there are nodes. The number parser gets a number of
-- rounds from its caller; two more than the bytes of the text are enough for every text on which it
-- ends at all.
--
-- Library functions of C: integers are scanned and printed by functions of this development. A scan
-- is that of glibc with 64 bits: the number is kept within a `long` or `unsigned long`, and its low
-- bits are stored, where the C standard leaves the result open for a number that the type does not
-- hold. Other sums and differences of signed integers are not cut off at the ends of an `int`: they
-- could only pass them for scale factors and exponents within some hundreds of them. The
-- texts and the scanning of floating-point numbers, the objects that malloc and realloc give, what
-- read and write do, and the comparison of a sort are arguments of the definitions that use them.
--
-- Not modelled: the command line, the reports that are printed to a stream, the SQLite output, the
-- logger upload, the model language parser, the dates of lib/trx, and lib/ezxml, which are I/O, glue
-- or text processing beside the parts above. buffer_change_size subtracts pointers into two objects
-- on every call, which has no defined result. Elsewhere than in Chain, a list is a List and the loops
-- of the macro list_for_each are recursion on it.
pub mod Buffer
pub mod Chain
pub mod Decode
pub mod Device
pub mod Display
pub mod Escape
pub mod Modbus
pub mod Model
pub mod Number
pub mod Output
pub mod Prelude
pub mod Scan
pub mod StringValue
pub mod Tests
pub mod Types
pub mod Value
pub mod Wire
