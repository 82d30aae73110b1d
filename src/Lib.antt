-- ===== src/Lib.antt =====
-- The firmware of an OpenDisplay electronic shelf label (GreenTags LT213A, Zephyr): its configuration
-- store, its protocol, its encrypted session, the driver of its panel, and the loop that joins them.
--
-- The parts and how they interact. A Bluetooth frame goes through the loop of src/main.c, and through
-- the encrypted session of src/security.c over the modes of src/crypto.c, to od_handle of
-- src/protocol.c. od_handle answers through the callbacks of
-- struct od_io, moves image bytes to the panel through them, raw or through the streaming decompressor
-- of third_party/uzlib, and changes the configuration through src/config_store.c. That file keeps two
-- slots in flash, behind the three calls of struct od_flash_ops, which src/storage.c makes of the
-- flash driver, and hands out fields of the configuration in force. The callbacks of struct od_io
-- stand in src/main.c: they send a notification and wait for its end, call the driver of the panel in
-- src/epd.c, and sample temperature and voltage with src/telemetry.c. The callbacks of Bluetooth
-- change the generation of the connection and put a command in the queue; the loop takes it out.
--
-- Which file models which part:
-- - Prelude and its children: shared names, Boolean tests on numbers (Tests), arrays as lists (Lists, Splice,
--   Erased), machine words (Words), binary digits (Bits), the int results of C (Errors), state
--   passing (Action).
-- - Config.Crc, Config.Validate: crc and od_config_validate of src/config_store.c. Validate.Container
--   describes a container without the validator's loop.
-- - Config.Packets: od_config of src/config.inc, and config_packet. Packets.Lookup is about what it
--   points at.
-- - Config.Fields: od_config_security, od_config_partial_frames, od_config_name. Fields.Frames and
--   Fields.Name are about their results.
-- - Config.Flash: struct od_flash_ops as a record of functions on a state of the flash, FlashOps, with
--   its laws, FlashLaws. Flash.Nor is an instance, pages in memory.
-- - Config.Storage: the calls of src/storage.c on the flash device, as FlashOps.
-- - Config.Store: the static state of src/config_store.c as the record Store, beside the flash in the
--   record Config; od_config_init, od_config_get, od_config_writing, od_config_cancel,
--   od_config_start, od_config_append and od_config_clear under the same names without the prefix.
--   Its children: Words (the word loop), Pages (what a slot holds), Recovery (what a boot finds),
--   Update and Commit (an update from start to commit), PowerLoss (a journal of all states of the
--   flash).
-- - Protocol.Base: struct od_protocol as the record Protocol, struct od_io as Io, the calls of
--   uzlib.h as Zlib; System collects what is fixed, World what changes. od_reset.
-- - Protocol.Wire, Protocol.Stream, Protocol.Transfer: le and be; stream; the replies, od_abort, sack,
--   start_region and finish_transfer. Stream.Fuel has the loop of stream as a relation.
-- - Protocol.ConfigCommands, DirectCommands, PipeCommands, Handle: the cases of od_handle and its
--   dispatch, one definition for each case.
-- - Protocol.Window, Protocol.Region: the arithmetic of the pipe's window and of partial updates.
-- - Protocol.Trace: the device as the history of its calls, answered by an arbitrary function of the
--   history; what a history means for the panel (panel, IsSafe, intact), and the invariant IsValid.
--   Its children Streams, Transfers, ConfigHandlers, ImageHandlers, Pipe and Safety take it through
--   the handlers; Display, Upload, Moves, PipeSteps and PipeUpload follow whole uploads; ConfigRead
--   follows command 40, and ConfigFrames and ConfigUpload commands 41 and 42 into the store.
-- - Security.Crypto: od_cmac and od_ccm of src/crypto.c over the block cipher od_aes_block, a
--   parameter. Its child RoundTrip is about od_ccm in both directions.
-- - Security.Session: struct od_security of src/security.h, its union as the data type Phase, and
--   od_security_reset, od_security_enabled, od_security_expire, od_security_auth,
--   od_security_decrypt and od_security_encrypt of src/security.c. Its child Phases is about all
--   their sequences, and about who opens a session, Proof about the comparison of a proof; Window and Replay about the replay window;
--   Counters, Exchange and Reply about the frames of a host and of the device.
-- - Panel.Gpio, Panel.Ready, Panel.Waveform, Panel.Driver: src/epd.c under its own names, from the
--   bits on the pins up to epd_finish, over the calls of Zephyr in the record Board. The two children
--   of Ready are about the wait for BUSY: its end, and its results.
-- - Panel.Bench: a board with the controller of the panel at its wires, for the driver to act on. The
--   children take the driver through it, from one byte (Transfer) and the wait (Waiting) to whole
--   operations (Off, Opening, Window, Region, Writing, Finish).
-- - Panel.Screen: the histories of Protocol.Trace that the driver answered, and what they show. Its
--   children are about each call (Opens), all calls (Refines) and uploads (Uploads).
-- - Telemetry.Int, Telemetry.Read: the signed numbers of src/telemetry.c, and od_read_msd. Units
--   is about its two conversions, Packing about the bytes it leaves.
-- - Main.Kernel, Main.Send: the state that src/main.c shares with its callbacks, the callbacks, live
--   and send_wire; Send.Relation has the loops of send_wire as relations.
-- - Main.Shell, Main.Dispatch: the callbacks for the protocol, and dispatch; Dispatch.Guard is about
--   who gets to od_handle.
-- - Main.Loop, Main.Round, Main.Boot: main, from its wait for events to the end of a round, one
--   definition for each step, and its start. Loop.Deadline and Loop.Supervision are about the wait and
--   about what outlives a connection; Round.Drives is about what a round does to protocol,
--   configuration and decompressor, and Round.Errors about a command that ends in an error.
-- - Protocol.Samples: frames and devices for the tests.
-- - Config.Tests, Protocol.Tests, Security.Tests, Panel.Tests, Telemetry.Tests, Main.Tests: the
--   theorems at concrete inputs.
--
-- Numbers are natural numbers with the wrap-around of their C types written out; size_t has 32 bits,
-- as on the target. An array is a list of bytes. A callback or a driver call returns done or an error,
-- beside the new state of what it acts on.
--
-- Loops. The loops over a configuration recurse on its length, which each round shortens. The loop
-- of stream gets a round for each byte that is still expected, and one more: a round that does not
-- end the loop has output, and output that does not fit ends it. The loop of command 40 gets a
-- round for each byte of the configuration. The loops of src/crypto.c get a round for each byte of
-- their data, of which each round takes up to 16. wait_ready polls at least 10 milliseconds apart
-- for 30 seconds, so 3001 rounds are enough; the wait for the ADC sleeps one of its 50 milliseconds
-- in a round; the two loops of send_wire have 2 seconds in steps of 10 milliseconds, 201 rounds,
-- and one more for a wait that a stale wakeup ends at once. A loop of wait_ready, of send_wire or of
-- stream that runs out of rounds has the error out_of_rounds, which is no result of the source, so that
-- an end of the fuel is told apart from a timeout.
--
-- A callback of Bluetooth runs at a call that may wait: the function of the record Kernel for that
-- call gives the state after them, with any number of them in between.
--
-- Not modelled: a reset in the middle of the erase of a page, a callback between two statements that
-- do not wait, the tables of the Bluetooth service, the handler of fatal errors, the registers of the
-- watchdog, and the wipes of scratch memory; the decompressor, the block cipher, the flash driver and
-- Zephyr are parameters. The board of Panel.Bench does not look at the direction of a pin. A region
-- takes the number of frames of the configuration that is in force when its command comes, which no
-- command that opens a region changes. Promises of the flash driver are the record FlashLaws; of the
-- board and the kernel, that a sleep lasts its time and no call sets the clock back, BoardLaws and
-- KernelLaws, and for the telemetry Sleeps; of the decompressor, that it reports output only when it
-- gives some; of the block cipher, that it gives 16 bytes.
pub mod Prelude
pub mod Config
pub mod Panel
pub mod Protocol
pub mod Security
pub mod Telemetry
pub mod Main
