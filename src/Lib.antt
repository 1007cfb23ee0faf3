-- ===== src/Lib.antt =====
-- morsectrl_tools: the host tool that sends commands to a Morse Micro chip.
--
-- `main` (morsectrl.c) reads the options, lets config_file.c fill in what the command line left out,
-- chooses a transport (transport/transport.c) and runs the handler of one command. A handler fills a
-- command and sends it (command.c) through the transport's table of functions. The table of
-- transport/ftdi_spi.c stands on the SDIO protocol of transport/sdio_over_spi.c: commands of one
-- frame, data blocks with checksums (utilities.c), memory behind a keyhole of 64 KiB.
--
--   Prelude       shared names, Boolean tests, lists and bits over the native numbers
--   Machine       the state of the C code: the world outside, a count of live buffers, faults; a
--                 buffer (`struct morsectrl_transport_buff`) and its reads and writes
--   Util          utilities.c: checksums (Crc), strings (Text), numbers (Numbers), words (Words)
--   Transport     transport/transport.c and transport.h: the table, and the calls through it
--   Sdio          transport/sdio_over_spi.c: Frame (what is sent), Response (what is looked for),
--                 Command (CMD0, CMD52, CMD63), Block (CMD53), Memory (memory blocks), Registers
--   Ftdi          transport/ftdi_spi.c: buffers, the full-duplex transfer, the sending of a command,
--                 the configuration (Parse), the libraries below it (Library), the channels that are
--                 opened (Channels), the lines and the reset (Lines), the table ftdi_spi_ops (Table)
--   Command       command.c and command.h: the header, the status of the response
--   Config        config_file.c: the parser of the configuration file
--   Handler       the handlers of single commands: their common form, those with an expression
--                 (Switch), with numbers (Value, Radio), with options (Options, Choice, Mesh), queries and
--                 edconfig.c (Query), raw.c (Raw), twt.c (Twt), channel.c and chan_query.c (Channel),
--                 bw.c, ocs.c and duty_cycle.c (Pair), the table of morsectrl.c (Table)
--   Stats         stats.c and offchip_statistics.c: the walk over the records of a response
--   Elf           elf_file.c: the headers, the records of the statistics, load_elf (Load)
--   Chip          gpioctrl.c (Gpio), reset.c (Reset), transraw.c (Memtest, Transraw)
--   Main          morsectrl.c: the option loop, the choice of the command, the exit code
--   Tests         the theorems at concrete inputs
--
-- A function of the source keeps its name, without the prefix of its file. Code that may read or
-- write outside a block, or call through NULL, is a step that may fault. A transport's functions are
-- a record that the code takes as an argument; what a theorem asks of them is a record of laws
-- (`Bus`, `Bracketed`, `Link`, `Loader`, `Lawful`, `Traced`, `Memory`). libmpsse, getopt,
-- getopt_long, malloc, the calls on files (`Sysfs`, `Files`) and the floating-point numbers of
-- duty_cycle.c (`Floats`) are parameters; main takes the table of commands as an argument. strtoul,
-- strtol, atoi and strsep are functions after their documentation.
--
-- Integers are natural numbers, with `% 2 ^ w` where the source's type wraps. Loops are structural
-- recursion. The outer loop of `crc7_gen` is on fuel: `bit_count` falls by eight a round, so
-- `bit_count` rounds are enough. The loop of `sdio_over_spi_memblock_common` is on fuel: a section is
-- at least one octet, so as many rounds as octets are enough. The walk over the statistics takes
-- five octets a round, so one round more than there are octets is enough. The loop of
-- `transraw_memtest` fills four octets a round, so as many rounds as octets are enough.
--
-- Not modelled: printing and the debug flags, sleeping, transport/nl80211.c (calls of libnl), gpio.c
-- and io.c (a GPIO library, a device file), the remaining handlers (sscanf, files, tables of
-- responses), the formatting of statistics, and the copies of libmpsse and FTD2XX.
pub mod Prelude
pub mod Util
pub mod Machine
pub mod Transport
pub mod Sdio
pub mod Ftdi
pub mod Command
pub mod Config
pub mod Handler
pub mod Stats
pub mod Elf
pub mod Chip
pub mod Main
pub mod Tests
