-- ===== src/Lib.antt =====
-- Android USB tethering for macOS: a user-space RNDIS driver that gives a Mac the network of an
-- Android phone over USB. The phone is reached through libusb, the Mac's network stack through a utun
-- interface, and the program carries packets between the two.
--
-- The parts and how they interact: src/main.c opens the device (src/usb_device.c), starts the protocol
-- driver (src/proto_rndis.c, which speaks RNDIS through src/rndis.c), gets an address (src/dhcp.c),
-- creates the interface (src/utun.c) and then runs a thread for each direction. What the phone sends is
-- a USB transfer of RNDIS messages, which the driver unwraps to Ethernet frames; ARP requests among them
-- are answered (src/arp.c) and IP packets handed on (src/frame.c). What the Mac sends is framed and
-- wrapped by the same files.
--
-- The files here:
--   Prelude: the shared vocabulary over the native numbers: Boolean tests, lists, C integers.
--   Wire: memory as lists of bytes, integer fields in both byte orders, memcpy as `write_at`.
--   Rndis: src/rndis.c and include/rndis.h. Build has the builders, which take the buffer and the state
--     and return both with the `int`; Parse has the parsers, which take the memory and the length the
--     caller states. RoundTrip, Bounds and Requests have the proofs.
--   Usb: src/usb_device.c, the tests on descriptors and the four transfer calls; libusb is a record of
--     functions on the state of the bus. Open has the search for a device and its close, as the list of
--     the libusb calls that they make.
--   ProtoRndis: src/proto_rndis.c. Unwrap is `rndis_drv_unwrap_data`, with the callback as a function on
--     its context; Driver the other operations of the driver.
--   Frame: src/frame.c. Arp: src/arp.c.
--   Dhcp: src/dhcp.c. Options is `dhcp_parse_options`, Build the two builders, Checksum the IP checksum
--     that both repeat; Answer has the tests that `dhcp_discover` makes on a received frame, Scan its loop
--     over the options of an answer, Lease the result and Discover the exchange itself.
--   Ipc: src/ipc.c, the server that the menu bar application talks to.
--   Bridge: src/main.c, the threads that carry packets. Receive is `process_rx_frame` and `rx_complete`
--     on a context that also holds the calls made, with its meaning in Meaning, the proof that it is what
--     the code does in Delivery, and the books of what is allocated in Replies, Books and Completion;
--     its Pool is `usb_to_tun`, up to the two seconds in which cancelled transfers come back.
--     Transmit is the pool of `tun_to_usb` and `tx_complete` as a step relation, in any interleaving.
--   Utun: src/utun.c, the interface and the settings of the network as lists of commands.
--   Session: src/main.c, `run_session` as the list of what it does, with Loop for its main loop, Watch
--     for the loop of `main` in watch mode and OneShot for the one outside it.
--   Config: src/config.c; File reads an INI file, Cli applies the command line, and Start
--     is the default file with the beginning of `main`; Printed is the text of a file of settings.
--   Compat: src/compat.c.
-- Concrete runs stand in the Runs modules. What system calls give is an argument of the definitions, and
-- what they are asked to do is a result.
--
-- A buffer is the list of its bytes and a pointer into it the rest of the list; a byte past the end is
-- read as 0 and not written, so statements that matter beyond the end say so in their conditions.
-- Integers are natural numbers with their wrap-around written out: `size_t` has 64 bits and
-- `uint32_t` 32. The host is little-endian, as every Mac is.
--
-- Loops run on fuel: the walk over a transfer on its length and one more, since every message that is
-- accepted is longer than 0 and moves the offset on, unless the 32-bit offset wraps; the loops over options on their length and one more, since a round takes a
-- byte at least; the folding of the checksum on 4, since a 32-bit sum is folded at most three times.
--
-- Not modelled: the calls of libusb and of the system themselves, logging, the statistics files and the
-- formatting of text. The signal handler and the set-up of logging in `main` are left for later.
pub mod Prelude
pub mod Wire
pub mod Usb
pub mod Rndis
pub mod ProtoRndis
pub mod Frame
pub mod Arp
pub mod Dhcp
pub mod Ipc
pub mod Compat
pub mod Config
pub mod Bridge
pub mod Session
pub mod Utun
