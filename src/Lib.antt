-- ===== src/Lib.antt =====
-- Micro Morse Chat: micro:bit boards under the Tock kernel exchange Morse messages through a
-- serial line. The repository holds a kernel capsule for the network, two boards that assemble a
-- kernel, and three applications with their user-space driver.
--
-- The parts and their files:
--
-- Kernel.antt: what the capsule uses of Tock, which is a git submodule. Grants, process buffers,
-- the UART and the error conversions are the functions of a record `Kernel`, and each call of the
-- driver takes such a record of its own, so that the kernel may answer differently every time.
-- The contract that a UART hands a refused buffer back at its length is the record
-- `ReturnsBuffers`.
--
-- Network.antt and Network/: the capsule, kernel/drivers/src/network.rs. `Network` is the struct,
-- with two more fields that record what was given to the UART and done to processes. `command`
-- and the closures inside it are in Network.antt, the allow calls and `allocate_grant` in
-- Network/Allow.antt, the UART's callbacks `transmitted_buffer` and `received_buffer` in
-- Network/Clients.antt. A slice or an index out of bounds is the outcome `panic`, which stops the
-- board. Bytes and lengths are natural numbers: all lengths are those of buffers in memory, so no
-- sum of theirs reaches the word size. A `TakeCell` is an `Option`. The other files prove: Frames
-- the line that a request writes, Limits and Overruns the length guards, Commands the outcomes of
-- a request, Shape and Lifecycle all outcomes at once, Runs and Accounting runs of calls and
-- callbacks in any order, Delivery the reply, Answers what the process is told at the end of its
-- request, Allowing the allow calls, Wire what can be read back from the line, Tests concrete
-- runs.
--
-- Board.antt and Board/: the boards. Board/Microbit.antt and Board/Pico.antt are the platform
-- structs and `with_driver` of kernel/microbit_v2/src/main.rs and
-- kernel/raspberry_pi_pico/src/main.rs, with the capsules' driver numbers as a parameter;
-- Board/Microbit/Writer.antt and Board/Pico/Writer.antt are the panic writers of the two io.rs
-- files; Board/Pico/Clocks.antt is `init_clocks`, as the list of the calls that it makes. The
-- wait for `tx_ready` takes fuel for the number of questions; the fuel that suffices is any bound
-- on the questions up to the next yes. Board/Microbit/Boot.antt is the `main` of the micro:bit
-- board, as the list of the calls that it makes, with the answers of the two clocks as a
-- parameter, and Board/Microbit/Start.antt is about these calls. Board/Pico/Boot.antt and
-- Board/Pico/Start.antt are the same for the `main` of the Pico board, which waits for nothing;
-- there the calls also set the panic writer's UART. Board/Resources.antt is what a board gives
-- the kernel. Board/Microbit/Led.antt holds the LEDs of the micro:bit's io.rs,
-- Board/Pico/Jump.antt `jump_to_bootloader` on the few instructions of the processor that it
-- takes, Board/Pico/Bootloader.antt the table of flash_bootloader.rs with its checksum.
--
-- Button.antt and Button/: the button application, applications/morse_button/morse_button.c.
-- `Button` holds its globals; the contents of the shared buffer at each notification of the chat
-- application and the callbacks that wait in `yield_for` are two more fields. An upcall is an
-- `Event`, and `run` delivers a list of them. Button/Buffer.antt is about the message array under
-- any upcalls, Button/Sequence.antt and Button/Full.antt about whole messages,
-- Button/Waiting.antt about a button during a wait; Button/Setup.antt is the set-up. Here the
-- chat application is only present by its answers. printf is left out, and a number of the C type
-- int is a natural number: button numbers and values come from the driver, and `idx` stays below
-- eleven.
--
-- Stdio.antt and Stdio/: what the applications use of C's stdio.h and of itoa, as the C standard
-- describes it: decimal numbers, `%d` and `%s` of sscanf, strings in a buffer, snprintf. A buffer
-- is the list of its bytes, a pointer into it what is left from there, and `none` a read or a
-- pointer outside. A number of the type int is an integer without bounds. Stdio/Decimal.antt and
-- Stdio/Words.antt are the lemmas that reading undoes printing, Stdio/Shrinking.antt those on how
-- much reading leaves.
--
-- Chat.antt and Chat/: the chat application, applications/morse_chat/morse_chat.c. Chat.antt is
-- `parse_data`; its five bytes for the text of a number and its 128 for a word are checked, so
-- that a longer one is `none`. Chat/Parse.antt, Chat/Empty.antt, Chat/Blank.antt and
-- Chat/Overflow.antt are about its results. Chat/Service.antt is the application from its request
-- for the user number on: the record `Chat` holds its globals, where `main` is, the callbacks
-- that wait, and what was done. A wait lets other upcalls run: so a callback stops at its wait,
-- what is left of it goes on a stack, and `main` goes on only when that is empty. An `Event` is
-- what happens to the application, in any order. `char` is unsigned, as on the boards' ARM. A
-- payload in `posts` is one handed to `network_post`; of a request the address is kept. calloc
-- has memory here. Its children are about the network lock, the notices to the button application
-- and whom they go to, one round of the loop, and the time before the user number arrives.
-- Chat/Addresses.antt holds the addresses, and Chat/Setup.antt is the set-up in front, up to the
-- request for the user number.
--
-- Display.antt and Display/: the display application, applications/morse_display/morse_display.c.
-- Display/Frames.antt holds the arrays of morse_display.h that are used, Display.antt
-- `decode_morse` and the loop of `use_leds`, with the number of LEDs as an argument,
-- Display/Service.antt the rest: the early return of `use_leds`, `use_buzzer`, and the message
-- handler. Display/Unambiguous.antt and Display/Screen.antt are about what is seen on the LEDs,
-- Display/Interrupted.antt about a request that arrives while another is played,
-- Display/Timing.antt about how long a request is played. A C string is the list of its bytes
-- before the 0.
--
-- UserDriver.antt and UserDriver/: applications/drivers/network.c. Each goto and its label is a
-- function. The system calls and calloc are libtock-c's, which is a git submodule: a record
-- `Libtock` of functions on any state, and a record `IsLibtock` of what the proofs need of them.
-- A subscription takes the address of `done`; the upcall itself only sets that flag.
--
-- Messages.antt and Messages/: the applications together. Sending follows a message from the
-- buttons to the payload, Posting from the payload through the user-space driver and the capsule
-- to the UART, OnLine both at once, Distinct tells two such lines apart, Fetching from a reply on
-- the UART back through both to the parsed messages, Showing from a parsed message to the LEDs,
-- Receiving both at once, for a whole reply. Recording is about the three applications when a
-- user enters the send mode. Messages/Wiring.antt makes the system calls of the user-space driver
-- those of the capsule, where a panic is a board that has stopped; Messages/Answering.antt states
-- what the kernel and the UART do around the capsule during a GET, as the record `Responds`.
--
-- Not modelled: what the kernel does in a panic; debug output; the machine code in the flash
-- bootloader's table; `main` of the display application, which registers its callback;
-- `request_done`, which sets the flag of a wait and is part of its end; printf. The server and
-- the gateway are submodules and not in the repository.
pub mod Prelude
pub mod Kernel
pub mod Network
pub mod Board
pub mod Stdio
pub mod Button
pub mod Chat
pub mod Display
pub mod UserDriver
pub mod Messages
