-- ===== src/Lib.antt =====
-- yastg: a text-based multi-user space trading game, served over TCP.
--
-- A connection reads a line that a player has entered and hands it to the command interpreter, which
-- looks the command up in the player's string tree and calls its function. The function moves the
-- player's ship, moves cargo between the ship and a port, or prints. Each move takes commands out of
-- the player's string tree and puts others in.
--
-- The files:
--   Prelude        Booleans, lists, integers over the native numbers, and runs of code that may fail
--                  an assertion or read a NULL pointer (`Run`: `ok` or `fault`).
--   Stringtrie     stringtrie.c, stringtrie.h. `Stringtrie.Chars` has the character tables and the two
--                  halves of a character; `Stringtrie.Node` has `struct st_root` and `struct st_lsb`,
--                  with an array of eight pointers as a function; `Stringtrie.Ops` has each
--                  operation under its own name. The other children are about what they do.
--   Cli            cli.c. A command is data of the string tree; `cli_run_cmd` returns the call that it
--                  makes. Writing into a string in place is modelled by the string that results.
--   Common         common.c: `chomp`, the `limit_` functions and `str_to_long`.
--   Trade          ship.c, cargo.h, item.h, and the trading commands of player.c. Cargo lies in a store
--                  and is known by its index, so that a port's cargo and a ship's may be the same.
--   Player         player.c: `player_init`, `player_go` and the commands. `enum postype` with the
--                  pointer it goes with is `Place`.
--   Ptrlist        ptrlist.c, ptrarray.c: lists, the merge sort, arrays.
--   Buffer         buffer.c: what a connection reads and the line in it.
--   PortUpdate     port_update.c: a round of updates to the cargo of ports, over the store of Trade.
--   Port           port.c: the cargo of a new port, copied from its type, over the store of Trade. The two
--                  loops of `port_genesis` are `copy_items` and `copy_all_requires`.
--   Names          names.c: made and unique names, over the string tree.
--   Mtrandom       mtrandom.c, over the generator as a parameter.
--   Config         item.c, ship_type.c, port_type.c, planet_type.c and the loading of civ.c: what each does
--                  with a parsed configuration.
--   Civ            civ.c: how civilizations get homes and grow over the neighbours in Universe. The loop of a
--                  search has fuel, and running out of it, where the source goes on, is a fault; that
--                  it does not run out is proved. The rounds of growth are up to the random generator.
--   Loadconfig     loadconfig.c: which files are loaded, and the checks after it.
--   Universe       universe.c and system.c: the tree of systems by x, neighbours, and the ports near a
--                  system. Positions are in a store, the tree is a data type; rbtree.h is a parameter.
--   Connection     connection.c and disconnect_peer of server.c: one connection between the threads, as a
--                  step relation.
--   Server         server.c: the messages on the pipe from the console, as bytes, and what they do to the
--                  connections. A `read` takes as many bytes as it asks for, or all there are.
--   Console        console.c: the commands, a line, and the loop over what arrives. `Console.Ops` has the
--                  commands that write to the pipe, `Console.Lines` the rest.
--   Modules        module.c: the list of loaded modules.
--   Starmap        map.c, asciiart.c: drawing a map into an array of characters, and its text.
--   Star           star.c: the stars of a system.
--   Planet         planet.c: the planets of a system.
--
-- A string is the list of its bytes in front of the NUL, and `none` is a NULL pointer. A `long` is an
-- integer without bounds except where a file says otherwise; an `int` result is cut to 32 bits. The
-- loops over arrays of eight pointers are recursion on the rounds that are left, always 8 at
-- the start. The loops over strings are recursion on the string. `st_foreach_data` recurs on the room that
-- is left in its buffer of 64 characters, which is the bound of the source. The merge sort has the length of
-- the list as fuel for its rounds: each round at least doubles the sorted parts, and each merge takes an
-- element. A unique name is looked for over a list of draws, as are the number and type of a planet. The loop
-- over neighbours has the number of systems and one more as fuel, and visits each system at most once.
--
-- Allocations succeed. Locks, output, sockets and threads are not modelled, nor are the generated
-- configuration parser, the list and tree headers of the Linux kernel, and the random generator.
pub mod Buffer
pub mod Civ
pub mod Cli
pub mod Common
pub mod Config
pub mod Connection
pub mod Console
pub mod Loadconfig
pub mod Modules
pub mod Mtrandom
pub mod Names
pub mod Planet
pub mod Player
pub mod Port
pub mod PortUpdate
pub mod Prelude
pub mod Ptrlist
pub mod Server
pub mod Star
pub mod Starmap
pub mod Stringtrie
pub mod Trade
pub mod Universe
