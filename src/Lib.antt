-- ===== src/Lib.antt =====
-- Verification of the OpenSync platform layer for RDK: the C code that connects the managers of
-- OpenSync (wireless, connection, network and band steering manager) to the Wi-Fi HAL of an RDK
-- device, to the mesh agent and to the DHCP server.
--
-- The parts, and the files that model them. A function of the model has the name of the C
-- function that it models, where there is one.
--
--   * Common: what the other modules share: tests and lists on native numbers, C strings as lists
--     of bytes (Text), keyed trees as lists of entries with their lemmas (Tree), and what sequences
--     of events tell (Told).
--   * HalQueue: the queue of at most 20 events between the threads of the HAL and the event loop,
--     which src/lib/target/src/clients.c, wps.c and multi_ap.c each write out. `push` is what
--     the callback of the HAL does under the lock, `wake` its wake-up of the event loop after it,
--     `drain` the async callback, `dispatch` a turn of the event loop. The mutex is modelled by the
--     push and the drain being single steps; other steps may come between a push and its wake-up.
--   * Wps: src/lib/target/src/wps.c, over HalQueue: the state has the queue of events and the updates
--     of interfaces that were sent.
--   * MultiAp: the types of src/lib/target/src/multi_ap.c.
--   * Vif: src/lib/target/src/vif.c. Vif/Types has the interface of the HAL and the rows of the tables
--     Wifi_VIF_State and Wifi_VIF_Config, one record for the columns that they share; Vif/Security
--     and Vif/Acl the columns of security and of the access list; Vif/State what is reported;
--     Vif/Config and Vif/Station what a configuration does; Vif/External the rows for changes by
--     others; Vif/Deferred the updates that wait for a timer; Vif/Events the events of the HAL of
--     multi_ap.c and, in an extender, of stations. Options of the build are the record Kconfig, and
--     the HAL is one before version 3 phase 2. Flags say which columns changed.
--   * Radio: src/lib/target/src/radio.c. Radio has the interface of the HAL and the row of the table
--     Wifi_Radio_State; Radio/Config what a configuration of a radio does; Radio/Init the tables sent
--     at the start; Radio/Channels the channel events of the HAL; Radio/Resync the
--     resynchronisation of all tables, its flag and its timer, and Radio/Resync/Served what it keeps.
--   * Clients: src/lib/target/src/clients.c. The state has the tree of connected clients, the
--     queue, and the calls of op_client so far; Clients/Types has the data, Clients/Scan the
--     sscanf of an address, Clients/Views what an upper layer learns from the calls alone,
--     Clients/Fetched what a fetch of the HAL's list makes of the table. The
--     answers of the HAL are functions of the record Hal, the same during one run.
--   * Sync: src/lib/target/src/sync.c, radio_cloud_mode_set and radio_trigger_resync of radio.c,
--     and cloud_config.c. The state has the connection (descriptor, watchers, open sockets), the
--     manager that the process is, and the cloud mode; Sync/Messages has the handling of what the
--     mesh agent sends, Sync/Retries the attempts to connect again. The message union is the vendor's: the record MsgData has what the code
--     reads through each member.
--   * Target: src/lib/target/src/target.c, the start and the end of a manager over the model of Sync.
--   * Bsal: src/lib/target/src/bsal.c, the band steering layer. Bsal has the group of interfaces,
--     the operations on clients and the life cycle; Bsal/Neighbors the tree of neighbors that is
--     mirrored to the HAL; Bsal/Events the translation of the HAL's events and the cache of
--     clients; Bsal/Requests the requests to clients and action frames; Bsal/Rates the decoding of
--     association requests, with the walk over elements of src/lib/target/inc/bm_ieee80211.h;
--     Bsal/Info the query of a client. Memory that the code
--     reads without having written it is an argument of the operation.
--   * Pl2rl: the remote logging. Pl2rl has the messages of src/lib/pl2rl/inc/pl2rl.h as bytes;
--     Pl2rl/Client is src/lib/pl2rl/pl2rl.c, with its connection and the bytes that the connection
--     took; Pl2rl/Daemon is src/pl2rld/pl2rld.c, whose state has the clients, the watchers, the open
--     descriptors and the lines handed to RDK_LOG; Pl2rl/Delivery is both ends together. What the
--     system's calls return is an argument of the operations. A copy or a read beyond an array,
--     which has no defined behaviour, sets the field `overrun`, and the model goes no further.
--   * Dhcp: src/lib/osn/src/osn_dhcps.c, the leases and the address ranges of the DHCP server
--     adapter. The matching of the regular expression of a line of the lease file and the conversions
--     are a parameter.
--
-- Clients, Wps, Vif and Radio use HalQueue for their queues, Vif uses Wps and MultiAp, Radio/Init
-- uses Vif, and Target uses Sync; the others stand alone, as the files of the program do: what these
-- call of each other goes through the HAL and the upper layer, whose calls are lists of effects in
-- the states.
--
-- Loops over lists are structural. The loops over bits run their fixed number of turns (32 for HT,
-- 8 for VHT). The walk over the elements of an association request has as fuel the number of its
-- bytes, which is enough since each turn takes at least two.
--
-- Numbers are natural numbers; the code's additions here stay far below the width of an int.
-- Allocations succeed. Log messages are left out. Not modelled: the
-- transfer of statistics between the structures of the core and of the HAL (stats.c), the legacy
-- band steering, the data model connector, the command line tools; of radio.c target_radio_init.
pub mod Common
pub mod HalQueue
pub mod Clients
pub mod Sync
pub mod Wps
pub mod MultiAp
pub mod Vif
pub mod Radio
pub mod Target
pub mod Bsal
pub mod Pl2rl
pub mod Dhcp
