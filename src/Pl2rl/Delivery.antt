-- ===== src/Pl2rl/Delivery.antt =====
-- Both ends of remote logging together, src/lib/pl2rl/pl2rl.c and src/pl2rld/pl2rld.c: what the one
-- sends, the other reads.
pub mod Messages
pub mod Streams
pub mod Sending
pub mod Lines
