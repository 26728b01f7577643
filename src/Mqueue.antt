-- ===== src/Mqueue.antt =====
-- The message queues of mqueue.c: the queues and messages in shared memory, each known by its
-- address, with the functions that create, fill, empty and close a queue. A function runs under
-- the locks that it takes; the wait for a message is in Mqueue/Wait.antt.
pub mod Store
pub mod Message
pub mod Queue
pub mod Wait
pub mod Info
