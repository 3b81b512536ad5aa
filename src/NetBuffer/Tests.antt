-- ===== src/NetBuffer/Tests.antt =====
-- A connection's buffer with little room, which grows, moves its content and is emptied.
use cpp_tlfss.NetBuffer.Buffer.{Buffer, make_buffer}

small : Buffer
small = make_buffer 4
