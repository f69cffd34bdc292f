-- ===== src/Pool/ByteBuf/ReadFd.antt =====
-- `Buffer::readFd` of buffer/Buffer.cpp: what a socket gives goes behind the string.
use duo_duo.Pool.ByteBuf.{ByteBuf}
