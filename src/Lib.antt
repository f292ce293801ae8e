-- ===== src/Lib.antt =====
-- Verification library of sdk_cp, a C++ toolkit of allocators, containers, threads and a web server.
--
-- The program's parts that are modelled, and where:
--   * web_server/ws is the websocket layer over libevent. A connection receives bytes, takes frames
--     out of them and hands each to a callback of the user; what it sends goes through frame buffers.
--     - Ws/Bytes.antt: web_server/ws/tools.h, the byte order (myhtons to myntohll). The host is
--       little-endian.
--     - Ws/Frame.antt: web_server/ws/frame.h and frame.cpp, frames and the frame buffers, by the
--       allocating constructor (frame_buffer_new), by the one in place over a string
--       (frame_buffer_new_str, its overload in the source).
--     - Ws/Websocket.antt: web_server/ws/websocket.cpp, the frame header and the unmasking.
--     - Ws/Handshake.antt: the handshake of web_server/ws/websocket.cpp (parse_websocket_request,
--       print_websocket_request, generate_key, generate_websocket_response).
--     - Ws/Connection.antt and Ws/Connection/Receive.antt: web_server/ws/connection.h and
--       connection.cpp, the connection, its callbacks, and frame_read_cb with its four steps. A
--       handler is a function from the connection and the input buffer to both and a log of the
--       calls it makes on the outside; the type Turns of Ws/Connection/Delivery.antt is the relation
--       of the event loop's turns. Ws/Connection/Opening.antt has the handlers of the handshake, from
--       ws_serve_start to response_write_cb.
--     - Ws/Base64.antt: web_server/ws/base64.h, the encoder.
--   * tools/pool_allocator.hpp is the pool of objects in chunks, in Pool.antt. The map of
--     tools/linear_hash_map.hpp stands on it, in LinearMap.antt: a key has a position in the pool.
--   * tools/chain_executor.hpp runs tasks by key on a fixed number of threads, in Chains.antt. The type
--     Step is the relation of its critical sections and of the end of a chain that no shared pointer
--     holds, in any order, and Reach the states that they lead to.
--   * tools/stack_allocator.hpp hands out one block of memory front to back, in StackAllocator.antt.
--   * tools/ring_buffer.hpp hands blocks of bytes from writers to one reader, in RingBuffer.antt: a
--     call is one step under its lock, and the memory a function from offsets to bytes. Entries.antt
--     below it has the abstract queue, a list of blocks with their states.
--   * tools/heap_allocator.hpp keeps a bit for each free page in blocks of 64 bits: HeapAllocator.antt
--     has the loops over a run of pages and the search for one, and Allocator.antt below it
--     allocate and release, which are only run on fixed inputs. Pages.antt below it has the view of the
--     blocks as pages.
--   * tools/cache.hpp keeps objects for reuse, in Cache.antt; the data port takes its vectors from one.
--   * tools/static_frame.hpp is a window over the last items of a stream, in StaticFrame.antt.
--   * tools/binary_serializer.hpp is the binary form of plain objects, strings and vectors, in
--     Serializer.antt.
--   * tools/hash.hpp has the FNV-1a hashes, in Hash.antt. The data port uses them.
--   * dataport/dataport_direct.hpp is a file of records, each behind a header with the hash and the
--     size of its data, in Dataport.antt.
--   * Base.antt and its children carry what the parts share: tests, machine words, lists as memory,
--     counts in lists, and the laws of the bit operations.
--
-- State and results. Records and data types keep the source's fields and cases. A read or write out
-- of bounds, a null pointer that is followed and a signed overflow are `none`, so that an answer
-- `some` says that the code is defined there. What `new (nothrow)` answers is a Boolean argument;
-- a `new` that throws, and the freeing of memory, are not modelled. Numbers are natural numbers, and
-- every place where the source narrows or wraps writes the remainder out, but for the offset of
-- get_from_first in tools/static_frame.hpp, an int below the number of cells. The checks of
-- SDK_CP_ASSERT are those of a debug build and are left out.
--
-- Bounds. A payload and its header are shorter than 2 ^ 64 bytes together when sent, a sum that the
-- model does not wrap, and a payload is shorter than 2 ^ 31 bytes when it is received, since
-- unmask_payload_data counts in an int32_t. A serialised form is shorter than 2 ^ 32 bytes, the
-- type of its size; a file of the data port is shorter than 2 ^ 63 bytes; a stack allocator's
-- memory lies in the lower half of the address space. A ring buffer has at most 2 ^ 31 bytes, an
-- alignment from 8 to 128, and has been written less than 2 ^ 62 bytes. Every loop is a recursion
-- on the list or the number that it runs through, but for the loops of peek and free of the ring
-- buffer, whose fuel is one round more than the ring has bytes: each round passes an entry. The
-- search for free pages has fuel 65 in a block of 64 bits: each round drops a run of ones.
--
-- Parameters. The builtin that counts the zeros below the lowest one of a word is a function, below
-- 64 where the word is not 0. libevent's bufferevent is the record Platform: its input queue, the
-- read that takes bytes off the front of it, and ntohs. SHA1 is a function from bytes to bytes. The
-- pool's allocator is a Boolean answer per request. Whether a container gets room for so many
-- elements is the function room of the serializer, MD5 a function, and what stdio, the allocator
-- and the cache answer to the data port the record Answers, with what a text stream makes of bytes;
-- and a callback on a `T&` a function on its value.
--
-- Not modelled: print_frame_info, which only logs; the list of chunks of tools/heap.hpp; the guard
-- words of the ring buffer's debug build and its buffer_auto_commit; the server around the
-- websocket layer, the other containers of tools/, the moves and swaps of whole pools, the move of
-- a stack allocator, the functions that only free memory, the other classes on threads, the
-- structure macros and amtsMove of the serializer; the copies of miniLZO and RapidJSON, which are
-- other projects; input and output on files and logs; and the code on floating-point numbers.
pub mod Base
pub mod Ws
pub mod Pool
pub mod StaticFrame
pub mod Serializer
pub mod Hash
pub mod Dataport
pub mod Chains
pub mod LinearMap
pub mod StackAllocator
pub mod Cache
pub mod RingBuffer
pub mod HeapAllocator
