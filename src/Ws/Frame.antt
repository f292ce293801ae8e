-- ===== src/Ws/Frame.antt =====
-- web_server/ws/frame.h and frame.cpp: frames, and the buffers that are sent.
pub mod Wire
pub mod Info
use sdk_cp.Base.{
  ℕ, ◌+◌, ◌-◌, ◌*◌, ◌/◌, ◌%◌, ◌^◌, ◌<<<◌, ◌>>>◌, u8, u16, bit_and, bit_or, Bool, true, false, ◌&&◌,
  ◌||◌, if◌then◌else◌, ltb, leb, ◌==◌, Option, none, some, List, [], ◌∷◌, ◌++◌, replicate, length,
  take, drop, read_bytes, ◌>>=◌,
}
use sdk_cp.Ws.Bytes.{le_bytes, le_value, myhtons, myhtonll, myntohs, myntohll}

-- `frame_t`. A buffer that `payload_data` points to is the list of its bytes.
pub record Frame : Type 0 where
  pub fin : ℕ
  pub opcode : ℕ
  pub mask : ℕ
  pub payload_len : ℕ
  pub masking_key : List ℕ
  pub payload_data : Option (List ℕ)

-- `frame_buffer_t` over a buffer of its own.
pub record FrameBuffer : Type 0 where
  pub data_ptr : Option (List ℕ)
  pub len : ℕ

-- `frame_buffer_t` over a string: `data_ptr` is an offset into `str_data`.
pub record StrFrameBuffer : Type 0 where
  pub str_data : List ℕ
  pub data_ptr : Option ℕ
  pub len : ℕ

abbrev pub k_prefix_size : ℕ
k_prefix_size = 16

-- Zeroed by `memset`; `new (nothrow)` may answer null.
unfoldable pub frame_new : Bool → Option Frame
frame_new false = none
frame_new true = some (record {
  fin = 0;
  opcode = 0;
  mask = 0;
  payload_len = 0;
  masking_key = replicate 4 0;
  payload_data = none;
})

unfoldable pub is_frame_valid : Option Frame → Bool
is_frame_valid none = false
is_frame_valid (some f) = leb f.fin 1 && (leb f.opcode 0xf && f.mask == 1)

-- The two header bytes; `mask` is 0 in the callers.
abbrev pub header_c1 : ℕ → ℕ → ℕ
header_c1 fin opcode = u8 (bit_or (u8 (bit_or 0 (fin <<< 7))) opcode)

abbrev pub header_c2 : ℕ → ℕ
header_c2 mask = u8 (bit_or 0 (mask <<< 7))

abbrev masking_key : List ℕ
masking_key = replicate 4 0

-- What lies between the length and the payload.
abbrev key_part : ℕ → List ℕ
key_part mask = if mask == 0 then [] else masking_key

-- The buffer `p` that the cases on the length fill: `some none` is a null `p`.
abbrev frame_bytes : ℕ → ℕ → ℕ → ℕ → Option (List ℕ) → Option (Option (List ℕ))
frame_bytes mask c1 c2 payload_len none = some (some (c1 ∷ c2 ∷ key_part mask))
frame_bytes mask c1 c2 payload_len (some payload) =
    if payload_len == 0
    then some (some (c1 ∷ c2 ∷ key_part mask))
    else if leb payload_len 125
    then (read_bytes payload_len payload >>= λ body.
        some (some (c1 ∷ u8 (c2 + u8 payload_len) ∷ (key_part mask ++ body))))
    else if leb 126 payload_len && leb payload_len 65535
    then (read_bytes payload_len payload >>= λ body. some (
        some (
          c1
          ∷ u8 (c2 + 126)
          ∷ (le_bytes 2 (myhtons (u16 payload_len)) ++ (key_part mask ++ body)))))
    else if leb 65536 payload_len
    then (read_bytes payload_len payload >>= λ body. some (
        some (c1 ∷ u8 (c2 + 127) ∷ (le_bytes 8 (myhtonll payload_len) ++ (key_part mask ++ body)))))
    else some none

-- `if (p && len > 0)`: the struct around the buffer, whose own `new (nothrow)` may answer null.
abbrev boxed : Bool → Option (List ℕ) → Option FrameBuffer
boxed memory none = none
boxed memory (some p) =
    if ltb 0 (length p) && memory then some (record { data_ptr = some p; len = length p }) else none

-- `frame_buffer_new(fin, opcode, payload_len, payload_data)`. The outer option is undefined
-- behaviour, the inner one the null pointer that the function may return.
unfoldable pub frame_buffer_new : Bool → ℕ → ℕ → ℕ → Option (List ℕ) → Option (Option FrameBuffer)
frame_buffer_new memory fin opcode payload_len payload =
    if ltb 1 fin || ltb 0xf opcode
    then some none
    else (frame_bytes 0 (header_c1 fin opcode) (header_c2 0) payload_len payload >>= λ p.
        some (boxed memory p))

-- `frame_buffer_new(frame)`.
unfoldable pub frame_buffer_of_frame : Bool → Option Frame → Option (Option FrameBuffer)
unfolding frame_buffer_new
frame_buffer_of_frame memory none = some none
frame_buffer_of_frame memory (some f) =
    if ltb 1 f.fin || (ltb 0xf f.opcode || ltb 1 f.mask)
    then some none
    else frame_buffer_new memory f.fin f.opcode f.payload_len f.payload_data

-- A write of bytes into a string at an offset.
abbrev pub write_at : ℕ → List ℕ → List ℕ → List ℕ
write_at i bs s = take i s ++ (bs ++ drop (i + length bs) s)

-- The header that goes in front of the payload of a string, and its length.
abbrev str_header : ℕ → ℕ → ℕ → ℕ → List ℕ
str_header mask c1 c2 size =
    if size == k_prefix_size
    then c1 ∷ c2 ∷ key_part mask
    else if leb size (125 + k_prefix_size)
    then c1 ∷ u8 (c2 + u8 size + 256 - k_prefix_size) ∷ key_part mask
    else if leb (126 + k_prefix_size) size && leb size (65535 + k_prefix_size)
    then c1 ∷ u8 (c2 + 126) ∷ (le_bytes 2 (myhtons (u16 (size - k_prefix_size))) ++ key_part mask)
    else if leb (65536 + k_prefix_size) size
    then c1 ∷ u8 (c2 + 127) ∷ (le_bytes 8 (myhtonll (size - k_prefix_size)) ++ key_part mask)
    else []

-- `frame_buffer_new(fin, opcode, data)`: the payload stands behind `k_prefix_size` spare bytes,
-- and the header is written in front of it.
unfoldable pub frame_buffer_new_str : ℕ → ℕ → List ℕ → StrFrameBuffer
frame_buffer_new_str fin opcode str =
    if ltb 1 fin || ltb 0xf opcode
    then record { str_data = str; data_ptr = none; len = 0 }
    else if ltb (length str) k_prefix_size
    then record { str_data = str; data_ptr = none; len = 0 }
    else let header = str_header 0 (header_c1 fin opcode) (header_c2 0) (length str) in
      record {
        str_data = write_at (k_prefix_size - length header) header str;
        data_ptr = some (k_prefix_size - length header);
        len = length header + length str - k_prefix_size;
      }
