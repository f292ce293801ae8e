-- ===== src/Ws/Connection/Reads.antt =====
-- What `bufferevent_read` brings in when as many bytes are queued as the handler asked for.
use sdk_cp.Base.{
  ℕ, ◌≤◌, ◌≡◌, arith, ap, ◌∙◌, false, ltb, some, List, ◌++◌, length, length-append, read_bytes,
  read_bytes_all, take-append_length, drop-append_length,
}
use sdk_cp.Ws.Connection.{Platform}
use sdk_cp.Ws.Connection.Receive.{read_into}

module _ (p : Platform) (b : p.Bev) (bytes rest : List ℕ) (n : ℕ)
    (front : p.queued b ≡ bytes ++ rest) (size : length bytes ≡ n) where
  pub enough : n ≤ length (p.queued b)
  enough = omega (arith, ap (length {A = ℕ}) front, length-append bytes rest)

  bytes_read : (p.read b n).0 ≡ bytes
  bytes_read = p.read_bytes b n enough ∙ rw (front, ← size) (take-append_length bytes rest)

  pub queued-read : p.queued (p.read b n).1 ≡ rest
  queued-read = p.read_rest b n enough ∙ rw (front, ← size) (drop-append_length bytes rest)

  pub read_into-front : (room : ℕ) → n ≤ room → read_into p room b n ≡ some (bytes, (p.read b n).1)
  unfolding read_into
  read_into-front room h = rw (bytes_read, small, whole)
    where
      small : ltb room n ≡ false
      small = ground arith

      whole : read_bytes n bytes ≡ some bytes
      whole = rw (← size) (read_bytes_all bytes)
