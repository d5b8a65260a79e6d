-- ===== src/Transport.antt =====
-- python/nano_ray/transport.py: messages over a TCP connection. The receiving side of a connection is
-- the list of the pieces in which the bytes arrive, none of them empty, up to the end of the
-- stream: TCP keeps the order of the bytes and nothing of how they were sent. A byte is a number
-- below 256. Pickling is a parameter.
pub mod Exact
pub mod RoundTrip
use nano_ray.Prelude.{
  ℕ, zero, suc, ◌+◌, ◌-◌, ◌*◌, ◌/◌, ◌%◌, ◌^◌, List, [], ◌∷◌, ◌++◌, Option, none, some, ltb,
  if◌then◌else◌, length, take, drop,
}
use nano_ray.Prelude.Maybe.{map_some}

abbrev pub Bytes : Type 0
Bytes = List ℕ

abbrev pub Socket : Type 0
Socket = List Bytes

abbrev header_size : ℕ
header_size = 4

abbrev pub max_message_size : ℕ
max_message_size = 256 * 1024 * 1024

-- `struct.pack("!I", n)`: four bytes, big-endian.
unfoldable pub pack : ℕ → Bytes
pack n = (n / 2 ^ 24) % 256 ∷ (n / 2 ^ 16) % 256 ∷ (n / 2 ^ 8) % 256 ∷ n % 256 ∷ []

-- `struct.unpack("!I", bytes)`, on four bytes.
unfoldable pub unpack : Bytes → ℕ → ℕ
unpack [] n = n
unpack (b ∷ bs) n = unpack bs (n * 256 + b)

abbrev pub put_back : Bytes → Socket → Socket
put_back [] s = s
put_back (b ∷ bs) s = (b ∷ bs) ∷ s

-- `sock.recv(n)`: at most `n` bytes of what has arrived; no bytes at the end of the stream.
unfoldable pub recv : ℕ → Socket → Bytes × Socket
recv n [] = ([], [])
recv n (piece ∷ s) = (take n piece, put_back (drop n piece) s)

-- The loop of `_recv_exact`, with `missing` for `n - received`. Each round receives a byte at least
-- or ends, so `n` rounds are enough.
unfoldable pub recv_rounds : (rounds missing : ℕ) → Socket → Option Bytes × Socket
unfolding recv
recv_rounds rounds zero s = (some [], s)
recv_rounds zero (suc missing) s = (none, s)
recv_rounds (suc rounds) (suc missing) s =
    let (chunk, s') = recv (suc missing) s in
    let (rest, s'') = recv_rounds rounds (suc missing - length chunk) s' in
    elim chunk [ [] ↦ (none, s') | b ∷ bs ↦ (map_some (λ r. b ∷ (bs ++ r)) rest, s'') ]

unfoldable pub recv_exact : ℕ → Socket → Option Bytes × Socket
unfolding recv_rounds
recv_exact n s = recv_rounds n n s

-- What `recv_msg` returns or raises.
pub data Received (A : Type 0) : Type 0 where
  closed : Received A
  too_large : (length : ℕ) → Received A
  message : A → Received A

module _ {A : Type 0} (dumps : A → Bytes) (loads : Bytes → A) where
  -- The bytes sent; `none` for the `ValueError`.
  unfoldable pub send_msg : A → Option Bytes
  send_msg obj =
      let data_bytes = dumps obj in
      if ltb max_message_size (length data_bytes)
      then none
      else some (pack (length data_bytes) ++ data_bytes)

  -- Behind the reading of the payload, the test of its length, and the reading of the header.
  abbrev pub after_payload : Option Bytes × Socket → Received A × Socket
  after_payload (none, s) = (closed, s)
  after_payload (some bytes, s) = (message (loads bytes), s)

  abbrev pub recv_payload : ℕ → Socket → Received A × Socket
  recv_payload n s =
      if ltb max_message_size n then (too_large n, s) else after_payload (recv_exact n s)

  abbrev pub after_header : Option Bytes × Socket → Received A × Socket
  after_header (none, s) = (closed, s)
  after_header (some header, s) = recv_payload (unpack header 0) s

  unfoldable pub recv_msg : Socket → Received A × Socket
  recv_msg s = after_header (recv_exact header_size s)
