-- ===== src/Transport/RoundTrip.antt =====
-- `recv_msg` and `send_msg` of python/nano_ray/transport.py.
use nano_ray.Prelude.{
  ℕ, ◌^◌, ◌<◌, ◌≤◌, ◌≡◌, refl, ◌∙◌, ap, ◌++◌, append_assoc, Option, none, some, arith, length,
  ltb-eq-false,
}
use nano_ray.Transport.{
  Bytes, Socket, max_message_size, pack, unpack, recv_exact, message, closed, send_msg, recv_msg,
  after_payload, recv_payload, after_header,
}
use nano_ray.Transport.Exact.{stream, IsSocket, recv_exact-stream, recv_exact_short}

-- The length header is read as it was written, if it fits into four bytes.
pub unpack-pack : (n : ℕ) → n < 2 ^ 32 → unpack (pack n) 0 ≡ n
unfolding unpack pack
unpack-pack n h = omega arith

module _ {A : Type 0} (dumps : A → Bytes) (loads : Bytes → A)
    (loads-dumps : (a : A) → loads (dumps a) ≡ a) where
  recv_msg_body :
      (obj : A) (s s₁ s₂ : Socket)
      → length (dumps obj) ≤ max_message_size
      → recv_exact 4 s ≡ (some (pack (length (dumps obj))), s₁)
      → recv_exact (length (dumps obj)) s₁ ≡ (some (dumps obj), s₂)
      → recv_msg dumps loads s ≡ (message obj, s₂)
  unfolding recv_msg
  recv_msg_body obj s s₁ s₂ fits header body =
      ap (after_header dumps loads) header
      ∙ ap (λ n. recv_payload dumps loads n s₁) (unpack-pack (length (dumps obj)) (ground arith))
      ∙ rw (ltb-eq-false max_message_size (length (dumps obj)) fits)
          (ap (after_payload dumps loads) body ∙ ap (λ a. (message a, s₂)) (loads-dumps obj))

  -- If pickling is undone by unpickling, an object that is sent arrives, in whatever non-empty
  -- pieces the bytes come, and the bytes behind it stay for the next message.
  pub recv_msg-send_msg :
      (obj : A) (wire rest : Bytes) (s : Socket)
      → send_msg dumps loads obj ≡ some wire
      → IsSocket s
      → stream s ≡ wire ++ rest
      → (s' : Socket) × (recv_msg dumps loads s ≡ (message obj, s'))
        × IsSocket s'
        × (stream s' ≡ rest)
  unfolding send_msg pack
  recv_msg-send_msg obj wire rest s sent ok h =
      let fits : length (dumps obj) ≤ max_message_size = ground arith in
      let bytes : wire ≡ pack (length (dumps obj)) ++ dumps obj = ground arith in
      let (s₁, header, ok₁, h₁) =
        recv_exact-stream (pack (length (dumps obj))) (dumps obj ++ rest) s ok (
          h
          ∙ ap (λ w. w ++ rest) bytes
          ∙ append_assoc (pack (length (dumps obj))) (dumps obj) rest) in
      let (s₂, body, ok₂, h₂) = recv_exact-stream (dumps obj) rest s₁ ok₁ h₁ in
      (s₂, recv_msg_body obj s s₁ s₂ fits header body, ok₂, h₂)

  -- A connection that ends within the header gives `None`.
  pub recv_msg_closed :
      (s : Socket) → IsSocket s → length (stream s) < 4 → (recv_msg dumps loads s).0 ≡ closed
  unfolding recv_msg
  recv_msg_closed s ok short = first (recv_exact 4 s) (recv_exact_short 4 s ok short)
    where
      first : (r : Option Bytes × Socket) → r.0 ≡ none → (after_header dumps loads r).0 ≡ closed
      first (none, s') e = refl
      first (some header, s') e = absurd (ground arith)
