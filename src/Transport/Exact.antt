-- ===== src/Transport/Exact.antt =====
-- `_recv_exact` of python/nano_ray/transport.py on a stream that comes in pieces.
use nano_ray.Prelude.{
  ℕ, zero, suc, ◌-◌, ◌<◌, ◌≤◌, ◌≡◌, ◌≢◌, refl, sym, ◌∙◌, ap, [], ◌∷◌, ◌++◌, none, some, arith,
  length, take, drop, length-append, length-take, length-drop, All,
}
use nano_ray.Prelude.Maybe.{map_some}
use nano_ray.Transport.{Bytes, Socket, put_back, recv, recv_rounds, recv_exact}

-- All bytes that are still to come.
abbrev pub stream : Socket → Bytes
stream [] = []
stream (piece ∷ s) = piece ++ stream s

abbrev pub IsSocket : Socket → Type 0
IsSocket s = All (λ piece. piece ≢ []) s

stream-put_back : (bs : Bytes) (s : Socket) → stream (put_back bs s) ≡ bs ++ stream s
stream-put_back [] s = refl
stream-put_back (b ∷ bs) s = refl

put_back-IsSocket : (bs : Bytes) (s : Socket) → IsSocket s → IsSocket (put_back bs s)
put_back-IsSocket [] s h = h
put_back-IsSocket (b ∷ bs) s h = ((λ e. absurd (ground arith)), h)

-- What is wanted, `ds`, begins with the part of `bs` that is taken, or ends in it.
split :
    (bs ds x rest : Bytes)
    → bs ++ x ≡ ds ++ rest
    → (ds ≡ take (length ds) bs ++ drop (length (take (length ds) bs)) ds)
      × (drop (length ds) bs ++ x ≡ drop (length (take (length ds) bs)) ds ++ rest)
split bs [] x rest h = (refl, h)
split [] (d ∷ ds) x rest h = (refl, h)
split (b ∷ bs) (d ∷ ds) x rest h =
    let tails : bs ++ x ≡ ds ++ rest = cc in
    let heads : b ≡ d = cc in
    let (parts, left) = split bs ds x rest tails in
    (ap (λ e. e ∷ ds) (sym heads) ∙ ap (λ l. b ∷ l) parts, left)

recv_rounds-stream :
    (rounds : ℕ) (wanted rest : Bytes) (s : Socket)
    → length wanted ≤ rounds
    → IsSocket s
    → stream s ≡ wanted ++ rest
    → (s' : Socket) × (recv_rounds rounds (length wanted) s ≡ (some wanted, s'))
      × IsSocket s'
      × (stream s' ≡ rest)
unfolding recv_rounds recv
recv_rounds-stream rounds [] rest s enough ok h = (s, refl, ok, h)
recv_rounds-stream zero (d ∷ ds) rest s enough ok h = absurd (ground arith)
recv_rounds-stream (suc rounds) (d ∷ ds) rest [] enough ok h = absurd (ground arith)
recv_rounds-stream (suc rounds) (d ∷ ds) rest ([] ∷ s) enough ok h = absurd (ok.0 refl)
recv_rounds-stream (suc rounds) (d ∷ ds) rest ((b ∷ bs) ∷ s) enough ok h =
    let tails : bs ++ stream s ≡ ds ++ rest = cc in
    let heads : b ≡ d = cc in
    let chunk : Bytes = take (length ds) bs in
    let later : Bytes = drop (length chunk) ds in
    let (parts, left) = split bs ds (stream s) rest tails in
    let s₁ : Socket = put_back (drop (length ds) bs) s in
    let missing : length ds - length chunk ≡ length later = sym (length-drop (length chunk) ds) in
    let (s', done, ok', rest') =
      recv_rounds-stream rounds later rest s₁ (ground (arith, length-drop (length chunk) ds))
        (put_back-IsSocket (drop (length ds) bs) s ok.1)
        (stream-put_back (drop (length ds) bs) s ∙ left) in
    let round : recv_rounds rounds (suc (length ds) - suc (length chunk)) s₁ ≡ (some later, s') =
      ap (λ n. recv_rounds rounds n s₁) (ground (arith, missing)) ∙ done in
    (
      s',
      ap (λ r. (map_some (λ bytes. b ∷ (chunk ++ bytes)) r.0, r.1)) round
          ∙ ap (λ l. (some l, s'))
              (ap (λ e. e ∷ (chunk ++ later)) heads ∙ ap (λ l. d ∷ l) (sym parts)),
      ok',
      rest',
    )

-- However the bytes arrive, `_recv_exact` gives the bytes that it is asked for, if they come, and
-- leaves those behind them.
pub recv_exact-stream :
    (wanted rest : Bytes) (s : Socket)
    → IsSocket s
    → stream s ≡ wanted ++ rest
    → (s' : Socket) × (recv_exact (length wanted) s ≡ (some wanted, s'))
      × IsSocket s'
      × (stream s' ≡ rest)
unfolding recv_exact
recv_exact-stream wanted rest s ok h =
    recv_rounds-stream (length wanted) wanted rest s (ground arith) ok h

recv_rounds_short :
    (rounds missing : ℕ) (s : Socket)
    → missing ≤ rounds
    → IsSocket s
    → length (stream s) < missing
    → (recv_rounds rounds missing s).0 ≡ none
unfolding recv_rounds recv
recv_rounds_short rounds zero s enough ok h = absurd (ground arith)
recv_rounds_short zero (suc missing) s enough ok h = absurd (ground arith)
recv_rounds_short (suc rounds) (suc missing) [] enough ok h = refl
recv_rounds_short (suc rounds) (suc missing) ([] ∷ s) enough ok h = absurd (ok.0 refl)
recv_rounds_short (suc rounds) (suc missing) ((b ∷ bs) ∷ s) enough ok h =
    let left : Bytes = drop missing bs in
    rw (
      recv_rounds_short rounds (suc missing - suc (length (take missing bs))) (put_back left s)
        (ground arith) (put_back-IsSocket left s ok.1)
        (ground (
          arith,
          ap (λ l. length l) (stream-put_back left s),
          length-append left (stream s),
          length-append bs (stream s),
          length-drop missing bs,
          length-take missing bs,
        )))

-- If the stream of non-empty pieces ends before the bytes asked for, `_recv_exact` gives `None`.
pub recv_exact_short :
    (n : ℕ) (s : Socket) → IsSocket s → length (stream s) < n → (recv_exact n s).0 ≡ none
unfolding recv_exact
recv_exact_short n s ok h = recv_rounds_short n n s (ground arith) ok h
