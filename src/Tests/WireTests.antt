-- ===== src/Tests/WireTests.antt =====
-- python/nano_ray/transport.py over a connection that cuts a message into pieces, and
-- python/nano_ray/dashboard.py on a few events.
use nano_ray.Prelude.{List, map, ℕ, ◌≡◌, refl, [], ◌∷◌, some, arith, length}
use nano_ray.Transport.{Bytes, Socket, pack, recv_exact, message, send_msg, recv_msg}
use nano_ray.Transport.Exact.{stream, IsSocket, recv_exact-stream}
use nano_ray.Transport.RoundTrip.{recv_msg-send_msg}
use nano_ray.Dashboard.{DashboardMetrics, Histogram, init, to_dict, compute_histogram, no_values}
use nano_ray.Dashboard.Counts.{Event, submitted, completed, on_events}
use nano_ray.Dashboard.Recent.{Newest, Completion, completions}
use nano_ray.Dashboard.Shown.{rounded, duration_of, Counts, to_dict-shown}
use nano_ray.Tests.Data.{ticks}

-- Objects are their own pickles here.
abbrev same : Bytes → Bytes
same bs = bs

abbrev same_again : (bs : Bytes) → same (same bs) ≡ bs
same_again bs = refl

-- The message 7, 8 with a header, and the first byte of the next one.
abbrev pieces : Socket
pieces = (0 ∷ 0 ∷ 0 ∷ []) ∷ (2 ∷ 7 ∷ []) ∷ (8 ∷ 9 ∷ []) ∷ []

pieces-IsSocket : IsSocket pieces
pieces-IsSocket = (
  (λ e. absurd (ground arith)),
  ((λ e. absurd (ground arith)), ((λ e. absurd (ground arith)), tt)),
)

sent : send_msg same same (7 ∷ 8 ∷ []) ≡ some (0 ∷ 0 ∷ 0 ∷ 2 ∷ 7 ∷ 8 ∷ [])
unfolding send_msg pack
sent = refl

recv_exact-stream_example :
    (s' : Socket) × (recv_exact (length {A = ℕ} (0 ∷ 0 ∷ 0 ∷ 2 ∷ [])) pieces
      ≡ (some (0 ∷ 0 ∷ 0 ∷ 2 ∷ []), s'))
    × IsSocket s'
    × (stream s' ≡ 7 ∷ 8 ∷ 9 ∷ [])
recv_exact-stream_example =
    recv_exact-stream (0 ∷ 0 ∷ 0 ∷ 2 ∷ []) (7 ∷ 8 ∷ 9 ∷ []) pieces pieces-IsSocket refl

recv_msg-send_msg_example :
    (s' : Socket) × (recv_msg same same pieces ≡ (message (7 ∷ 8 ∷ []), s'))
    × IsSocket s'
    × (stream s' ≡ 9 ∷ [])
recv_msg-send_msg_example =
    recv_msg-send_msg same same same_again (7 ∷ 8 ∷ []) (0 ∷ 0 ∷ 0 ∷ 2 ∷ 7 ∷ 8 ∷ []) (9 ∷ []) pieces
      sent pieces-IsSocket refl

abbrev events : List (Event ticks)
events = submitted 6 0 ∷ submitted 6 2 ∷ completed 9 9 0 ∷ []

abbrev after_events : DashboardMetrics ticks
after_events = on_events ticks (init ticks 5) events

to_dict-shown_example :
    Newest 100 (completions ticks (init ticks 5) events) after_events.recent_completions
    × ((to_dict ticks 9 after_events).pending_tasks ≡ 0)
    × ((shown : List (Completion ticks)) × Newest 20 after_events.recent_completions shown
        × ((to_dict ticks 9 after_events).recent_completions ≡ map (rounded ticks) shown))
    × ((counted : List (Completion ticks)) × Newest 50 after_events.recent_completions counted
        × Counts ticks (map (duration_of ticks) counted) (to_dict ticks 9 after_events).histogram)
to_dict-shown_example = to_dict-shown ticks 5 9 events

abbrev buckets : Histogram
buckets = record no_values { from_1_to_5ms = 1; over_100ms = 1 }

counted : compute_histogram ticks (3 ∷ 200 ∷ []) ≡ some buckets
unfolding compute_histogram
counted = refl
