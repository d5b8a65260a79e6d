-- ===== src/Client.antt =====
-- The client of a cluster: the class `RemoteRuntime` of python/nano_ray/remote_runtime.py. A request
-- goes to the head (Head.dispatch), which answers it, or never does where the handler waits for an
-- object that does not come.
pub mod Agreement
use Prim.Native.String.{String}
use nano_ray.Prelude.{ℕ, ◌+◌, Option, none, some, Bool, true, false}
use nano_ray.Answers.{Answer, done, failed, other_error, ◌>>=◌, or_blocked}
use nano_ray.Values.{Value, Items, Fields, Func}
use nano_ray.Worker.{Platform}
use nano_ray.Dashboard.{Clock}
use nano_ray.Head.{
  Head, Request, submits, get_object as asks_object, contains_object as asks_contains, Response,
  object_id, value, contains, dispatch,
}
use nano_ray.Driver.Recovery.{checked}

pub record RemoteRuntime : Type 0 where
  pub host : String
  pub port : ℕ
  pub connected : Bool
  pub next_id : ℕ

-- `__init__`, with the two parts of the address.
unfoldable pub init : String → ℕ → RemoteRuntime
init host port = record { host = host; port = port; connected = false; next_id = 0 }

-- For the ids of actors alone.
unfoldable pub next_unique_id : RemoteRuntime → ℕ × RemoteRuntime
next_unique_id r = (r.next_id, record r { next_id = r.next_id + 1 })

-- `start`, where the head accepts the connection.
unfoldable pub start : RemoteRuntime → RemoteRuntime
start r = record r { connected = true }

unfoldable pub shutdown : RemoteRuntime → RemoteRuntime
shutdown r = record r { connected = false }

module _ (p : Platform) (c : Clock) where
  -- What the answers mean. The error of a strange answer has no text here.
  unfoldable pub submit_answer : Response p c → Answer ℕ
  submit_answer (object_id o) = done o
  submit_answer _ = failed (other_error "submit_task failed")

  unfoldable pub get_answer : Response p c → Answer Value
  get_answer (value v) = checked v
  get_answer _ = failed (other_error "get_object failed")

  unfoldable pub contains_answer : Response p c → Bool
  contains_answer (contains b) = b
  contains_answer _ = false

  -- The head's clock before and after the work on a request, and the head's name for the connection.
  module _ (now after : c.Time) (conn : ℕ) where
    -- `_send_recv`; without a connection the send fails.
    unfoldable pub send_recv :
        Request p c → RemoteRuntime → Head p c → Answer (Response p c × Head p c)
    send_recv request r h = elim r.connected [
      | true ↦ or_blocked (dispatch p c now after request conn h)
      | false ↦ failed (other_error "AttributeError")
    ]

    unfoldable pub submit_task :
        Func → Items → Fields → RemoteRuntime → Head p c → Answer (ℕ × Head p c)
    unfolding send_recv submit_answer
    submit_task func args kwargs r h = do
      (response, h') ← send_recv (submits func args kwargs) r h
      o ← submit_answer response
      done (o, h')

    -- The timeout is not forwarded.
    unfoldable pub get_object : ℕ → Option ℕ → RemoteRuntime → Head p c → Answer (Value × Head p c)
    unfolding send_recv get_answer
    get_object o timeout r h = do
      (response, h') ← send_recv (asks_object o) r h
      v ← get_answer response
      done (v, h')

    -- `_contains_object`, which the proxy of the object store calls.
    unfoldable pub contains_object : ℕ → RemoteRuntime → Head p c → Answer (Bool × Head p c)
    unfolding send_recv contains_answer
    contains_object o r h = do
      (response, h') ← send_recv (asks_contains o) r h
      done (contains_answer response, h')
