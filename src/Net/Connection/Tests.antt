-- ===== src/Net/Connection/Tests.antt =====
-- Connections at work, for the theorems about them.
use iot_distributed_gateway.Common.{
  ◌≡◌, ◌≢◌, refl, [], ◌∷◌, ◌++◌, true, false, inl, inr, arith, ◌&&◌, ◌==◌,
}
use iot_distributed_gateway.Net.Buffer.{Buffer, view, readable_bytes, append, IsValid, initial_size}
use iot_distributed_gateway.Net.Buffer.Space.{append-IsValid, new-IsValid}
use iot_distributed_gateway.Net.Buffer.Slices.{slice, write}
use iot_distributed_gateway.Net.Buffer
use iot_distributed_gateway.Net.Connection.{
  Connection, connected, disconnected, disconnecting, took, send_in_loop, shutdown, is_connected,
}
use iot_distributed_gateway.Net.Connection.Stream.{Accepts, Run, done, sends, Run-stream}
use iot_distributed_gateway.Net.Connection.Lifecycle.{
  Inv, Method, perform, perform-Inv, shutdown-fin, shuts_write,
}

-- A connection that is up, with nothing to send.
abbrev open_connection : Connection
open_connection = record {
  state = connected;
  channel = record { reading = true; writing = false; tied = true; added = true };
  input_buffer = Buffer.new initial_size;
  output_buffer = Buffer.new initial_size;
  high_water_mark = 4;
  has_connection_cb = true;
  has_message_cb = true;
  has_write_complete_cb = true;
  has_high_water_cb = true;
  has_close_cb = true;
}

-- The same, with three bytes that wait.
abbrev busy_connection : Connection
busy_connection = record open_connection {
  channel = record { reading = true; writing = true; tied = true; added = true };
  output_buffer = append (1 ∷ 2 ∷ 3 ∷ []) (Buffer.new initial_size);
}

busy-IsValid : IsValid (append (1 ∷ 2 ∷ 3 ∷ []) (Buffer.new initial_size))
busy-IsValid = append-IsValid (1 ∷ 2 ∷ 3 ∷ []) (Buffer.new initial_size) (new-IsValid initial_size)

is_up : connected ≢ disconnected
is_up = ground arith

-- Five bytes are handed in, of which the socket takes two at once.
five_bytes :
    Run open_connection
      (1 ∷ 2 ∷ 3 ∷ 4 ∷ 5 ∷ [])
      (1 ∷ 2 ∷ [])
      (send_in_loop (took 2) (1 ∷ 2 ∷ 3 ∷ 4 ∷ 5 ∷ []) open_connection).0
unfolding send_in_loop Buffer.new
five_bytes =
    sends (took 2) (1 ∷ 2 ∷ 3 ∷ 4 ∷ 5 ∷ []) open_connection _ [] [] is_up (omega arith) (done _)

Run-stream_example :
    (1 ∷ 2 ∷ [])
      ++ view (send_in_loop (took 2) (1 ∷ 2 ∷ 3 ∷ 4 ∷ 5 ∷ []) open_connection).0.output_buffer
    ≡ view (Buffer.new initial_size) ++ (1 ∷ 2 ∷ 3 ∷ 4 ∷ 5 ∷ [])
Run-stream_example = Run-stream five_bytes (new-IsValid initial_size)

two_waiting : Accepts (took 2) (view busy_connection.output_buffer)
unfolding append Buffer.new view slice Buffer.ensure_writable_bytes write
two_waiting = omega arith

busy-Inv : Inv busy_connection
unfolding append Buffer.new Buffer.ensure_writable_bytes
busy-Inv = record {
  input_valid = new-IsValid initial_size;
  output_valid = busy-IsValid;
  waits = inr refl;
  quiet = inl refl;
}

abbrev half_closed : Connection
half_closed = record busy_connection { state = disconnecting }

perform-Inv_example : Inv half_closed
unfolding perform shutdown
perform-Inv_example =
    perform-Inv (Method.shuts_down true) busy_connection (half_closed, []) busy-Inv refl

shutdown-fin_example :
    shuts_write (shutdown true busy_connection).1
    ≡ true && (is_connected connected && readable_bytes busy_connection.output_buffer == 0)
shutdown-fin_example = shutdown-fin true busy_connection busy-Inv

abbrev closed : Connection
closed = record busy_connection {
  state = disconnected;
  channel = record { reading = false; writing = false; tied = true; added = true };
}
