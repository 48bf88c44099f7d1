-- ===== src/Net/Connection.antt =====
-- src/net/TcpConnection.h and src/net/TcpConnection.cpp: one connection, in its loop's thread. What a method
-- does to the world is a list of effects, and what a system call answers is an argument. `none` is
-- the abort of an assert that fails.
pub mod Stream
pub mod Lifecycle
mod Tests
use iot_distributed_gateway.Common.{
  ℕ, zero, suc, ◌+◌, ◌*◌, ◌≤◌, Bytes, List, [], ◌∷◌, ◌++◌, Bool, true, false, not, ◌&&◌, ◌||◌,
  Option, none, some, ltb, leb, ◌==◌, if◌then◌else◌, length, take, drop, ◌>>=◌,
}
use iot_distributed_gateway.Net.Buffer.{
  Buffer, view, readable_bytes, retrieve, retrieve_all, append,
}
use iot_distributed_gateway.Net.Buffer.Read.{ReadOutcome, got, failed, read_fd}
use iot_distributed_gateway.Net.Buffer
use iot_distributed_gateway.Net.Channel.{
  Channel, enable_reading, enable_writing, disable_writing, disable_all, is_none_event, set_tie,
  forget,
}
use iot_distributed_gateway.Net.Channel

pub data State : Type 0 where
  connecting connected disconnecting disconnected : State

pub record Connection : Type 0 where
  pub state : State
  pub channel : Channel
  pub input_buffer : Buffer
  pub output_buffer : Buffer
  pub high_water_mark : ℕ
  pub has_connection_cb : Bool
  pub has_message_cb : Bool
  pub has_write_complete_cb : Bool
  pub has_high_water_cb : Bool
  pub has_close_cb : Bool

-- A closure that is queued in the loop.
pub data Task : Type 0 where
  send_task : Bytes → Task
  shutdown_task force_close_task write_complete_task : Task
  high_water_task : ℕ → Task

pub data Effect : Type 0 where
  wrote : Bytes → Effect
  shut_write update_channel remove_channel : Effect
  connection_cb message_cb close_cb : Effect
  queued : Task → Effect

pub data Errno : Type 0 where
  eagain epipe econnreset other_error : Errno

-- What ::write answers: how many bytes it took, or an errno.
pub data WriteOutcome : Type 0 where
  took : ℕ → WriteOutcome
  refused : Errno → WriteOutcome

abbrev pub Step : Type 0
Step = Connection × List Effect

unfoldable pub new : Connection
new = record {
  state = connecting;
  channel = Channel.new;
  input_buffer = Buffer.new Buffer.initial_size;
  output_buffer = Buffer.new Buffer.initial_size;
  high_water_mark = 64 * 1024 * 1024;
  has_connection_cb = false;
  has_message_cb = false;
  has_write_complete_cb = false;
  has_high_water_cb = false;
  has_close_cb = false;
}

abbrev pub is_connected : State → Bool
is_connected connected = true
is_connected _ = false

abbrev pub is_open : State → Bool
is_open connected = true
is_open disconnecting = true
is_open _ = false

abbrev pub is_connecting : State → Bool
is_connecting connecting = true
is_connecting _ = false

abbrev pub is_disconnecting : State → Bool
is_disconnecting disconnecting = true
is_disconnecting _ = false

abbrev pub is_disconnected : State → Bool
is_disconnected disconnected = true
is_disconnected _ = false

abbrev pub when {ℓ} : {A : Type ℓ} → Bool → A → List A
when test e = if test then e ∷ [] else []

unfoldable pub connect_established : Connection → Option Step
connect_established c =
    if is_connecting c.state
    then some (
      record c { state = connected; channel = enable_reading (set_tie c.channel) },
      update_channel ∷ when c.has_connection_cb connection_cb,
    )
    else none

-- Channel::remove asserts that no event is waited for.
abbrev pub remove : Step → Option Step
remove (c, es) =
    if is_none_event c.channel
    then some (record c { channel = forget c.channel }, es ++ (remove_channel ∷ []))
    else none

unfoldable pub connect_destroyed : Connection → Option Step
connect_destroyed c =
    if is_connected c.state
    then remove (
      record c { state = disconnected; channel = disable_all c.channel },
      update_channel ∷ when c.has_connection_cb connection_cb,
    )
    else remove (c, [])

unfoldable pub handle_close : Connection → Option Step
handle_close c =
    if is_open c.state
    then some (
      record c { state = disconnected; channel = disable_all c.channel },
      update_channel ∷ (when c.has_connection_cb connection_cb ++ when c.has_close_cb close_cb),
    )
    else none

-- handleError only reads SO_ERROR and logs it.
unfoldable pub handle_read : ReadOutcome → Connection → Option Step
unfolding handle_close
handle_read (got []) c = handle_close c
handle_read (got (x ∷ xs)) c = some (
  record c { input_buffer = (read_fd (got (x ∷ xs)) c.input_buffer).0 },
  when c.has_message_cb message_cb,
)
handle_read (failed err) c = some (c, [])

unfoldable pub shutdown_in_loop : Connection → List Effect
shutdown_in_loop c = when (not c.channel.writing) shut_write

-- handleWrite after ::write took bytes that left the output buffer.
abbrev pub drained : Connection → List Effect → Step
drained c es =
    if readable_bytes c.output_buffer == 0
    then ((let c' : Connection = record c { channel = disable_writing c.channel } in
        (
          c',
          es
              ++ (update_channel
                  ∷ (when c.has_write_complete_cb (queued write_complete_task)
                      ++ (if is_disconnecting c.state then shutdown_in_loop c' else []))),
        )))
    else (c, es)

unfoldable pub handle_write : WriteOutcome → Connection → Option Step
unfolding shutdown_in_loop
handle_write (refused e) c = some (c, [])
handle_write (took n) c =
    if not c.channel.writing || n == 0
    then some (c, [])
    else (retrieve n c.output_buffer >>= λ out.
        some
          (drained (record c { output_buffer = out }) (wrote (take n (view c.output_buffer)) ∷ [])))

-- The second half of sendInLoop: what was not written is buffered.
unfoldable pub buffer_rest : Bytes → Connection → Step
buffer_rest rest c =
    let old_len = readable_bytes c.output_buffer in
    let total = old_len + length rest in
    (
      record c {
        output_buffer = append rest c.output_buffer;
        channel = if c.channel.writing then c.channel else enable_writing c.channel;
      },
      when (leb c.high_water_mark total && (ltb old_len c.high_water_mark && c.has_high_water_cb))
            (queued (high_water_task total))
          ++ when (not c.channel.writing) update_channel,
    )

abbrev pub is_fault : Errno → Bool
is_fault epipe = true
is_fault econnreset = true
is_fault _ = false

abbrev pub also : List Effect → Step → Step
also es (c, fs) = (c, es ++ fs)

-- `if (!fault && remaining > 0)`
abbrev pub rest_of : Bytes → Connection → Step
rest_of [] c = (c, [])
rest_of (x ∷ xs) c = buffer_rest (x ∷ xs) c

-- The direct write, where nothing waits.
abbrev pub write_now : WriteOutcome → Bytes → Connection → Step
write_now (took n) bytes c =
    also
      (wrote (take n bytes)
        ∷ when (leb (length bytes) n && c.has_write_complete_cb) (queued write_complete_task))
      (rest_of (drop n bytes) c)
write_now (refused e) bytes c = if is_fault e then (c, []) else rest_of bytes c

unfoldable pub send_in_loop : WriteOutcome → Bytes → Connection → Step
unfolding buffer_rest
send_in_loop o bytes c =
    if is_disconnected c.state
    then (c, [])
    else if not c.channel.writing && readable_bytes c.output_buffer == 0
    then write_now o bytes c
    else rest_of bytes c

-- send(const std::string&) and send(const void*, size_t); `here` is isInLoopThread().
unfoldable pub send : Bool → WriteOutcome → Bytes → Connection → Step
send here o bytes c =
    if is_connected c.state
    then (if here then send_in_loop o bytes c else (c, queued (send_task bytes) ∷ []))
    else (c, [])

-- send(Buffer*) also empties the buffer.
unfoldable pub send_buffer : Bool → WriteOutcome → Buffer → Connection → Buffer × Step
send_buffer here o buf c =
    if is_connected c.state
    then (
      retrieve_all buf,
      (if here then send_in_loop o (view buf) c else (c, queued (send_task (view buf)) ∷ [])),
    )
    else (buf, (c, []))

unfoldable pub shutdown : Bool → Connection → Step
unfolding shutdown_in_loop
shutdown here c =
    if is_connected c.state
    then (let c' : Connection = record c { state = disconnecting } in
        (c', (if here then shutdown_in_loop c' else queued shutdown_task ∷ [])))
    else (c, [])

unfoldable pub force_close : Connection → Step
force_close c =
    if is_open c.state
    then (record c { state = disconnecting }, queued force_close_task ∷ [])
    else (c, [])

unfoldable pub force_close_in_loop : Connection → Option Step
unfolding handle_close
force_close_in_loop c = if is_open c.state then handle_close c else some (c, [])
