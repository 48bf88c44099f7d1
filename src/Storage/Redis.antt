-- ===== src/Storage/Redis.antt =====
-- src/storage/RedisClient.h and src/storage/RedisClient.cpp: the connections, and how a method asks Redis.
-- hiredis and the server behind it are a value of `Server`: what a connection attempt comes to, and what
-- is answered to the words that a format of redisCommand stands for; `subscribe` is a command on the
-- other connection, whose answer is not read. A text that a
-- format takes by %s is cut at its first NUL byte, `c_str`. `none` is a method that does not return: a
-- crash or an exception.
pub mod Streams
pub mod Status
pub mod Registry
pub mod Nodes
pub mod Contract
pub mod Entries
pub mod Shared
pub mod Routing
pub mod Delivery
pub mod Keeps
pub mod Lifecycle
pub mod Methods
mod Tests
use iot_distributed_gateway.Common.{
  ℕ, ◌==◌, ◌&&◌, Bytes, List, [], ◌∷◌, Bool, true, false, Option, none, some, ltb, leb,
}
use iot_distributed_gateway.Common.CString.{c_str}
use iot_distributed_gateway.Common.Text.{ascii}
use iot_distributed_gateway.Common.Decimal.{int32_half, int64_half, signed_string}
use iot_distributed_gateway.Gateway.Cluster.{has_no_bytes}
use Prim.{Unit, tt}

pub record RedisConfig : Type 0 where
  pub password : Bytes
  pub db : ℕ
  pub stream_key : Bytes
  pub consumer_group : Bytes
  pub consumer_name : Bytes

mutual
  pub data Reply : Type 0 where
    string : Bytes → Reply
    status : Bytes → Reply
    error : Bytes → Reply
    integer : ℕ → Reply
    nil : Reply
    array : Replies → Reply

  pub data Replies : Type 0 where
    end : Replies
    element : Reply → Replies → Replies

-- What redisConnectWithTimeout returns: no context, one with its error set, or a connection.
pub data Dialled : Type 0 where
  no_context refused connection : Dialled

pub record Server (S : Type 0) : Type 0 where
  pub dial : S → Dialled × S
  pub answer : List Bytes → S → Option Reply × S
  pub subscribe : List Bytes → S → S

-- `conn` and `sub_conn` say that the context is not null.
pub record RedisClient : Type 0 where
  pub config : RedisConfig
  pub connected : Bool
  pub conn : Bool
  pub sub_conn : Bool
  pub sub_active : Bool
  pub has_route_callback : Bool

pub record Link (S : Type 0) : Type 0 where
  pub client : RedisClient
  pub server : S

abbrev pub Run : Type 0 → Type 0 → Type 0
Run S A = Link S → Option (A × Link S)

abbrev pub continue : {S A B : Type 0} → Option (A × Link S) → (A → Run S B) → Option (B × Link S)
continue none f = none
continue (some (a, l)) f = f a l

infixl 5 ◌>>=◌ ◌>>◌
abbrev pub ◌>>=◌ : {S A B : Type 0} → Run S A → (A → Run S B) → Run S B
◌>>=◌ m f l = continue (m l) f

abbrev pub ◌>>◌ : {S B : Type 0} → Run S (Unit {0}) → Run S B → Run S B
m >> k = m >>= λ _. k

abbrev pub pure : {S A : Type 0} → A → Run S A
pure a l = some (a, l)

unfoldable pub create : RedisConfig → RedisClient
create config = record {
  config = config;
  connected = false;
  conn = false;
  sub_conn = false;
  sub_active = false;
  has_route_callback = false;
}

unfoldable pub set_consumer_name : Bytes → RedisClient → RedisClient
set_consumer_name name c = record c { config = record c.config { consumer_name = name } }

-- The text of a reply; a kind that has none leaves the pointer null and the length 0.
abbrev pub text_of : Reply → Bytes
text_of (string b) = b
text_of (status b) = b
text_of (error b) = b
text_of (integer n) = []
text_of nil = []
text_of (array rs) = []

abbrev pub elements : Reply → Replies
elements (array rs) = rs
elements (string b) = end
elements (status b) = end
elements (error b) = end
elements (integer n) = end
elements nil = end

abbrev pub count_of : Replies → ℕ
count_of end = 0
count_of (element r rs) = ℕ.suc (count_of rs)

-- The text of a string reply, and nothing for any other answer.
abbrev pub string_or_empty : Option Reply → Bytes
string_or_empty none = []
string_or_empty (some (string b)) = b
string_or_empty (some (status b)) = []
string_or_empty (some (error b)) = []
string_or_empty (some (integer n)) = []
string_or_empty (some nil) = []
string_or_empty (some (array rs)) = []

abbrev pub integer_or_zero : Option Reply → ℕ
integer_or_zero none = 0
integer_or_zero (some (integer n)) = n
integer_or_zero (some (string b)) = 0
integer_or_zero (some (status b)) = 0
integer_or_zero (some (error b)) = 0
integer_or_zero (some nil) = 0
integer_or_zero (some (array rs)) = 0

abbrev pub array_or_empty : Option Reply → Replies
array_or_empty none = end
array_or_empty (some r) = elements r

abbrev pub is_error : Option Reply → Bool
is_error none = true
is_error (some (error b)) = true
is_error (some (string b)) = false
is_error (some (status b)) = false
is_error (some (integer n)) = false
is_error (some nil) = false
is_error (some (array rs)) = false

-- `> 0` on an int64_t.
abbrev pub is_positive : ℕ → Bool
is_positive n = ltb 0 n && ltb n int64_half

-- %lld and %d.
abbrev pub lld : ℕ → Bytes
lld = signed_string int64_half

abbrev pub int : ℕ → Bytes
int = signed_string int32_half

abbrev pub either : {A : Type 0} → Bool → A → A → A
either true a b = a
either false a b = b

module _ {S : Type 0} (w : Server S) where
  abbrev pub asked : Bool → List Bytes → Run S (Option Reply)
  asked false words l = none
  asked true words l =
      let answered = w.answer words l.server in some (answered.0, record l { server = answered.1 })

  -- redisCommand on the main connection; a null context is read all the same.
  abbrev pub redis_command : List Bytes → Run S (Option Reply)
  redis_command words l = asked l.client.conn words l

  -- A command whose answer is freed unread.
  abbrev pub tell : List Bytes → Run S (Unit {0})
  tell words = do _ ← redis_command words; pure tt

  abbrev pub frees : Option Reply → Option Reply → Run S (Unit {0})
  frees (some a) none l = none
  frees (some a) (some b) l = some (tt, l)
  frees none r l = some (tt, l)

  -- Two redisAppendCommand and two redisGetReply. A redisGetReply that fails leaves the pointer as it was,
  -- so that an answer before it is freed twice.
  abbrev pub pipeline : List Bytes → List Bytes → Run S (Unit {0})
  pipeline first second = do a ← redis_command first; b ← redis_command second; frees a b

  abbrev pub guarded : {A : Type 0} → Bool → A → Run S A → Run S A
  guarded true answer m l = m l
  guarded false answer m l = some (answer, l)

  -- The guard at the head of most methods.
  abbrev pub if_connected : {A : Type 0} → A → Run S A → Run S A
  if_connected answer m l = guarded l.client.connected answer m l

  unfoldable pub disconnect : Link S → Link S
  disconnect l = record l {
    client = record l.client {
      connected = false;
      conn = false;
      sub_conn = false;
      sub_active = false;
    };
  }

  abbrev pub auth : Bool → Bytes → Run S Bool
  auth true password = pure true
  auth false password = do
    reply ← redis_command (ascii "AUTH" ∷ c_str password ∷ [])
    pure (either (is_error reply) false true)

  abbrev pub select_db : Bool → ℕ → Run S (Unit {0})
  select_db true db = pure tt
  select_db false db = tell (ascii "SELECT" ∷ int db ∷ [])

  abbrev has_context : Dialled → Bool
  has_context no_context = false
  has_context refused = true
  has_context connection = true

  abbrev pub dial_subscriptions : Run S (Unit {0})
  dial_subscriptions l =
      let dialled = w.dial l.server in
      some (
        tt,
        record {
          client = record l.client { sub_conn = has_context dialled.0 };
          server = dialled.1;
        },
      )

  abbrev pub set_connected : Run S Bool
  set_connected l = some (true, record l { client = record l.client { connected = true } })

  abbrev pub finish : Bool → Run S Bool
  finish false l = some (false, disconnect l)
  finish true l =
      (do select_db (l.client.config.db == 0) l.client.config.db; dial_subscriptions; set_connected)
        l

  abbrev pub proceed : Dialled × S → Run S Bool
  proceed (no_context, s) l = some (false, disconnect (record l { server = s }))
  proceed (refused, s) l = some (false, disconnect (record l { server = s }))
  proceed (connection, s) l =
      (do
        granted ← auth (has_no_bytes l.client.config.password) l.client.config.password
        finish granted)
        (record { client = record l.client { conn = true }; server = s })

  abbrev pub connect_unless : Bool → Run S Bool
  connect_unless true l = some (true, l)
  connect_unless false l = proceed (w.dial l.server) l

  unfoldable pub connect : Run S Bool
  unfolding disconnect
  connect l = connect_unless l.client.connected l

  unfoldable pub reconnect : Run S Bool
  unfolding connect disconnect
  reconnect l = connect (disconnect l)
