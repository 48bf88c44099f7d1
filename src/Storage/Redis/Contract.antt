-- ===== src/Storage/Redis/Contract.antt =====
-- What the registry of devices relies on of Redis: HSET, HGET, HDEL and DEL on hashes, while the
-- connection and the memory hold and no other client's command comes in between.
use iot_distributed_gateway.Common.{
  Bytes, bytes_test, bytes_test_iff, List, [], ◌∷◌, true, false, ◌&&◌, Option, none, some,
  if◌then◌else◌, ◌≡◌, ◌≢◌, refl, sym, arith,
}
use iot_distributed_gateway.Common.Text.{ascii}
use Prim.{Unit, tt}
use iot_distributed_gateway.Storage.Redis.{Reply, string, integer, nil, Server, connection}

abbrev pub hget : Bytes → Bytes → List Bytes
hget key field = ascii "HGET" ∷ key ∷ field ∷ []

abbrev pub hset : Bytes → Bytes → Bytes → List Bytes
hset key field value = ascii "HSET" ∷ key ∷ field ∷ value ∷ []

abbrev pub hdel : Bytes → Bytes → List Bytes
hdel key field = ascii "HDEL" ∷ key ∷ field ∷ []

abbrev pub del : Bytes → List Bytes
del key = ascii "DEL" ∷ key ∷ []

abbrev pub reads : {S : Type 0} → Server S → Bytes → Bytes → S → Option Reply
reads w key field s = (w.answer (hget key field) s).0

abbrev pub after : {S : Type 0} → Server S → List Bytes → S → S
after w words s = (w.answer words s).1

-- `Hash key s` says that the key holds a hash or nothing, without which Redis answers WRONGTYPE. There HGET
-- answers what HSET stored last, nil after HDEL, and changes no field; other fields stay as they are, also
-- when another key is deleted; and the key goes on holding a hash or nothing.
pub record KeepsHashes {S : Type 0} (w : Server S) (Hash : Bytes → S → Type 0) : Type 0 where
  pub hget-hset :
      (key field value : Bytes) (s : S)
      → Hash key s
      → reads w key field (after w (hset key field value) s) ≡ some (string value)
  pub hget-hset_other :
      (key field other value : Bytes) (s : S)
      → Hash key s
      → field ≢ other
      → reads w key other (after w (hset key field value) s) ≡ reads w key other s
  pub hget-hdel :
      (key field : Bytes) (s : S)
      → Hash key s
      → reads w key field (after w (hdel key field) s) ≡ some nil
  pub hget-hdel_other :
      (key field other : Bytes) (s : S)
      → Hash key s
      → field ≢ other
      → reads w key other (after w (hdel key field) s) ≡ reads w key other s
  pub hget-del_other :
      (key field other : Bytes) (s : S)
      → Hash key s
      → key ≢ other
      → reads w key field (after w (del other) s) ≡ reads w key field s
  pub hget-hget :
      (key field other : Bytes) (s : S)
      → Hash key s
      → reads w key other (after w (hget key field) s) ≡ reads w key other s
  pub after-hset-Hash :
      (key field value : Bytes) (s : S) → Hash key s → Hash key (after w (hset key field value) s)
  pub after-hdel-Hash :
      (key field : Bytes) (s : S) → Hash key s → Hash key (after w (hdel key field) s)
  pub after-hget-Hash :
      (key field : Bytes) (s : S) → Hash key s → Hash key (after w (hget key field) s)
  pub after-del_other-Hash :
      (key other : Bytes) (s : S) → Hash key s → key ≢ other → Hash key (after w (del other) s)

-- A server that keeps hashes: a table of fields by key and field.
abbrev pub Table : Type 0
Table = Bytes → Bytes → Option Bytes

abbrev looked_up : Option Bytes → Reply
looked_up none = nil
looked_up (some value) = string value

abbrev pub put : Bytes → Bytes → Option Bytes → Table → Table
put key field value t k f = if bytes_test key k && bytes_test field f then value else t k f

abbrev pub drop_key : Bytes → Table → Table
drop_key key t k f = if bytes_test key k then none else t k f

abbrev table_answer : List Bytes → Table → Option Reply × Table
table_answer [] t = (some nil, t)
table_answer (name ∷ []) t = (some nil, t)
table_answer (name ∷ key ∷ []) t =
    if bytes_test name (ascii "DEL") then (some (integer 1), drop_key key t) else (some nil, t)
table_answer (name ∷ key ∷ field ∷ []) t =
    if bytes_test name (ascii "HGET")
    then (some (looked_up (t key field)), t)
    else if bytes_test name (ascii "HDEL")
    then (some (integer 1), put key field none t)
    else (some nil, t)
table_answer (name ∷ key ∷ field ∷ value ∷ rest) t =
    if bytes_test name (ascii "HSET")
    then (some (integer 1), put key field (some value) t)
    else (some nil, t)

abbrev pub table_server : Server Table
table_server = record {
  dial = λ t. (connection, t);
  answer = table_answer;
  subscribe = λ words t. t;
}

test_refl : (b : Bytes) → bytes_test b b ≡ true
test_refl b = (bytes_test_iff b b).1 refl

test_other : (a b : Bytes) → a ≢ b → bytes_test a b ≡ false
test_other a b n = ground (arith, bytes_test_iff a b)

-- Every key of the table holds a hash or nothing.
abbrev pub AllHashes : Bytes → Table → Type 0
AllHashes key t = Unit {0}

pub table_server-KeepsHashes : KeepsHashes table_server AllHashes
table_server-KeepsHashes = record {
  hget-hset = λ key field value s h. rw (test_refl key, test_refl field) refl;
  hget-hset_other =
      λ key field other value s h n. rw (test_refl key, test_other field other n) refl;
  hget-hdel = λ key field s h. rw (test_refl key, test_refl field) refl;
  hget-hdel_other = λ key field other s h n. rw (test_refl key, test_other field other n) refl;
  hget-del_other = λ key field other s h n. rw (test_other other key (λ e. n (sym e))) refl;
  hget-hget = λ key field other s h. refl;
  after-hset-Hash = λ key field value s h. tt;
  after-hdel-Hash = λ key field s h. tt;
  after-hget-Hash = λ key field s h. tt;
  after-del_other-Hash = λ key other s h n. tt;
}
