-- ===== src/Storage/Redis/Lifecycle.antt =====
-- RedisClient::connect and reconnect in src/storage/RedisClient.cpp.
use iot_distributed_gateway.Common.{ℕ, Bytes, Bool, true, false, ◌==◌, ◌≡◌, refl, sym, ap, ◌∙◌}
use iot_distributed_gateway.Gateway.Cluster.{has_no_bytes}
use iot_distributed_gateway.Storage.Redis.{
  RedisClient, Server, Link, Dialled, no_context, refused, connection, disconnect, connect,
  reconnect, auth, select_db, finish, proceed, connect_unless,
}
use iot_distributed_gateway.Storage.Redis.Keeps.{
  Ends, SameClient, Keeps, continue-Ends, asks-Keeps, tell-Keeps,
}

-- The client counts as connected exactly where it has a context, here as the answer says.
abbrev pub Settles : {S : Type 0} → Bool → Link S → Type 0
Settles b l = (l.client.connected ≡ b) × (l.client.conn ≡ b)

abbrev pub IsSettled : {S A : Type 0} → A → Link S → Type 0
IsSettled a l = l.client.connected ≡ l.client.conn

module _ {S : Type 0} (w : Server S) (F : Type 0) where
  auth-Keeps : (b : Bool) (password : Bytes) → Keeps F (auth w b password)
  auth-Keeps true password l h = refl
  auth-Keeps false password l h = asks-Keeps w F _ _ l h

  select_db-Keeps : (b : Bool) (db : ℕ) → Keeps F (select_db w b db)
  select_db-Keeps true db l h = refl
  select_db-Keeps false db l h = tell-Keeps w F _ l h

  finish-Settles :
      (granted : Bool) (l : Link S) → l.client.conn ≡ true → Ends F Settles (finish w granted l)
  unfolding disconnect
  finish-Settles false l h = (refl, refl)
  finish-Settles true l h =
      continue-Ends F (SameClient l.client) Settles
        (select_db w (l.client.config.db == 0) l.client.config.db l) _
        (select_db-Keeps (l.client.config.db == 0) l.client.config.db l h)
        λ a l1 e. (refl, ap (λ (c : RedisClient). c.conn) e ∙ h)

  proceed-Settles : (d : Dialled × S) (l : Link S) → Ends F Settles (proceed w d l)
  unfolding disconnect
  proceed-Settles (no_context, s) l = (refl, refl)
  proceed-Settles (refused, s) l = (refl, refl)
  proceed-Settles (connection, s) l =
      continue-Ends F (SameClient (record l.client { conn = true })) Settles _ (finish w)
        (auth-Keeps (has_no_bytes l.client.config.password) l.client.config.password _ refl)
        λ granted l1 e. finish-Settles granted l1 (ap (λ (c : RedisClient). c.conn) e)

  connect_unless-Settles :
      (b : Bool) (l : Link S)
      → l.client.connected ≡ b
      → l.client.connected ≡ l.client.conn
      → Ends F Settles (connect_unless w b l)
  connect_unless-Settles true l e h = (e, sym h ∙ e)
  connect_unless-Settles false l e h = proceed-Settles (w.dial l.server) l

  pub connect-Settles :
      (l : Link S) → l.client.connected ≡ l.client.conn → Ends F Settles (connect w l)
  unfolding connect
  connect-Settles l h = connect_unless-Settles l.client.connected l refl h

  pub reconnect-Settles : (l : Link S) → Ends F Settles (reconnect w l)
  unfolding reconnect disconnect
  reconnect-Settles l = connect-Settles (disconnect w l) refl
