-- ===== src/Storage/Redis/Keeps.antt =====
-- src/storage/RedisClient.cpp: what leaves the client's own state as it was, by the shape of a method.
use iot_distributed_gateway.Common.{
  Bytes, List, Bool, true, false, Option, none, some, ◌≡◌, refl, sym, ap, ◌∙◌, subst,
}
use iot_distributed_gateway.Storage.Redis.{
  Reply, RedisClient, Server, Link, Run, continue, ◌>>=◌, pure, asked, redis_command, tell, frees,
  pipeline, guarded, if_connected,
}
use Prim.{Unit, tt}

-- What holds of a result where there is one; `F` is what holds where the method does not return.
abbrev pub Ends : {S A : Type 0} → Type 0 → (A → Link S → Type 0) → Option (A × Link S) → Type 0
Ends F P none = F
Ends F P (some (a, l)) = P a l

abbrev pub SameClient : {S A : Type 0} → RedisClient → A → Link S → Type 0
SameClient c a l = l.client ≡ c

-- On a client with a context the method returns, or `F` holds, and the client is as it was.
abbrev pub Keeps : {S A : Type 0} → Type 0 → Run S A → Type 0
Keeps F m = (l : Link _) → l.client.conn ≡ true → Ends F (SameClient l.client) (m l)

pub continue-Ends :
    {S A B : Type 0} (F : Type 0) (P : A → Link S → Type 0) (Q : B → Link S → Type 0)
    (o : Option (A × Link S)) (f : A → Run S B)
    → Ends F P o
    → ((a : A) (l : Link S) → P a l → Ends F Q (f a l))
    → Ends F Q (continue o f)
continue-Ends F P Q none f h k = h
continue-Ends F P Q (some (a, l)) f h k = k a l h

module _ {S : Type 0} (F : Type 0) where
  pub >>=-Keeps :
      {A B : Type 0} (m : Run S A) (f : A → Run S B)
      → Keeps F m
      → ((a : A) → Keeps F (f a))
      → Keeps F (m >>= f)
  >>=-Keeps m f km kf l h =
      continue-Ends F (SameClient l.client) (SameClient l.client) (m l) f (km l h) λ a l1 e.
        subst (λ (c : RedisClient). Ends F (SameClient c) (f a l1)) e
          (kf a l1 (ap (λ (c : RedisClient). c.conn) e ∙ h))

  pub pure-Keeps : {A : Type 0} (a : A) → Keeps F (pure {S = S} a)
  pure-Keeps a l h = refl

module _ {S : Type 0} (w : Server S) (F : Type 0) where
  asked-Keeps :
      (b : Bool) (words : List Bytes) (l : Link S)
      → b ≡ true
      → Ends F (SameClient l.client) (asked w b words l)
  asked-Keeps true words l h = refl
  asked-Keeps false words l h = absurd (cc)

  pub redis_command-Keeps : (words : List Bytes) → Keeps F (redis_command w words)
  redis_command-Keeps words l h = asked-Keeps l.client.conn words l h

  guarded-Keeps :
      {A : Type 0} (b : Bool) (a : A) (m : Run S A) (l : Link S)
      → Keeps F m
      → b ≡ l.client.conn
      → Ends F (SameClient l.client) (guarded w b a m l)
  guarded-Keeps true a m l k h = k l (sym h)
  guarded-Keeps false a m l k h = refl

  -- Behind the guard a client that counts as connected has a context.
  pub if_connected-Keeps :
      {A : Type 0} (a : A) (m : Run S A)
      → Keeps F m
      → (l : Link S) → l.client.connected ≡ l.client.conn
      → Ends F (SameClient l.client) (if_connected w a m l)
  if_connected-Keeps a m k l h = guarded-Keeps l.client.connected a m l k h

  -- A method that reads one answer.
  pub asks-Keeps :
      {A : Type 0} (words : List Bytes) (f : Option Reply → A)
      → Keeps F (redis_command w words >>= λ r. pure (f r))
  asks-Keeps words f = >>=-Keeps F _ _ (redis_command-Keeps words) (λ r. pure-Keeps F (f r))

  pub tell-Keeps : (words : List Bytes) → Keeps F (tell w words)
  tell-Keeps words = asks-Keeps words (λ r. tt)

module _ {S : Type 0} (w : Server S) where
  frees-Keeps : (a b : Option Reply) → Keeps (Unit {0}) (frees w a b)
  frees-Keeps (some a) none l h = tt
  frees-Keeps (some a) (some b) l h = refl
  frees-Keeps none b l h = refl

  pub pipeline-Keeps : (first second : List Bytes) → Keeps (Unit {0}) (pipeline w first second)
  pipeline-Keeps first second =
      >>=-Keeps (Unit {0}) (redis_command w first) (λ a. redis_command w second >>= frees w a)
        (redis_command-Keeps w (Unit {0}) first)
        λ a.
          >>=-Keeps (Unit {0}) (redis_command w second) (frees w a)
            (redis_command-Keeps w (Unit {0}) second) (frees-Keeps a)
