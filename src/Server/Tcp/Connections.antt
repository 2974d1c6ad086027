-- ===== src/Server/Tcp/Connections.antt =====
-- `TimeoutStream` and `Listen` of sqelf/src/server/tcp.rs: the connections that are open, and what
-- polling them does. What tokio's timeout makes of a poll, and which connection is ready, are choices
-- of the environment.
pub mod Counted
pub mod Polled
pub mod Bounded
use seq_input_gelf.Common.{ℕ, ◌+◌, ◌<◌, ◌≡◌, List, [], ◌∷◌, ◌++◌, Option, none, some, length}
use seq_input_gelf.Diagnostics.{increment}
use seq_input_gelf.Receive.Outcome.{Error}
use seq_input_gelf.Server.Metrics.{Metrics}

abbrev pub count_accept : Metrics → Metrics
count_accept m = record m { tcp_conn_accept = increment m.min_level m.tcp_conn_accept }

abbrev pub count_close : Metrics → Metrics
count_close m = record m { tcp_conn_close = increment m.min_level m.tcp_conn_close }

abbrev pub count_timeout : Metrics → Metrics
count_timeout m = record m { tcp_conn_timeout = increment m.min_level m.tcp_conn_timeout }

abbrev pub count_receive_err : Metrics → Metrics
count_receive_err m = record m { receive_err = increment m.min_level m.receive_err }

-- A stream of frames with the time at which its timeout elapses.
pub record TimeoutStream (S : Type 0) : Type 0 where
  pub keep_alive : ℕ
  pub deadline : ℕ
  pub stream : S

-- `Result<T, Error>`, the items of a connection.
pub data Item (T : Type 0) : Type 0 where
  valid : T → Item T
  failed : Error → Item T

pub data Poll (A : Type 0) : Type 0 where
  ready : A → Poll A
  pending : Poll A

-- What `Timeout<StreamFuture<S>>` gives: its time has elapsed, or the stream gave an item or its end
-- and is given back, or neither.
pub data Timeout (S T : Type 0) : Type 0 where
  elapsed : Timeout S T
  produced : Option (Item T) → S → Timeout S T
  waiting : Timeout S T

module _ {S : Type 0} where
  -- `TimeoutStream::new` at a time.
  unfoldable pub new : ℕ → ℕ → S → Metrics → TimeoutStream S × Metrics
  new now keep_alive stream m = (
    record { keep_alive = keep_alive; deadline = now + keep_alive; stream = stream },
    count_accept m,
  )

module _ {S T : Type 0} where
  -- `TimeoutStream::poll_next`.
  unfoldable pub poll_next :
      ℕ
      → Timeout S T
      → TimeoutStream S
      → Metrics
      → Poll (Option (Item T)) × (TimeoutStream S × Metrics)
  poll_next now elapsed t m = (ready none, (t, count_timeout m))
  poll_next now (produced item stream) t m =
      (ready item, (record t { deadline = now + t.keep_alive; stream = stream }, m))
  poll_next now waiting t m = (pending, (t, m))

-- `Listen`: `connections` is the unordered set of futures.
pub record Listen (S : Type 0) : Type 0 where
  pub connections : List (TimeoutStream S)
  pub max : ℕ
  pub keep_alive : ℕ
  pub metrics : Metrics

module _ {S : Type 0} where
  -- A turn of `'fill_conns`: a connection is accepted.
  unfoldable pub fill : ℕ → S → Listen S → Listen S
  unfolding new
  fill now stream l =
      let (t, m) = new now l.keep_alive stream l.metrics in
      record l { connections = t ∷ l.connections; metrics = m }

module _ {S T : Type 0} where
  -- What `'poll_conns` does with a connection taken out of the set: one with an item is put back and
  -- the item returned; one that failed or ended is dropped.
  unfoldable pub settle :
      Poll (Option (Item T)) × (TimeoutStream S × Metrics) → Listen S → Listen S × Option T
  settle (pending, (t, m)) l = (record l { connections = t ∷ l.connections; metrics = m }, none)
  settle (ready (some (valid item)), (t, m)) l =
      (record l { connections = t ∷ l.connections; metrics = m }, some item)
  settle (ready (some (failed e)), (t, m)) l =
      (record l { metrics = count_close (count_receive_err m) }, none)
  settle (ready none, (t, m)) l = (record l { metrics = count_close m }, none)

  -- A poll of the connection `t`, the others being those of `l`.
  unfoldable pub poll_conn : ℕ → Timeout S T → TimeoutStream S → Listen S → Listen S × Option T
  unfolding poll_next settle
  poll_conn now outcome t l = settle (poll_next now outcome t l.metrics) l

-- `StreamListenExt::listen`, for streams with a timeout.
unfoldable pub listen : {S : Type 0} → ℕ → ℕ → Metrics → Listen S
listen keep_alive max_connections m = record {
  connections = [];
  max = max_connections;
  keep_alive = keep_alive;
  metrics = m;
}

module _ (S T : Type 0) where
  -- The steps of `Listen::poll_next`: below its maximum it may accept a connection, and any of its
  -- connections may be polled.
  pub data Step : Listen S → Listen S → Type 0 where
    accept :
        (now : ℕ) (stream : S) (l : Listen S)
        → length l.connections < l.max
        → Step l (fill now stream l)
    poll :
        (now : ℕ) (outcome : Timeout S T) (before after : List (TimeoutStream S))
        (t : TimeoutStream S)
        → (l : Listen S) → l.connections ≡ before ++ t ∷ after
        → Step l (poll_conn now outcome t (record l { connections = before ++ after })).0

  -- Any number of steps.
  pub data Steps : Listen S → Listen S → Type 0 where
    stay : (l : Listen S) → Steps l l
    next : (l l' l'' : Listen S) → Step l l' → Steps l' l'' → Steps l l''
