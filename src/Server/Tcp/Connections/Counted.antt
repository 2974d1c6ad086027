-- ===== src/Server/Tcp/Connections/Counted.antt =====
-- How many connections `Listen` of sqelf/src/server/tcp.rs keeps, and what it counts.
use seq_input_gelf.Common.{
  ℕ, ◌+◌, ◌%◌, ◌≤◌, ◌<◌, ◌≡◌, ap, ◌∙◌, true, List, ◌∷◌, ◌++◌, none, some, arith, length,
  length-append,
}
use seq_input_gelf.Diagnostics.{Level, includes, usize_mod}
use seq_input_gelf.Diagnostics.Counting.{increment_counting}
use seq_input_gelf.Server.Metrics.{Metrics}
use seq_input_gelf.Server.Tcp.Connections.{
  listen, TimeoutStream, valid, failed, Timeout, elapsed, produced, waiting, Listen, fill, settle,
  poll_next, poll_conn, new, Step, accept, poll, Steps, stay, next, count_close, count_timeout,
  count_receive_err,
}

-- The connections are at most the maximum, and, where metrics are counted, they are those that were
-- accepted and not yet closed, up to the counters' wrap.
pub record Inv {S : Type 0} (l : Listen S) : Type 0 where
  pub bounded : length l.connections ≤ l.max
  pub counting : includes l.metrics.min_level Level.debug ≡ true
  pub balanced :
      l.metrics.tcp_conn_accept ≡ (l.metrics.tcp_conn_close + length l.connections) % usize_mod

module _ {S : Type 0} where
  pub length-before :
      (before after : List (TimeoutStream S)) (t : TimeoutStream S)
      → length (before ++ t ∷ after) ≡ length (before ++ after) + 1
  length-before before after t =
      omega (arith, length-append before (t ∷ after), length-append before after)

  fill-Inv :
      (now : ℕ) (stream : S) (l : Listen S)
      → length l.connections < l.max
      → Inv l
      → Inv (fill now stream l)
  unfolding fill new
  fill-Inv now stream l h v = record {
    bounded = omega (arith, h);
    counting = v.counting;
    balanced = omega (
      arith,
      increment_counting l.metrics.min_level l.metrics.tcp_conn_accept v.counting,
      v.balanced,
    );
  }

  -- A connection that is out of the set, with the others still in it.
  record IsOut (l : Listen S) : Type 0 where
    room : length l.connections + 1 ≤ l.max
    counting : includes l.metrics.min_level Level.debug ≡ true
    balanced :
        l.metrics.tcp_conn_accept
        ≡ (l.metrics.tcp_conn_close + length l.connections + 1) % usize_mod

  back-Inv :
      (t : TimeoutStream S) (l : Listen S)
      → IsOut l
      → Inv (record l { connections = t ∷ l.connections })
  back-Inv t l v = record {
    bounded = omega (arith, v.room);
    counting = v.counting;
    balanced = omega (arith, v.balanced);
  }

  close-Inv : (l : Listen S) → IsOut l → Inv (record l { metrics = count_close l.metrics })
  close-Inv l v = record {
    bounded = omega (arith, v.room);
    counting = v.counting;
    balanced = omega (
      arith,
      increment_counting l.metrics.min_level l.metrics.tcp_conn_close v.counting,
      v.balanced,
    );
  }

module _ {S T : Type 0} where
  poll_conn-Inv :
      (now : ℕ) (o : Timeout S T) (t : TimeoutStream S) (l : Listen S)
      → IsOut l
      → Inv (poll_conn now o t l).0
  unfolding poll_conn poll_next settle
  poll_conn-Inv now elapsed t l v =
      close-Inv (record l { metrics = count_timeout l.metrics })
        (record { room = v.room; counting = v.counting; balanced = v.balanced })
  poll_conn-Inv now (produced none stream) t l v = close-Inv l v
  poll_conn-Inv now (produced (some (valid item)) stream) t l v = back-Inv _ l v
  poll_conn-Inv now (produced (some (failed e)) stream) t l v =
      close-Inv (record l { metrics = count_receive_err l.metrics })
        (record { room = v.room; counting = v.counting; balanced = v.balanced })
  poll_conn-Inv now waiting t l v = back-Inv t l v

  Step-Inv : (l l' : Listen S) → Step S T l l' → Inv l → Inv l'
  Step-Inv l l' (accept now stream _ h) v = fill-Inv now stream l h v
  Step-Inv l l' (poll now o before after t _ e) v =
      let n = length-before before after t in
      let m : length l.connections ≡ length (before ++ after) + 1 = ap length e ∙ n in
      poll_conn-Inv now o t (record l { connections = before ++ after })
        (record {
          room = omega (arith, m, v.bounded);
          counting = v.counting;
          balanced = omega (arith, m, v.balanced);
        })

  -- If a listener has at most its maximum of connections, metrics are counted, and its connections
  -- are as many as were accepted and not closed, up to the wrap of the counters, then so it is
  -- after any acceptances and polls, whether connections end, fail or time out, as long as no sample
  -- of the metrics resets the counters.
  pub Steps-Inv : (l l' : Listen S) → Steps S T l l' → Inv l → Inv l'
  Steps-Inv l l' (stay _) v = v
  Steps-Inv l l' (next _ m _ s ss) v = Steps-Inv m l' ss (Step-Inv l m s v)

  -- A listener that is new, whose counters of connections agree, counts its connections in all that
  -- follows.
  pub listen-Inv :
      (keep_alive max : ℕ) (m : Metrics) (l : Listen S)
      → includes m.min_level Level.debug ≡ true
      → m.tcp_conn_accept ≡ m.tcp_conn_close % usize_mod
      → Steps S T (listen keep_alive max m) l
      → Inv l
  unfolding listen
  listen-Inv keep_alive max m l counting same steps =
      Steps-Inv (listen keep_alive max m) l steps
        (record { bounded = omega arith; counting = counting; balanced = omega (arith, same) })
