-- ===== src/Server/Metrics.antt =====
-- The metrics of sqelf/src/server/mod.rs, with the minimum level that `increment!` asks for. They are
-- what has been added since the last sample; what the samples do is in Diagnostics/Samples.antt.
use seq_input_gelf.Common.{ℕ}
use seq_input_gelf.Diagnostics.{increment}

pub record Metrics : Type 0 where
  pub min_level : ℕ
  pub receive_ok : ℕ
  pub receive_err : ℕ
  pub process_ok : ℕ
  pub process_err : ℕ
  pub tcp_conn_accept : ℕ
  pub tcp_conn_close : ℕ
  pub tcp_conn_timeout : ℕ
  pub tcp_msg_overflow : ℕ

abbrev pub count_overflow : Metrics → Metrics
count_overflow m = record m { tcp_msg_overflow = increment m.min_level m.tcp_msg_overflow }
