-- ===== src/Server/Tcp/Serving/Kept.antt =====
-- A connection that the server of sqelf/src/server/tcp.rs has gives the items of its session.
use mathlib.Core.Path.{subst}
use seq_input_gelf.Common.{
  ℕ, suc, ◌<◌, ◌≡◌, ap, ◌∙◌, List, [], ◌∷◌, Option, arith, length, ltb, nat_eq, Bool, Bool-cases,
  Option-cases, inl, inr,
}
use seq_input_gelf.Receive.Outcome.{Bytes, Result}
use seq_input_gelf.Receive.Message.{Message}
use seq_input_gelf.Server.Metrics.{Metrics}
use seq_input_gelf.Server.Tcp.Decode.{new as new_decoder}
use seq_input_gelf.Server.Tcp.Decode.Framing.{restart-Inv}
use seq_input_gelf.Server.Tcp.Decode.Stream.{opened}
use seq_input_gelf.Server.Tcp.Connections.{Listen, fill, new}
use seq_input_gelf.Server.Tcp.Serving.{Peer, Turn, accept, poll, take_peer, peer, serve_all}
use seq_input_gelf.Server.Tcp.Serving.Outcomes.{IsPeer, poll_peer-Outcome}
use seq_input_gelf.Server.Tcp.Serving.Own.{
  own, polls_of, seen, Tracks, seen_nil, seen_absent, serve_all-absent, own_poll,
}
use seq_input_gelf.Server.Tcp.Serving.Peers.{mine, IsTaken, take_peer-IsTaken}

module _ {S : Type 0} (receive : Bytes → S → S × Result (Option Message))
    (elapses : ℕ → ℕ → Bool → Bool) (max : ℕ) (first : Metrics) (s : S) where
  -- The turns of the server while it has a connection with a number below the next one.
  pub own-serves :
      (j : ℕ) (m : Metrics) (turns : List Turn) (n : ℕ) (l : Listen (Peer S))
      → j < n
      → Tracks receive elapses max first s j l.connections
      → own j (serve_all receive elapses max first s turns n l)
        ≡ seen receive elapses max first s (polls_of j turns) m (mine j l.connections)
  unfolding serve_all polls_of fill new peer mine opened new_decoder own
  own-serves j m [] n l below set = seen_nil receive elapses max first s m (mine j l.connections)
  own-serves j m (accept now ∷ turns) n l below set =
      elim (Bool-cases (ltb (length l.connections) l.max)) [
        | inl e ↦
            let filled = fill now (peer receive elapses max first s n) l in
            let same : mine j filled.connections ≡ mine j l.connections = ground (arith, below) in
            rw (e, serve_all)
              (own-serves j m turns (suc n) filled (omega (arith, below)) (record {
                valid = (restart-Inv (opened receive max first s).decoder [], set.valid);
                single = rw (same) set.single;
              })
                ∙ ap (seen receive elapses max first s (polls_of j turns) m) same)
        | inr e ↦ rw (e, serve_all) (own-serves j m turns n l below set)
      ]
  own-serves j m (poll now id arrived ∷ turns) n l below set =
      let P = IsPeer receive elapses in
      let taken = take_peer-IsTaken j id P l.connections set.valid in
      elim (Option-cases (take_peer id l.connections)) [
        | inl e ↦
            ap (own j) (serve_all-absent receive elapses max first s now id arrived turns n l e)
            ∙ own-serves j m turns n l below set
            ∙ seen_absent receive elapses max first s j id now arrived turns m
                (mine j l.connections) (subst (IsTaken j id P l.connections) e taken)
        | inr ((t, others), e) ↦
            let (same, found, len, p, ps) = subst (IsTaken j id P l.connections) e taken in
            let o =
              poll_peer-Outcome receive elapses now arrived t (record l { connections = others }) m
                p in
            own_poll receive elapses max first s j id now arrived turns n l t others m e same ps o
              found set.single (own-serves j m turns n o.listener below)
      ]
