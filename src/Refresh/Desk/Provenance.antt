-- ===== src/Refresh/Desk/Provenance.antt =====
-- Where answers come from.
use zdash.Prelude.{All}
use zdash.Refresh.Desk.{Desk, opened, here, later, Reachable}
use zdash.Refresh.Desk.Invariant.{IsHonest, Inv}
use zdash.Refresh.Desk.Moves.{Step-Inv}

opened-Inv : Inv opened
unfolding zdash.Table.find
opened-Inv = record {
  running = tt;
  storing = tt;
  deleting = tt;
  closing = tt;
  waiters = tt;
  named = λ k c e. absurd (cc);
  cached = λ k e h. absurd (cc);
  honest = tt;
}

pub Reachable-Inv : {s : Desk} → Reachable s → Inv s
Reachable-Inv here = opened-Inv
Reachable-Inv (later r st) = Step-Inv st (Reachable-Inv r)

-- In every reachable state every caller that was answered got what a producer of its own endpoint
-- had returned by then, body and status, or one of the three refusals of `get` and `wait`: no order
-- of callers, fetches, timeouts and sessions mixes endpoints up or hands out a result before it is
-- there.
pub answers-IsHonest : {s : Desk} → Reachable s → All (IsHonest s.produced) s.answered
answers-IsHonest r = (Reachable-Inv r).honest
