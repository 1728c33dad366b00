-- ===== src/Tunnel/Relay/Directions.antt =====
-- Where the bytes of the two directions of `relay` (src/tunnel/relay.rs) are.
use rsnova.Base.{ℕ, ◌&&◌, not, List, ltb, ◌==◌, if_elim, arith}
use rsnova.Io.{BufCopy, Answer, not_ready, broken, goes, Progress, copying, done, failed}
use rsnova.Io.Copy.{Copies, Progresses, ask-Progresses}
use rsnova.Tunnel.Relay.{
  End, connection, shared, Direction, moving, closing, ended, after_copy, relay_size, asked,
  flushed, copy_step, close_writer, advance,
}

-- Where the bytes `all` of a direction's reader are.
abbrev pub Carries : List ℕ → Direction → Type 0
Carries all (moving c) = Copies all c
Carries all (closing p) = Progresses all p
Carries all (ended p) = Progresses all p

copied : (all : List ℕ) (p : Progress) → Progresses all p → Carries all (after_copy p)
copied all (copying c) k = k
copied all (done n c) k = k
copied all (failed c) k = k

copy_step-Progresses :
    (all : List ℕ) (from to : End) (c : BufCopy) (a : Answer)
    → Copies all c
    → Progresses all (copy_step from to c a).1
unfolding copy_step
copy_step-Progresses all from to c a h =
    let P : End × Progress → Type 0 = (λ x. Progresses all x.1) in
    let any = λ (b : Answer). ask-Progresses all relay_size c b (omega arith) h in
    if_elim P (any (asked from a))
      (if_elim P (any (asked to a)) (any (flushed to a)) (ltb c.pos c.cap))
      (c.pos == c.cap && not c.read_done)

close_writer-Progresses :
    (all : List ℕ) (to : End) (p : Progress) (a : Answer)
    → Progresses all p
    → Carries all (close_writer to p a).1
close_writer-Progresses all (shared b) p a h = h
close_writer-Progresses all connection p not_ready h = h
close_writer-Progresses all connection p broken h = h
close_writer-Progresses all connection p (goes k) h = h

pub advance-Carries :
    (all : List ℕ) (from to : End) (d : Direction) (a : Answer)
    → Carries all d
    → Carries all (advance from to d a).2
unfolding advance
advance-Carries all from to (moving c) a h =
    copied all (copy_step from to c a).1 (copy_step-Progresses all from to c a h)
advance-Carries all from to (closing p) a h = close_writer-Progresses all to p a h
advance-Carries all from to (ended p) a h = h
