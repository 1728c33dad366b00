-- ===== src/Io.antt =====
-- src/utils/io.rs: `BufCopy`, the future that moves bytes from a reader to a writer. A poll returns
-- where a reader or writer is not ready and starts over at the same call, so the copy is a machine
-- that asks one thing at a time: its answers are a list. `source` are the bytes that the reader will
-- give, `sink` those that the writer has taken; `buf` has the bytes that the last read filled.
pub mod Copy
pub mod Separator
pub mod Websocket
pub mod Proxy
use rsnova.Base.{
  ℕ, suc, ◌+◌, ◌-◌, ◌%◌, ◌^◌, min, Bool, true, false, ◌&&◌, not, List, [], ◌∷◌, ◌++◌, length, take,
  drop, ltb, ◌==◌, if◌then◌else◌,
}

pub record BufCopy : Type 0 where
  pub source : List ℕ
  pub read_done : Bool
  pub sink : List ℕ
  pub pos : ℕ
  pub cap : ℕ
  pub amt : ℕ
  pub buf : List ℕ

-- What the reader or the writer answers, with the number of bytes that it is ready for.
pub data Answer : Type 0 where
  not_ready broken : Answer
  goes : ℕ → Answer

pub data Progress : Type 0 where
  copying : BufCopy → Progress
  done : ℕ → BufCopy → Progress
  failed : BufCopy → Progress

unfoldable pub buf_copy : List ℕ → BufCopy
buf_copy source = record {
  source = source;
  read_done = false;
  sink = [];
  pos = 0;
  cap = 0;
  amt = 0;
  buf = [];
}

-- A read into `size` bytes: at least one while the reader has some, and none at its end.
abbrev pub read_some : ℕ → BufCopy → Answer → Progress
read_some size c not_ready = copying c
read_some size c broken = failed c
read_some size c (goes k) =
    let n = min (suc k) (min size (length c.source)) in
    if n == 0
    then copying (record c { read_done = true })
    else copying (record c { pos = 0; cap = n; buf = take n c.source; source = drop n c.source })

-- A write of `&buf[pos..cap]`.
abbrev pub write_some : BufCopy → Answer → Progress
write_some c not_ready = copying c
write_some c broken = failed c
write_some c (goes k) =
    let i = min k (c.cap - c.pos) in
    if i == 0
    then failed c
    else copying (record c {
      sink = c.sink ++ take i (drop c.pos c.buf);
      pos = c.pos + i;
      amt = (c.amt + i) % 2 ^ 64;
    })

abbrev pub flush : BufCopy → Answer → Progress
flush c not_ready = copying c
flush c broken = failed c
flush c (goes k) = done c.amt c

unfoldable pub ask : ℕ → BufCopy → Answer → Progress
ask size c a =
    if c.pos == c.cap && not c.read_done
    then read_some size c a
    else if ltb c.pos c.cap
    then write_some c a
    else flush c a

abbrev pub go_on : (BufCopy → Progress) → Progress → Progress
go_on later (copying c) = later c
go_on later (done n c) = done n c
go_on later (failed c) = failed c

-- Poll after poll, until the future is ready.
unfoldable pub poll : ℕ → List Answer → BufCopy → Progress
poll size [] c = copying c
poll size (a ∷ answers) c = let later = poll size answers in go_on later (ask size c a)
