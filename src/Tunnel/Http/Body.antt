-- ===== src/Tunnel/Http/Body.antt =====
-- `check_body_complete_and_fill_read_buf` of src/tunnel/http.rs. A negative `body_len` stands for a
-- chunked body, whose end is told by its last five bytes.
use rsnova.Base.{
  ℕ, zero, suc, ◌-◌, Bool, false, ◌&&◌, List, [], ◌∷◌, ◌++◌, length, drop, ltb, ◌==◌, if◌then◌else◌,
}
use rsnova.Base.Int.{ℤ, pos, negsuc, sub_ℕ}
use rsnova.Base.Outcome.{Outcome, ok, ◌>>=◌}
use rsnova.Buffer.{fill_read_buf}

abbrev pub pop_front : List ℕ → List ℕ
pop_front [] = []
pop_front (x ∷ xs) = xs

-- `tail.push_back(b); if tail.len() > 5 { tail.pop_front(); }`
abbrev pub push_tail : List ℕ → ℕ → List ℕ
push_tail tail b =
    let longer = tail ++ (b ∷ []) in if ltb 5 (length longer) then pop_front longer else longer

-- `while tail_pos < recv_buf.len()`, over what is behind `tail_pos`.
unfoldable pub push_all : List ℕ → List ℕ → List ℕ
push_all [] tail = tail
push_all (b ∷ bs) tail = push_all bs (push_tail tail b)

unfoldable pub next_tail : List ℕ → List ℕ → List ℕ
unfolding push_all
next_tail recv_buf tail =
    if ltb 5 (length recv_buf)
    then push_all (drop (length recv_buf - 5) recv_buf) []
    else push_all recv_buf tail

-- `0\r\n\r\n`
unfoldable pub is_last_chunk : List ℕ → Bool
is_last_chunk (a ∷ b ∷ c ∷ d ∷ e ∷ []) = a == b'0' && b == 13 && c == 10 && d == 13 && e == 10
is_last_chunk tail = false

pub record Checked : Type 0 where
  pub complete : Bool
  pub out : List ℕ
  pub recv_buf : List ℕ
  pub tail : List ℕ
  pub body_len : ℤ

abbrev pub is_zero : ℤ → Bool
is_zero (pos n) = n == 0
is_zero (negsuc n) = false

-- The destination has `dst_len` bytes; the bytes that were copied to it are `out`.
unfoldable pub check_body_complete_and_fill_read_buf : List ℕ → ℕ → List ℕ → ℤ → Outcome Checked
unfolding next_tail is_last_chunk
check_body_complete_and_fill_read_buf recv_buf dst_len tail (negsuc n) =
    let tail' = next_tail recv_buf tail in
    fill_read_buf recv_buf dst_len >>= λ (out, rest). ok (record {
      complete = is_last_chunk tail';
      out = out;
      recv_buf = rest;
      tail = tail';
      body_len = negsuc n;
    })
check_body_complete_and_fill_read_buf recv_buf dst_len tail (pos zero) =
    ok
      (record { complete = false; out = []; recv_buf = recv_buf; tail = tail; body_len = pos zero })
check_body_complete_and_fill_read_buf recv_buf dst_len tail (pos (suc m)) =
    fill_read_buf recv_buf dst_len >>= λ (out, rest).
    let body_len = sub_ℕ (suc m) (length out) in
    ok (record {
      complete = is_zero body_len;
      out = out;
      recv_buf = rest;
      tail = tail;
      body_len = body_len;
    })
