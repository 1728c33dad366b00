-- ===== src/Io/Proxy.antt =====
-- `is_ok_response` and `http_proxy_connect` of src/utils/net.rs: a connection through an HTTP proxy.
-- The crates `httparse` and `twoway` are arguments, and so is what the network answers.
pub mod Connecting
use rsnova.Base.{ℕ, Bool, false, not, Option, none, some, List, [], ◌∷◌, ◌++◌, ltb, if◌then◌else◌}
use rsnova.Base.Text.{codes}
use rsnova.Base.Outcome.{
  Outcome, ok, err, failed, connection_aborted, ◌>>=◌, ◌>>◌, fail_if, or_panic,
}
use rsnova.Buffer.{is_nil}
use rsnova.Crypto.Reader.{Read}
use rsnova.Io.Separator.{Split, Finder, read_until_separator}

-- What `httparse` makes of a response: a whole head with its code, or not.
pub data Response : Type 0 where
  whole : Option ℕ → Response
  not_whole : Response

abbrev pub crlf : List ℕ
crlf = 13 ∷ 10 ∷ []

abbrev pub header_end : List ℕ
header_end = crlf ++ crlf

unfoldable pub connect_str : List ℕ → List ℕ
connect_str remote =
    codes "CONNECT "
    ++ (remote
        ++ (codes " HTTP/1.1"
            ++ (crlf
                ++ (codes "Host: "
                    ++ (remote
                        ++ (crlf
                            ++ (codes "Connection: keep-alive"
                                ++ (crlf
                                    ++ (codes "Proxy-Connection: keep-alive" ++ header_end)))))))))

-- A connection: what has been written to it, and what is still to be read.
pub record Socket : Type 0 where
  pub written : List ℕ
  pub reads : List Read

-- `raddr[0]` of the addresses that the proxy's name stands for; none is a name without any answer.
abbrev pub first_addr : {A : Type 0} → Option (List A) → Outcome A
first_addr none = err connection_aborted
first_addr (some []) = or_panic none
first_addr (some (a ∷ as_)) = ok a

module _ (parse : List ℕ → Response) where
  abbrev pub is_below_300 : Response → Outcome Bool
  is_below_300 not_whole = ok false
  is_below_300 (whole code) = or_panic code >>= λ c. ok (ltb c 300)

  unfoldable pub is_ok_response : List ℕ → Outcome Bool
  is_ok_response buf = is_below_300 (parse buf)

  -- The bytes behind the head that came with it are not handed on.
  unfoldable pub http_proxy_connect :
      {A : Type 0}
      → Finder
      → ℕ
      → Option (List A)
      → (A → Bool)
      → Bool
      → List ℕ
      → List Read
      → Outcome Socket
  unfolding is_ok_response connect_str
  http_proxy_connect find fuel addrs connects writes remote reads = do
    raddr ← first_addr addrs
    fail_if (not (connects raddr)) failed
    fail_if (not writes) failed
    split ← read_until_separator find header_end fuel reads
    good ← is_ok_response split.head
    fail_if (not good) connection_aborted
    ok (record { written = connect_str remote; reads = split.reads })
