-- ===== src/Io/Proxy/Connecting.antt =====
-- What `http_proxy_connect` (src/utils/net.rs) makes of the proxy's answer.
use rsnova.Base.{
  ℕ, ◌+◌, ◌<◌, ◌≡◌, refl, sym, ◌∙◌, ap, Bool, true, false, some, List, ◌∷◌, ◌++◌, length, take, ltb,
  not, subst,
}
use rsnova.Base.Text.{first_index}
use rsnova.Base.Outcome.{Outcome, ok, err, connection_aborted, ◌>>◌, fail_if}
use rsnova.Crypto.Reader.{Read}
use rsnova.Crypto.Reader.Stream.{incoming, AllData}
use rsnova.Io.Separator.{Finder, read_until_separator}
use rsnova.Io.Separator.Finding.{FindsFirst, Ends, read_until_separator-Ends}
use rsnova.Io.Proxy.{
  Response, whole, header_end, connect_str, Socket, is_ok_response, http_proxy_connect,
}

-- The socket behind the proxy's answer: the request is on it, and of what the proxy has sent behind
-- the answer, `lost` is read and gone.
pub record IsBehind (remote all : List ℕ) (n : ℕ) (s : Socket) : Type 0 where
  pub asked : s.written ≡ connect_str remote
  pub lost : List ℕ
  pub kept : take n all ++ (lost ++ incoming s.reads) ≡ all

abbrev pub Tunnels : Bool → List ℕ → List ℕ → ℕ → Outcome Socket → Type 0
Tunnels true remote all n r = (s : Socket) × (r ≡ ok s) × IsBehind remote all n s
Tunnels false remote all n r = r ≡ err connection_aborted

by_code :
    (b : Bool) (remote all : List ℕ) (n : ℕ) (s : Socket)
    → IsBehind remote all n s
    → Tunnels b remote all n (fail_if (not b) connection_aborted >> ok s)
by_code true remote all n s h = (s, refl, h)
by_code false remote all n s h = refl

module _ (find : Finder) (law : FindsFirst find) (parse : List ℕ → Response) where
  -- A proxy that is there and whose stream, cut into reads in any way, has a whole head: with a code
  -- below 300, those of interim answers among them, the call gives the socket, whose reads go on
  -- behind the bytes that came with the head, and those bytes are lost; with any other code it fails.
  pub http_proxy_connect_lem :
      {A : Type 0} (fuel : ℕ) (a : A) (addrs : List A) (remote : List ℕ) (reads : List Read)
      (i code : ℕ)
      → length reads < fuel
      → AllData reads
      → first_index header_end (incoming reads) ≡ some i
      → parse (take (i + 4) (incoming reads)) ≡ whole (some code)
      → Tunnels
          (ltb code 300)
          remote
          (incoming reads)
          (i + 4)
          (http_proxy_connect parse find fuel (some (a ∷ addrs)) (λ x. true) true remote reads)
  unfolding http_proxy_connect is_ok_response
  http_proxy_connect_lem fuel a addrs remote reads i code l d place answer =
      let all = incoming reads in
      let (s, r, h) =
        subst
          (λ o. Ends find law header_end all o (read_until_separator find header_end fuel reads))
          place (read_until_separator-Ends find law header_end fuel reads l d) in
      rw (r, ap parse h.head ∙ answer)
        (by_code (ltb code 300) remote all (i + 4)
          (record { written = connect_str remote; reads = s.reads })
          (record {
            asked = refl;
            lost = s.body;
            kept = ap (λ t. t ++ (s.body ++ incoming s.reads)) (sym h.head) ∙ h.kept;
          }))
